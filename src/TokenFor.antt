-- ===== src/TokenFor.antt =====
-- tokenfor.go: TokenFor, which asks the token endpoint for the app itself or for a person. A plan is
-- what TokenFor hands to cachedToken: the key, the cap, and the fetch to make. `digest` is SHA-256 in
-- hexadecimal, `expiry` is unverifiedJWTExpiry, and `endpoint` is what `send` returns for a form that
-- is posted to the token endpoint, with or without client authentication.
pub mod Scope
pub mod Forms
pub mod Answers
pub mod Keys
pub mod Failures
pub mod Served
pub mod Tests
use auth_sdk_go.Base.{
  ℕ, Bool, true, false, ◌||◌, ◌⊎◌, inl, inr, List, [], ◌∷◌, ◌++◌, Option, none, some, if◌then◌else◌,
}
use auth_sdk_go.Base.Text.{Bytes, bytes, is_empty}
use auth_sdk_go.Encoding.{write_fields}
use auth_sdk_go.Errors.{Err, other, plain, reauthenticate, client_credentials_required}
use auth_sdk_go.TokenCache.{FetchedToken, got, failed}
use auth_sdk_go.TokenFor.Scope.{normalize_scope}
use auth_sdk_go.TokenFor.Forms.{
  ExchangeOption, machine_form, person_form, with_scope, with_actor_token, token_exchange_form,
}
use auth_sdk_go.TokenFor.Answers.{App, Endpoint, post_token_endpoint, token_or_error}

-- The fetch that a plan has cachedToken make.
pub data Fetch : Type 0 where
  machine : (resource scope : Bytes) → Fetch
  person : (subject resource scope : Bytes) → Fetch
  legacy : (subject resource audience scope : Bytes) → Fetch

abbrev scope_option : Bytes → List ExchangeOption
scope_option scope = if is_empty scope then [] else with_scope scope ∷ []

module _ (endpoint : Endpoint) (metadata : Option Bytes) (now : ℕ) where
  unfoldable pub client_credentials_token : (resource scope : Bytes) → App → App × FetchedToken
  unfolding token_or_error post_token_endpoint machine_form
  client_credentials_token resource scope c =
      token_or_error metadata now c false resource scope
        (post_token_endpoint endpoint (machine_form resource scope) true)

  unfoldable pub exchange_for_person : (subject resource scope : Bytes) → App → App × FetchedToken
  unfolding token_or_error post_token_endpoint person_form
  exchange_for_person subject resource scope c =
      token_or_error metadata now c true resource scope
        (post_token_endpoint endpoint (person_form subject resource scope) true)

  -- `actor` is what the cache gives for the app's own token.
  unfoldable pub legacy_exchange_token :
      FetchedToken → (subject resource audience scope : Bytes) → App → App × FetchedToken
  unfolding token_or_error post_token_endpoint token_exchange_form with_scope with_actor_token
  legacy_exchange_token (failed e) subject resource audience scope c = (c, failed e)
  legacy_exchange_token (got actor) subject resource audience scope c =
      token_or_error metadata now c true resource scope (
        post_token_endpoint endpoint
          (token_exchange_form subject audience
            (with_actor_token actor.access_token ∷ scope_option scope))
          false)

  unfoldable pub fetch_token : FetchedToken → Fetch → App → App × FetchedToken
  unfolding client_credentials_token exchange_for_person legacy_exchange_token
  fetch_token actor (machine resource scope) = client_credentials_token resource scope
  fetch_token actor (person subject resource scope) = exchange_for_person subject resource scope
  fetch_token actor (legacy subject resource audience scope) =
      legacy_exchange_token actor subject resource audience scope

pub data Plan : Type 0 where
  refuse : Err → Plan
  ask : (key : Bytes) → (upto : ℕ) → Fetch → Plan

-- The errors that TokenFor makes with errors.New.
abbrev no_audience : Err
no_audience = other 1

abbrev no_resource : Err
no_resource = other 2

module _ (digest : Bytes → Bytes) (expiry : Bytes → ℕ) where
  unfoldable pub token_cache_key : List Bytes → Bytes
  unfolding write_fields
  token_cache_key parts = digest (write_fields parts)

  unfoldable pub subject_key : Bytes → Bytes
  subject_key subject = digest (bytes "ab0t-auth-sdk/subject" ++ (0 ∷ subject))

  unfoldable pub actor_key : App → Bytes
  unfolding token_cache_key
  actor_key c = token_cache_key (bytes "actor" ∷ c.client_id ∷ [] ∷ [] ∷ [] ∷ [] ∷ [])

  unfoldable pub plan_legacy : App → (resource audience scope subject : Bytes) → Plan
  unfolding token_cache_key subject_key
  plan_legacy c resource audience scope subject =
      if is_empty audience
      then refuse no_audience
      else ask
          (token_cache_key (
            bytes "p3-legacy"
            ∷ c.client_id
            ∷ resource
            ∷ scope
            ∷ audience
            ∷ subject_key subject
            ∷ []))
          (expiry subject) (legacy subject resource audience scope)

  unfoldable pub plan_person : App → (resource scope subject : Bytes) → Plan
  unfolding token_cache_key subject_key plan_legacy
  plan_person c resource scope subject =
      if is_empty subject
      then refuse (plain reauthenticate)
      else if c.legacy_exchange
      then plan_legacy c resource
          (if is_empty c.legacy_audience then resource else c.legacy_audience) scope subject
      else if is_empty resource
      then refuse no_resource
      else ask
          (token_cache_key
            (bytes "p3" ∷ c.client_id ∷ resource ∷ scope ∷ [] ∷ subject_key subject ∷ []))
          (expiry subject) (person subject resource scope)

  -- `session` is absent for no session, and else what its AccessToken returns. The text that is put
  -- before a session's own error is not modelled.
  unfoldable pub plan_for : App → (resource scope : Bytes) → Option (Bytes ⊎ Err) → Plan
  unfolding token_cache_key plan_person
  plan_for c resource scope none =
      ask (token_cache_key (bytes "p2" ∷ c.client_id ∷ resource ∷ scope ∷ [] ∷ [] ∷ [])) 0
        (machine resource scope)
  plan_for c resource scope (some (inr e)) = refuse e
  plan_for c resource scope (some (inl subject)) = plan_person c resource scope subject

  unfoldable pub token_for : App → (resource scope : Bytes) → Option (Bytes ⊎ Err) → Plan
  unfolding plan_for normalize_scope
  token_for c resource scope session =
      if is_empty c.client_id || is_empty c.client_secret
      then refuse (plain client_credentials_required)
      else plan_for c resource (normalize_scope scope) session
