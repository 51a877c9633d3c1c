-- ===== src/TokenFor/Tests.antt =====
-- Calls of TokenFor at concrete inputs, and the theorems applied to them.
use auth_sdk_go.Base.{
  subst, sym, ◌∙◌, ◌<◌, ◌+◌, ◌⊎◌, List, ℕ, ◌*◌, ◌≡◌, ◌≢◌, ◌↔◌, refl, true, false, inl, [], ◌∷◌,
  none, some, pos,
}
use auth_sdk_go.Base.Text.{Bytes, bytes, same}
use auth_sdk_go.Base.Space.{fields}
use auth_sdk_go.Base.Time.{second}
use auth_sdk_go.Actor.{contains_string}
use auth_sdk_go.Errors.{
  ApiError, api, as_api_error, reauthenticate, plain, consent_required, client_credentials_required,
}
use auth_sdk_go.TokenCache.{FetchedToken, got, failed, enter, hit, token_refresh_margin}
use auth_sdk_go.TokenFor.Scope.{normalize_scope}
use auth_sdk_go.TokenFor.Scope.Sets.{normalize_scope_iff}
use auth_sdk_go.TokenFor.Answers.{App, with_client_credentials, Endpoint, classify_token_error}
use auth_sdk_go.TokenFor.{
  Fetch, machine, legacy, person, refuse, ask, token_for, token_cache_key, subject_key, actor_key,
  fetch_token,
}
use auth_sdk_go.TokenFor.Keys.{Fits, upto_of, token_for-Fits, token_for-key}
use auth_sdk_go.TokenFor.Served.{MadeByCalls, CappedByCalls, served_own_token}
use auth_sdk_go.TokenCache.Calls.{Event, start, go_in, come_back, run, new_system}

abbrev no_app : App
no_app = record {
  client_id = [];
  client_secret = [];
  legacy_exchange = false;
  legacy_audience = [];
  authz_endpoint = [];
  base_url = bytes "https://auth";
}

abbrev app : App
app = with_client_credentials (bytes "app") (bytes "s3cret") no_app

abbrev identity : Bytes → Bytes
identity s = s

abbrev never : Bytes → ℕ
never s = 0

sorted_scope : normalize_scope (bytes " write read  read ") ≡ bytes "read write"
unfolding normalize_scope
sorted_scope = refl

one_word : normalize_scope (bytes " read ") ≡ bytes "read"
unfolding normalize_scope
one_word = refl

normalize_scope_iff_example : (normalize_scope (bytes "b a b") ≡ normalize_scope (bytes "a  b")) ↔ (
    (w : Bytes)
    → contains_string (fields (bytes "b a b")) w ≡ contains_string (fields (bytes "a  b")) w)
normalize_scope_iff_example = normalize_scope_iff (bytes "b a b") (bytes "a  b")

without_credentials :
    token_for identity never no_app (bytes "orders") [] none
    ≡ refuse (plain client_credentials_required)
unfolding token_for
without_credentials = refl

abbrev person_key : Bytes
person_key = token_cache_key identity never (
    bytes "p3"
    ∷ bytes "app"
    ∷ bytes "orders"
    ∷ bytes "read write"
    ∷ []
    ∷ subject_key identity never (bytes "jwt")
    ∷ [])

for_person :
    token_for identity never app (bytes "orders") (bytes "write read") (some (inl (bytes "jwt")))
    ≡ ask person_key 0 (person (bytes "jwt") (bytes "orders") (bytes "read write"))
unfolding token_for
for_person = refl

for_person_again :
    token_for identity never app
      (bytes "orders")
      (bytes "read write read")
      (some (inl (bytes "jwt")))
    ≡ ask person_key 0 (person (bytes "jwt") (bytes "orders") (bytes "read write"))
unfolding token_for
for_person_again = refl

token_for-key_example :
    (◌≡◌ {A = Fetch}
      (person (bytes "jwt") (bytes "orders") (bytes "read write"))
      (person (bytes "jwt") (bytes "orders") (bytes "read write")))
    × (◌≡◌ {A = ℕ} 0 0)
    × (person_key ≢ actor_key identity never app)
token_for-key_example =
    token_for-key identity never (λ x y e. e) app (bytes "orders") (bytes "orders")
      (bytes "write read") (bytes "read write read") (some (inl (bytes "jwt")))
      (some (inl (bytes "jwt"))) person_key 0 0 _ _ for_person for_person_again

abbrev answer_400 : Bytes → Bytes → ApiError
answer_400 code sub_error = record {
  status_code = 400;
  method = bytes "POST";
  endpoint = bytes "/auth/oauth/token";
  code = code;
  sub_error = sub_error;
  message = [];
  request_id = [];
  body = [];
}

abbrev expired_grant : ApiError
expired_grant = answer_400 (bytes "invalid_grant") []

is_api : as_api_error (api expired_grant) ≡ some expired_grant
unfolding as_api_error
is_api = refl

abbrev wants_consent : ApiError
wants_consent = answer_400 (bytes "invalid_target") (bytes "consent_required")

consent :
    classify_token_error
      (some (bytes "https://auth/go"))
      app
      (api wants_consent)
      true
      (bytes "orders")
      (bytes "read")
    ≡ (
      record app { authz_endpoint = bytes "https://auth/go" },
      consent_required
          (bytes "orders")
          (bytes "read")
          (bytes "app")
          (bytes "https://auth/go")
          wants_consent,
    )
unfolding classify_token_error same
consent = refl

-- Answers every form with a token that lasts an hour.
abbrev generous : Endpoint
generous form basic = inl (record {
  access_token = bytes "at";
  token_type = bytes "Bearer";
  expires_in = pos 3600;
  scope = [];
})

own_token :
    fetch_token generous none
      (10 * second)
      (failed (plain reauthenticate))
      (machine (bytes "orders") (bytes "read"))
      app
    ≡ (
      app,
      got (record {
        access_token = bytes "at";
        token_type = bytes "Bearer";
        resource = bytes "orders";
        scope = bytes "read";
        expires_at = 3610 * second;
      }),
    )
unfolding fetch_token
own_token = refl

-- Whatever is asked, the n-th answer is this token.
abbrev same_answer : ℕ → Fetch → FetchedToken
same_answer n f = got (record {
  access_token = n ∷ bytes "at";
  token_type = bytes "Bearer";
  resource = [];
  scope = [];
  expires_at = 3600 * second;
})

abbrev same_for_keys : Bytes → ℕ → FetchedToken
same_for_keys k n = same_answer n (machine [] [])

made_by_calls : MadeByCalls identity never (λ x y e. e) app same_answer same_for_keys (λ k. 0)
made_by_calls k n u f call = (u, f, call, refl)

no_cap_is : (f : Fetch) → upto_of identity never f ≡ 0
no_cap_is (machine r s) = refl
no_cap_is (person t r s) = refl
no_cap_is (legacy t r a s) = refl

capped_by_calls : CappedByCalls identity never (λ x y e. e) app same_answer same_for_keys (λ k. 0)
capped_by_calls k u f call =
    let fits =
      subst (Fits identity never app) call.3
        (token_for-Fits identity never app call.0 call.1 call.2) in
    sym (fits.1 ∙ no_cap_is f)

-- A call that has been answered, and a second one.
abbrev one_call : List Event
one_call = start 0 person_key ∷ go_in 0 (5 * second) ∷ come_back 0 7 (6 * second) false ∷ []

served_again :
    (enter (60 * second) person_key (run same_for_keys (λ k. 0) one_call (new_system 4)).cache).1
    ≡ hit (record {
      access_token = 7 ∷ bytes "at";
      token_type = bytes "Bearer";
      resource = [];
      scope = [];
      expires_at = 3600 * second;
    })
unfolding enter run same token_cache_key subject_key
served_again = refl

served_own_token_example :
    ((n : ℕ) × (same_answer n (person (bytes "jwt") (bytes "orders") (bytes "read write"))
        ≡ same_answer 7 (person (bytes "jwt") (bytes "orders") (bytes "read write"))))
    × (60 * second + token_refresh_margin < 3600 * second)
    × ((◌≡◌ {A = ℕ} 0 0) ⊎ (60 * second < 0))
served_own_token_example =
    served_own_token identity never (λ x y e. e) app same_answer same_for_keys (λ k. 0)
      made_by_calls capped_by_calls 4 one_call (60 * second) person_key 0
      (person (bytes "jwt") (bytes "orders") (bytes "read write")) _
      (bytes "orders", bytes "write read", some (inl (bytes "jwt")), for_person) served_again
