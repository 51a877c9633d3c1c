-- ===== src/Operations.antt =====
-- operations.go: ValidateToken, ValidateTokenWith, ValidateAPIKey and Authorize of the client, over
-- the validation cache; the client's audience (authclient.go) and unverifiedJWTExpiry (tokenfor.go).
-- A `Moment` is what one call meets: the clock before each use of the cache, whether the context
-- asks for a fresh answer, and what the service answers to each question. A call that panics, by
-- a nil pointer, is `none`. The seconds of an expiry are not bounded.
pub mod Answers
pub mod Expiry
pub mod Laws
pub mod Authorize
pub mod Total
pub mod Allows
pub mod Invalidated
pub mod Tests
use auth_sdk_go.Base.{
  ℕ, ◌≡◌, Bool, true, false, not, ◌||◌, List, [], ◌∷◌, Option, none, some, if◌then◌else◌,
}
use auth_sdk_go.Base.Text.{Bytes, bytes, is_empty}
use auth_sdk_go.Actor.{Actor, verdict, Resource, is_zero, TokenValidationRequest}
use auth_sdk_go.Credential.{is_api_key}
use auth_sdk_go.Errors.{Err, is_unauthorized}
use auth_sdk_go.Gate.{Decision, decided, undecided}
use auth_sdk_go.ValidationCache.{
  CacheClass, class_token, class_api_key, class_decision, Cache, Outcome, answer, failure, get_with,
  get,
}
use auth_sdk_go.ValidationCache.Invalidation.{drop_prefix, reset}
use auth_sdk_go.ValidationCache.Key.{validation_key, credential_fingerprint}
use auth_sdk_go.Operations.Answers.{
  Reply, ValidateApiKeyRequest, ApiKeyValidation, PermissionCheckRequest, KeyOutcome, stamped,
  actor_of, validation_of, adapted, uncached, key_outcome, class_of, key_actor, valid_of,
  allowed_of, checked, got, failed, key_answer, key_failure,
}

pub record Moment : Type 0 where
  pub now : ℕ
  pub later : ℕ
  pub fresh : Bool
  pub validate_token : TokenValidationRequest → Reply Actor
  pub validate_api_key : ValidateApiKeyRequest → Reply ApiKeyValidation
  -- `Allowed` of the decision, for the caller's credential
  pub check_permission : PermissionCheckRequest → Bytes → Reply Bool

pub record Client : Type 0 where
  pub expected_audience : Bytes
  pub expected_jwt_audience : Bytes
  pub vcache : Option Cache

unfoldable pub jwt_audience : Client → Bytes
jwt_audience c =
    if is_empty c.expected_jwt_audience then c.expected_audience else c.expected_jwt_audience

-- A question about a token, without IncludePermissions.
abbrev pub token_request : Bytes → List Bytes → Client → TokenValidationRequest
token_request token perms c = record {
  token = token;
  required_permissions = perms;
  expected_audience = jwt_audience c;
  include_permissions = false;
}

abbrev pub then_valid : Client × Option Outcome → Client × Option Decision
then_valid (c, none) = (c, none)
then_valid (c, some o) = (c, valid_of o)

abbrev pub check_request : Actor → Bytes → Resource → PermissionCheckRequest
check_request a action resource = record {
  user_id = a.user_id;
  permission = action;
  org_id = a.org_id;
  resource_type = resource.type;
  resource_id = resource.id;
}

module _ (parse_time : Bytes → Bytes → Option ℕ) (digest : Bytes → Bytes)
    (jwt_expiry : Bytes → ℕ) where
  unfoldable pub validate_token_with : Moment → TokenValidationRequest → Client → Client × Outcome
  validate_token_with m req c =
      let aud = if is_empty req.expected_audience then jwt_audience c else req.expected_audience in
      let fetched = stamped m.now (m.validate_token (record req { expected_audience = aud })) in
      elim c.vcache [
        | none ↦ (c, fetched)
        | some v ↦
            (let (v', o) =
                get_with parse_time
                  (validation_key digest (bytes "validate-token") req.token aud
                    req.required_permissions req.include_permissions)
                  (class_of class_token req.required_permissions) is_unauthorized
                  (jwt_expiry req.token) m.now m.fresh fetched v in
              (record c { vcache = some v' }, o))
      ]

  unfoldable pub validate_api_key : Moment → ValidateApiKeyRequest → Client → Client × KeyOutcome
  validate_api_key m req c =
      let aud =
        if is_empty req.expected_audience then c.expected_audience else req.expected_audience in
      let reply = m.validate_api_key (record req { expected_audience = aud }) in
      elim c.vcache [
        | none ↦ (c, uncached reply)
        | some v ↦
            (let (v', o) =
                get parse_time
                  (validation_key digest (bytes "validate-api-key") req.api_key aud
                    req.required_permissions false)
                  (class_of class_api_key req.required_permissions) 0 m.now m.fresh
                  (adapted m.now reply) v in
              (record c { vcache = some v' }, key_outcome o))
      ]

  unfoldable pub api_key_actor : Moment → Bytes → List Bytes → Client → Client × Option Outcome
  api_key_actor m key required_perms c =
      let (c', o) =
        validate_api_key m
          (record {
            api_key = key;
            required_permissions = required_perms;
            expected_audience = c.expected_audience;
          })
          c in
      (c', key_actor m.now o)

  -- The identity question of ValidateToken and of Authorize, by the kind of the credential.
  unfoldable pub resolve : Moment → Bytes → List Bytes → Client → Client × Option Outcome
  resolve m token perms c =
      if is_api_key token
      then api_key_actor m token perms c
      else (let (c', o) = validate_token_with m (token_request token perms c) c in (c', some o))

  unfoldable pub validate_token : Moment → Bytes → Client → Client × Option Outcome
  validate_token m token c = resolve m token [] c

  unfoldable pub authorize_unscoped : Moment → Bytes → Bytes → Client → Client × Option Decision
  authorize_unscoped m token action c = then_valid (resolve m token (action ∷ []) c)

  abbrev pub resource_key : Bytes → Bytes → Bytes → Resource → Actor → Bytes
  resource_key token aud action resource a =
      validation_key digest (bytes "authorize-resource") token aud
        (action ∷ resource.type ∷ resource.id ∷ a.user_id ∷ a.org_id ∷ []) false

  -- The second half of authorizeOnResource: the decision on the resource for the subject.
  unfoldable pub decide_on_resource :
      Moment → Bytes → Bytes → Resource → Actor → Client → Client × Option Decision
  decide_on_resource m token action resource a c =
      let fetched = checked (m.check_permission (check_request a action resource) token) in
      let aud = if is_api_key token then c.expected_audience else jwt_audience c in
      elim c.vcache [
        | none ↦ (c, valid_of fetched)
        | some v ↦
            if v.explicit
            then (c, valid_of fetched)
            else (let (v', o) =
                  get parse_time (resource_key token aud action resource a) class_decision
                    (jwt_expiry token) m.later m.fresh fetched v in
                (record c { vcache = some v' }, allowed_of o))
      ]

  unfoldable pub on_subject :
      Moment → Bytes → Bytes → Resource → Client × Option Outcome → Client × Option Decision
  on_subject m token action resource (c, none) = (c, none)
  on_subject m token action resource (c, some (failure err)) = (c, some (undecided err))
  on_subject m token action resource (c, some (answer none)) = (c, some (decided false))
  on_subject m token action resource (c, some (answer (some a))) =
      if a.valid then decide_on_resource m token action resource a c else (c, some (decided false))

  unfoldable pub authorize_on_resource :
      Moment → Bytes → Bytes → Resource → Client → Client × Option Decision
  authorize_on_resource m token action resource c =
      on_subject m token action resource (resolve m token [] c)

  unfoldable pub authorize : Moment → Bytes → Bytes → Resource → Client → Client × Option Decision
  authorize m token action resource c =
      if is_zero resource
      then authorize_unscoped m token action c
      else authorize_on_resource m token action resource c

-- InvalidateValidation and ResetValidationCache of the client.
unfoldable pub invalidate_validation : (digest : Bytes → Bytes) → Bytes → Client → Client
invalidate_validation digest cred c = elim c.vcache [
  | none ↦ c
  | some v ↦ if is_empty cred then c else record c {
    vcache =
        some (record v { entries = drop_prefix (credential_fingerprint digest cred) v.entries });
  }
]

unfoldable reset_validation_cache : Client → Client
reset_validation_cache c = elim c.vcache [
  | none ↦ c
  | some v ↦ record c { vcache = some (reset v) }
]
