-- ===== src/Operations/Answers.antt =====
-- operations.go: what the service answers, and the functions between those answers and the cache's:
-- the adaptations of ValidateAPIKey, apiKeyActor and the decision that an answer makes. A call that
-- panics, by a nil pointer, is `none`.
use auth_sdk_go.Base.{ℕ, Bool, false, List, [], ◌∷◌, Option, none, some}
use auth_sdk_go.Base.Text.{Bytes}
use auth_sdk_go.Actor.{Actor, verdict}
use auth_sdk_go.Errors.{Err}
use auth_sdk_go.Gate.{Decision, decided, undecided}
use auth_sdk_go.ValidationCache.{CacheClass, class_decision, Outcome, answer, failure}

-- What doJSON leaves: the decoded body, or an error.
pub data Reply {ℓ} (A : Type ℓ) : Type ℓ where
  got : A → Reply A
  failed : Err → Reply A

pub record ValidateApiKeyRequest : Type 0 where
  pub api_key : Bytes
  pub required_permissions : List Bytes
  pub expected_audience : Bytes

pub record ApiKeyValidation : Type 0 where
  pub valid : Bool
  pub user_id : Bytes
  pub org_id : Bytes
  pub email : Bytes
  pub permissions : List Bytes
  pub audience : List Bytes
  pub expires_at : Bytes
  pub reason : Bytes
  pub is_delegation : Bool
  pub acting_as : Bytes
  pub delegation_scope : List Bytes
  pub delegation_chain : List Bytes

pub record PermissionCheckRequest : Type 0 where
  pub user_id : Bytes
  pub permission : Bytes
  pub org_id : Bytes
  pub resource_type : Bytes
  pub resource_id : Bytes

-- `(*APIKeyValidation, error)`
pub data KeyOutcome : Type 0 where
  key_answer : Option ApiKeyValidation → KeyOutcome
  key_failure : Err → KeyOutcome

abbrev pub stamped : ℕ → Reply Actor → Outcome
stamped now (got a) = answer (some (record a { retrieved_at = now }))
stamped now (failed err) = failure err

-- The two adaptations of ValidateAPIKey between an API key's answer and an Actor.
unfoldable pub actor_of : ℕ → ApiKeyValidation → Actor
actor_of now v = record {
  valid = v.valid;
  user_id = v.user_id;
  org_id = v.org_id;
  email = v.email;
  permissions = v.permissions;
  audience = v.audience;
  expires_at = v.expires_at;
  error = v.reason;
  is_delegation = v.is_delegation;
  acting_as = v.acting_as;
  delegation_scope = v.delegation_scope;
  delegation_chain = v.delegation_chain;
  retrieved_at = now;
}

unfoldable pub validation_of : Actor → ApiKeyValidation
validation_of a = record {
  valid = a.valid;
  user_id = a.user_id;
  org_id = a.org_id;
  email = a.email;
  permissions = a.permissions;
  audience = a.audience;
  expires_at = a.expires_at;
  reason = a.error;
  is_delegation = a.is_delegation;
  acting_as = a.acting_as;
  delegation_scope = a.delegation_scope;
  delegation_chain = a.delegation_chain;
}

abbrev pub adapted : ℕ → Reply ApiKeyValidation → Outcome
adapted now (got v) = answer (some (actor_of now v))
adapted now (failed err) = failure err

abbrev pub uncached : Reply ApiKeyValidation → KeyOutcome
uncached (got v) = key_answer (some v)
uncached (failed err) = key_failure err

abbrev pub key_outcome : Outcome → KeyOutcome
key_outcome (failure err) = key_failure err
key_outcome (answer none) = key_answer none
key_outcome (answer (some a)) = key_answer (some (validation_of a))

-- `len(perms) > 0` makes a question a permission decision.
abbrev pub class_of : CacheClass → List Bytes → CacheClass
class_of cls [] = cls
class_of cls (p ∷ ps) = class_decision

-- The Actor that apiKeyActor makes of an answer; without one it panics.
unfoldable pub key_actor : ℕ → KeyOutcome → Option Outcome
key_actor now (key_failure err) = some (failure err)
key_actor now (key_answer none) = none
key_actor now (key_answer (some v)) = some (
    answer (
      some (record (verdict v.valid) {
        user_id = v.user_id;
        org_id = v.org_id;
        permissions = v.permissions;
        error = v.reason;
        retrieved_at = now;
      })))

-- `actor.Valid` of an answer, as a decision; a nil actor panics.
unfoldable pub valid_of : Outcome → Option Decision
valid_of (failure err) = some (undecided err)
valid_of (answer none) = none
valid_of (answer (some a)) = some (decided a.valid)

-- The same, where the source tests for nil first.
abbrev pub allowed_of : Outcome → Option Decision
allowed_of (failure err) = some (undecided err)
allowed_of (answer none) = some (decided false)
allowed_of (answer (some a)) = some (decided a.valid)

abbrev pub checked : Reply Bool → Outcome
checked (got allowed) = answer (some (verdict allowed))
checked (failed err) = failure err
