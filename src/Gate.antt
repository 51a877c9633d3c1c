-- ===== src/Gate.antt =====
-- authmw/authmw.go: the middleware. A request is what the gate reads of it: the two headers that may
-- carry a credential, the resource id, and an identity if one was attached before. A gate's answer is
-- the request passed on to the handler, with the identity attached to its context, or a denial.
-- `Validator` and `Authorizer` are the interfaces' methods, as functions of their arguments.
pub mod Laws
pub mod Tests
use auth_sdk_go.Base.{
  ℕ, ◌≡◌, refl, Bool, true, false, ◌&&◌, ◌||◌, not, List, [], ◌∷◌, ◌++◌, Option, none, some, leb,
  if◌then◌else◌, ◌==◌, is_some,
}
use auth_sdk_go.Base.Text.{Bytes, bytes, is_empty, same}
use auth_sdk_go.Json.{fold}
use auth_sdk_go.Errors.{Err, other, is_unauthorized, is_forbidden}
use auth_sdk_go.Base.Space.{trim_space}
use auth_sdk_go.Credential.{is_api_key}
use auth_sdk_go.Actor.{Actor, Resource, TokenValidationRequest}
use auth_sdk_go.ValidationCache.{Outcome, answer, failure}

-- `(bool, error)`
pub data Decision : Type 0 where
  decided : Bool → Decision
  undecided : Err → Decision

-- The validator: its ValidateToken, and its ValidateTokenWith if it has one.
pub record Validator : Type 0 where
  pub validate_token : Bytes → Outcome
  pub validate_token_with : Option (TokenValidationRequest → Outcome)

pub record Request : Type 0 where
  pub authorization : Bytes
  -- the value of the header by its name; the gate reads one name
  pub header : Bytes → Bytes
  pub path_id : Bytes
  pub identity : Option Actor

pub record Gate : Type 0 where
  pub v : Option Validator
  pub a : Option (Bytes → Bytes → Resource → Decision)
  pub fail_open : Bool
  pub resource_id : Option (Request → Bytes)
  pub include_permissions : Bool
  pub api_key_header : Bytes

-- The messages of a denial.
pub data Message : Type 0 where
  auth_required invalid_token forbidden auth_unavailable authz_unavailable : Message

pub data Response : Type 0 where
  -- the next handler runs, with this identity in the request's context
  passed : Option Actor → Response
  -- OnDeny's action, the status, the message, and the error that OnDeny gets
  denied : Bytes → ℕ → Message → Option Err → Response

-- `h[:7]` and `h[7:]` where the text is long enough.
abbrev bearer_rest : Bytes → Option Bytes
bearer_rest (a ∷ b ∷ c ∷ d ∷ e ∷ f ∷ g ∷ rest) =
    if same (fold (a ∷ b ∷ c ∷ d ∷ e ∷ f ∷ g ∷ [])) (bytes "bearer ") then some rest else none
bearer_rest _ = none

unfoldable pub bearer : Bytes → Bytes
unfolding trim_space fold
bearer h =
    if is_empty h
    then []
    else elim (bearer_rest h) [ some rest ↦ trim_space rest | none ↦ trim_space h ]

unfoldable credential_from : Request → Bytes → Bytes
unfolding bearer
credential_from r api_key_header =
    if is_empty (bearer r.authorization)
    then trim_space (r.header api_key_header)
    else bearer r.authorization

unfoldable pub credential : Gate → Request → Bytes
unfolding credential_from
credential g r =
    credential_from r (if is_empty g.api_key_header then bytes "X-API-Key" else g.api_key_header)

unfoldable pub resource_id_of : Gate → Request → Bytes
resource_id_of g r = elim g.resource_id [ some f ↦ f r | none ↦ r.path_id ]

unfoldable pub definite_no : Err → Bool
unfolding is_unauthorized is_forbidden
definite_no err = is_unauthorized err || is_forbidden err

-- errNoPermissionValidator: an error of its own, with no HTTP status.
abbrev no_permission_validator : Err
no_permission_validator = other 0

unfoldable pub validate : Gate → Validator → Bytes → Outcome
validate g v tok =
    if g.include_permissions && not (is_api_key tok)
    then elim v.validate_token_with [
      | none ↦ failure no_permission_validator
      | some with ↦ with (record {
        token = tok;
        required_permissions = [];
        expected_audience = [];
        include_permissions = true;
      })
    ]
    else v.validate_token tok

-- The answer of the validator, as a response.
unfoldable pub on_validation : Gate → Request → Outcome → Response
unfolding definite_no
on_validation g r (failure err) =
    if definite_no err
    then denied [] 401 invalid_token (some err)
    else if g.fail_open
    then passed r.identity
    else denied [] 503 auth_unavailable (some err)
on_validation g r (answer none) = denied [] 401 invalid_token none
on_validation g r (answer (some actor)) =
    if actor.valid then passed (some actor) else denied [] 401 invalid_token none

unfoldable pub identify : Gate → Request → (required : Bool) → Response
unfolding on_validation
identify g r required =
    if is_empty (credential g r)
    then if required then denied [] 401 auth_required none else passed r.identity
    else elim g.v [
      | none ↦
          if not required
          then passed r.identity
          else if g.fail_open
          then passed r.identity
          else denied [] 503 auth_unavailable none
      | some v ↦ on_validation g r (validate g v (credential g r))
    ]

unfoldable pub authenticate : Gate → Request → Response
unfolding identify
authenticate g r = identify g r false

unfoldable pub require_identity : Gate → Request → Response
unfolding identify
require_identity g r = identify g r true

-- The answer of the authorizer, as a response.
unfoldable pub on_decision : Gate → Request → (action : Bytes) → Decision → Response
on_decision g r action (undecided err) =
    if is_unauthorized err
    then denied action 401 invalid_token (some err)
    else if is_forbidden err
    then denied action 403 forbidden (some err)
    else if g.fail_open
    then passed r.identity
    else denied action 503 authz_unavailable (some err)
on_decision g r action (decided allowed) =
    if allowed then passed r.identity else denied action 403 forbidden none

unfoldable pub require : Gate → (action resource_type : Bytes) → Request → Response
unfolding on_decision
require g action resource_type r =
    if is_empty (credential g r) then denied action 401 auth_required none else elim g.a [
      | none ↦ if g.fail_open then passed r.identity else denied action 503 authz_unavailable none
      | some authorize ↦ on_decision g r action (
          authorize (credential g r) action
            (record { type = resource_type; id = resource_id_of g r }))
    ]
