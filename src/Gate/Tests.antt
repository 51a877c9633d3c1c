-- ===== src/Gate/Tests.antt =====
-- The gate on concrete requests.
use auth_sdk_go.Base.{ℕ, ◌≡◌, refl, Bool, true, false, [], none, some}
use auth_sdk_go.Base.Text.{Bytes, bytes, same, is_empty}
use auth_sdk_go.Errors.{Err, api, other}
use auth_sdk_go.Actor.{Actor, Resource, verdict}
use auth_sdk_go.ValidationCache.{Outcome, answer, failure}
use auth_sdk_go.Gate.{
  Gate, Request, passed, denied, Decision, decided, undecided, Validator, auth_required,
  invalid_token, auth_unavailable, authz_unavailable, credential, resource_id_of, validate,
  definite_no, authenticate, require_identity, require,
}
use auth_sdk_go.Gate.Laws.{require_identity_passes, require_passes}

abbrev status_error : ℕ → Err
status_error s = api (record {
  status_code = s;
  method = [];
  endpoint = [];
  code = [];
  sub_error = [];
  message = [];
  request_id = [];
  body = [];
})

abbrev validator_of : Outcome → Validator
validator_of o = record { validate_token = λ _. o; validate_token_with = none }

abbrev gate_of : Bool → Outcome → Decision → Gate
gate_of fail_open o d = record {
  v = some (validator_of o);
  a = some (λ _ _ _. d);
  fail_open = fail_open;
  resource_id = none;
  include_permissions = false;
  api_key_header = [];
}

abbrev request : Request
request = record {
  authorization = bytes "bearer  a.b.c ";
  header = λ _. [];
  path_id = bytes "7";
  identity = none;
}

abbrev yes_gate : Gate
yes_gate = gate_of false (answer (some (verdict true))) (decided true)

abbrev refused_gate : Gate
refused_gate = gate_of true (failure (status_error 401)) (undecided (status_error 403))

abbrev down_gate : Gate
down_gate = gate_of false (failure (other 1)) (undecided (other 1))

bearer_test : credential yes_gate request ≡ bytes "a.b.c"
unfolding credential same
bearer_test = refl

status_tests :
    (require_identity yes_gate request ≡ passed (some (verdict true)))
    × (authenticate refused_gate request ≡ denied [] 401 invalid_token (some (status_error 401)))
    × (authenticate down_gate request ≡ denied [] 503 auth_unavailable (some (other 1)))
    × (require down_gate (bytes "x") [] request
        ≡ denied (bytes "x") 503 authz_unavailable (some (other 1)))
    × (authenticate yes_gate (record request { authorization = [] }) ≡ passed none)
    × (require_identity yes_gate (record request { authorization = [] })
        ≡ denied [] 401 auth_required none)
unfolding authenticate require_identity require credential same validate definite_no
status_tests = (refl, refl, refl, refl, refl, refl)

has_credential : (g : Gate) → g.api_key_header ≡ [] → is_empty (credential g request) ≡ false
unfolding credential same
has_credential g h = refl

require_identity_passes_example :
    (v : Validator) × (a : Actor) × (yes_gate.v ≡ some v)
    × (some (verdict true) ≡ some a)
    × (a.valid ≡ true)
    × (validate yes_gate v (credential yes_gate request) ≡ answer (some a))
require_identity_passes_example =
    require_identity_passes yes_gate request (some (verdict true)) refl status_tests.0

require_yes : require yes_gate (bytes "x") [] request ≡ passed none
unfolding require credential same
require_yes = refl

require_passes_example :
    (authorize : Bytes → Bytes → Resource → Decision) × (yes_gate.a ≡ some authorize)
    × (is_empty (credential yes_gate request) ≡ false)
    × (authorize
          (credential yes_gate request)
          (bytes "x")
          (record { type = []; id = resource_id_of yes_gate request })
        ≡ decided true)
unfolding require credential same
require_passes_example = require_passes yes_gate (bytes "x") [] request refl refl
