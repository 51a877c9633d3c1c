-- ===== src/Gate/Laws.antt =====
-- The gate fails closed: who is let through, and with which status the others are sent away.
use auth_sdk_go.Base.{
  ◌≡◌, refl, ◌⊎◌, inl, inr, Bool, true, false, not, [], Option, none, some, arith, if◌then◌else◌,
  Bool-cases, Option-cases,
}
use auth_sdk_go.Base.Text.{Bytes, is_empty}
use auth_sdk_go.Errors.{Err, is_unauthorized}
use auth_sdk_go.Actor.{Actor, Resource}
use auth_sdk_go.ValidationCache.{Outcome, answer, failure}
use auth_sdk_go.Gate.{
  Gate, Request, Response, passed, denied, Decision, decided, undecided, Validator, invalid_token,
  forbidden, auth_unavailable, authz_unavailable, credential, resource_id_of, definite_no, validate,
  on_validation, identify, require_identity, on_decision, require,
}

-- The response lets the request through.
abbrev is_passed : Response → Bool
is_passed (passed i) = true
is_passed (denied a s m e) = false

-- The auth service answered, and the credential is not valid.
abbrev pub is_refused : Outcome → Bool
is_refused (failure e) = definite_no e
is_refused (answer none) = true
is_refused (answer (some a)) = not a.valid

-- The auth service could not answer.
abbrev is_unanswered : Outcome → Bool
is_unanswered (failure e) = not (definite_no e)
is_unanswered (answer a) = false

on_validation_passes :
    (g : Gate) (r : Request) (o : Outcome) (i : Option Actor)
    → g.fail_open ≡ false
    → on_validation g r o ≡ passed i
    → (a : Actor) × (i ≡ some a) × (a.valid ≡ true) × (o ≡ answer (some a))
unfolding on_validation
on_validation_passes g r (failure e) i f h = absurd (ground arith)
on_validation_passes g r (answer none) i f h = absurd (ground arith)
on_validation_passes g r (answer (some a)) i f h = (a, ground arith, ground arith, refl)

on_validation_refused :
    (g : Gate) (r : Request) (o : Outcome)
    → is_refused o ≡ true
    → (e : Option Err) × (on_validation g r o ≡ denied [] 401 invalid_token e)
unfolding on_validation
on_validation_refused g r (failure x) h = (some x, ground arith)
on_validation_refused g r (answer none) h = (none, refl)
on_validation_refused g r (answer (some a)) h = (none, ground arith)

on_validation_unanswered :
    (g : Gate) (r : Request) (o : Outcome)
    → g.fail_open ≡ false
    → is_unanswered o ≡ true
    → (e : Err) × (on_validation g r o ≡ denied [] 503 auth_unavailable (some e))
unfolding on_validation
on_validation_unanswered g r (failure x) f h = (x, ground arith)
on_validation_unanswered g r (answer a) f h = cc

on_decision_passes :
    (g : Gate) (r : Request) (action : Bytes) (d : Decision)
    → g.fail_open ≡ false
    → is_passed (on_decision g r action d) ≡ true
    → d ≡ decided true
unfolding on_decision
on_decision_passes g r action (undecided e) f h = absurd (ground arith)
on_decision_passes g r action (decided b) f h = ground arith

-- With FailOpen off, RequireIdentity passes a request on only with an identity that the validator
-- answered for the request's own credential, and that the validator calls valid.
pub require_identity_passes :
    (g : Gate) (r : Request) (i : Option Actor)
    → g.fail_open ≡ false
    → require_identity g r ≡ passed i
    → (v : Validator) × (a : Actor) × (g.v ≡ some v)
      × (i ≡ some a)
      × (a.valid ≡ true)
      × (validate g v (credential g r) ≡ answer (some a))
unfolding require_identity
require_identity_passes g r i f h = elim (Bool-cases (is_empty (credential g r))) [
  | inl e ↦ absurd (ground arith)
  | inr e ↦ elim (Option-cases g.v) [
    | inl k ↦ absurd (ground arith)
    | inr (v, k) ↦
        let (a, p, q, s) =
          on_validation_passes g r (validate g v (credential g r)) i f (ground arith) in
        (v, a, k, p, q, s)
  ]
]

-- With FailOpen off, Require passes a request on only if there is a credential and the authorizer
-- answered yes for it, for the route's action and for the resource of the request.
pub require_passes :
    (g : Gate) (action resource_type : Bytes) (r : Request)
    → g.fail_open ≡ false
    → is_passed (require g action resource_type r) ≡ true
    → (authorize : Bytes → Bytes → Resource → Decision) × (g.a ≡ some authorize)
      × (is_empty (credential g r) ≡ false)
      × (authorize
            (credential g r)
            action
            (record { type = resource_type; id = resource_id_of g r })
          ≡ decided true)
unfolding require
require_passes g action resource_type r f h = elim (Bool-cases (is_empty (credential g r))) [
  | inl e ↦ absurd (ground arith)
  | inr e ↦ elim (Option-cases g.a) [
    | inl k ↦ absurd (ground arith)
    | inr (authorize, k) ↦ (authorize, k, e, on_decision_passes g r action _ f (ground arith))
  ]
]

-- A credential that the auth service refuses is answered 401 by Authenticate and RequireIdentity,
-- with FailOpen on as well.
refused_credential-denied :
    (g : Gate) (r : Request) (required : Bool) (v : Validator)
    → g.v ≡ some v
    → is_empty (credential g r) ≡ false
    → is_refused (validate g v (credential g r)) ≡ true
    → (e : Option Err) × (identify g r required ≡ denied [] 401 invalid_token e)
unfolding identify
refused_credential-denied g r required v k n h =
    let (e, p) = on_validation_refused g r (validate g v (credential g r)) h in
    (e, ground (arith, p))

-- An auth service that cannot answer for a credential is answered 503, by Authenticate and
-- RequireIdentity alike, unless FailOpen is on: it is never taken for a missing identity.
unanswered_credential-denied :
    (g : Gate) (r : Request) (required : Bool) (v : Validator)
    → g.fail_open ≡ false
    → g.v ≡ some v
    → is_empty (credential g r) ≡ false
    → is_unanswered (validate g v (credential g r)) ≡ true
    → (e : Err) × (identify g r required ≡ denied [] 503 auth_unavailable (some e))
unfolding identify
unanswered_credential-denied g r required v f k n h =
    let (e, p) = on_validation_unanswered g r (validate g v (credential g r)) f h in
    (e, ground (arith, p))

-- The authorizer answered, and the answer is no.
abbrev is_denial : Decision → Bool
is_denial (undecided e) = definite_no e
is_denial (decided b) = not b

-- A denial is sent away with 401 where the credential itself is not valid, else with 403.
abbrev IsDenied : Bytes → Decision → Response → Type 0
IsDenied action (undecided e) s = s ≡ (
    if is_unauthorized e
    then denied action 401 invalid_token (some e)
    else denied action 403 forbidden (some e))
IsDenied action (decided b) s = s ≡ denied action 403 forbidden none

on_decision-IsDenied :
    (g : Gate) (r : Request) (action : Bytes) (d : Decision)
    → is_denial d ≡ true
    → IsDenied action d (on_decision g r action d)
unfolding on_decision definite_no
on_decision-IsDenied g r action (undecided e) h = ground arith
on_decision-IsDenied g r action (decided b) h = ground arith

-- A definite no of the authorizer is answered 401 or 403 by Require, with FailOpen on as well.
require_denial-IsDenied :
    (g : Gate) (action resource_type : Bytes) (r : Request)
    (authorize : Bytes → Bytes → Resource → Decision)
    → g.a ≡ some authorize
    → is_empty (credential g r) ≡ false
    → let d =
        authorize
          (credential g r)
          action
          (record { type = resource_type; id = resource_id_of g r }) in
      is_denial d ≡ true → IsDenied action d (require g action resource_type r)
unfolding require credential resource_id_of
require_denial-IsDenied g action resource_type r authorize k n h =
    rw (n, k, require) (on_decision-IsDenied g r action _ h)

-- With FailOpen off, Require answers 503 whenever the authorizer is missing or gave no definite
-- answer.
require_undecided_denied :
    (g : Gate) (action resource_type : Bytes) (r : Request)
    (authorize : Bytes → Bytes → Resource → Decision) (e : Err)
    → g.fail_open ≡ false
    → is_empty (credential g r) ≡ false
    → (g.a ≡ none)
      ⊎ ((g.a ≡ some authorize)
          × (authorize
                (credential g r)
                action
                (record { type = resource_type; id = resource_id_of g r })
              ≡ undecided e)
          × (definite_no e ≡ false))
    → (x : Option Err) × (require g action resource_type r ≡ denied action 503 authz_unavailable x)
unfolding require on_decision definite_no
require_undecided_denied g action resource_type r authorize e f n (inl h) =
    (none, rw (n, h, f, require))
require_undecided_denied g action resource_type r authorize e f n (inr (k, d, h)) =
    (some e, rw (n, k, d, require) (ground arith))
