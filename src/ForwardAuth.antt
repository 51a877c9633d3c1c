-- ===== src/ForwardAuth.antt =====
-- forwardauth.go: the decision of a proxy's endpoints, over doRaw of transport.go.
pub mod Allowed
pub mod Tests
use auth_sdk_go.Base.{
  ℕ, Bool, true, false, ◌||◌, Option, none, some, ◌⊎◌, inl, inr, ◌==◌, if◌then◌else◌,
}
use auth_sdk_go.Base.Text.{Bytes, bytes, is_empty}
use auth_sdk_go.Errors.{ApiError, Err, api}
use auth_sdk_go.Json.{Json}
use auth_sdk_go.Transport.{World, Result, received, failed, do_raw}

pub record ForwardAuthDecision : Type 0 where
  pub allowed : Bool
  pub status_code : ℕ
  pub body : Bytes

-- `(*ForwardAuthDecision, error)`
abbrev pub Outcome : Type 0
Outcome = ForwardAuthDecision ⊎ Err

-- A 401 or a 403 is a no; any other answer of the service is an error.
abbrev denial_of : ApiError → Outcome
denial_of ae =
    if ae.status_code == 401 || ae.status_code == 403
    then inl (record { allowed = false; status_code = ae.status_code; body = ae.body })
    else inr (api ae)

-- The type assertion `err.(*APIError)` does not look through a wrapped error.
unfoldable pub decision_of : Result → Outcome
decision_of (received body) = inl (record { allowed = true; status_code = 200; body = body })
decision_of (failed (api ae)) = denial_of ae
decision_of (failed e) = inr e

unfoldable normalize_fa_method : Bytes → Bytes
normalize_fa_method method = if is_empty method then bytes "GET" else method

abbrev pub map_decision : Option Result → Option Outcome
map_decision none = none
map_decision (some r) = some (decision_of r)

module _ (parse : Bytes → Option Json) (max_retries : ℕ) where
  unfoldable pub forward_auth_decide : (method path : Bytes) → World → Option Outcome
  unfolding do_raw decision_of
  forward_auth_decide method path w =
      map_decision
        (do_raw parse (record { method = method; path = path; max_retries = max_retries }) w)

  unfoldable pub forward_auth_live : Bytes → World → Option Outcome
  unfolding forward_auth_decide normalize_fa_method
  forward_auth_live method =
      forward_auth_decide (normalize_fa_method method) (bytes "/forward-auth/live")

  unfoldable pub forward_auth : Bytes → World → Option Outcome
  unfolding forward_auth_decide normalize_fa_method
  forward_auth method = forward_auth_decide (normalize_fa_method method) (bytes "/forward-auth/")

  unfoldable pub forward_auth_pass : Bytes → World → Option Outcome
  unfolding forward_auth_decide normalize_fa_method
  forward_auth_pass method =
      forward_auth_decide (normalize_fa_method method) (bytes "/forward-auth/pass")

  unfoldable pub forward_auth_fail : Bytes → World → Option Outcome
  unfolding forward_auth_decide normalize_fa_method
  forward_auth_fail method =
      forward_auth_decide (normalize_fa_method method) (bytes "/forward-auth/fail")
