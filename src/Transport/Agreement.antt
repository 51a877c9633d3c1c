-- ===== src/Transport/Agreement.antt =====
-- The two copies of the retry loop, in `send` and in `doRaw`.
use auth_sdk_go.Base.{
  ℕ, zero, suc, ◌≡◌, refl, sym, if◌then◌else◌, Bool, true, false, [], Option, none, some, arith,
}
use auth_sdk_go.Base.Text.{Bytes}
use auth_sdk_go.Json.{Json}
use auth_sdk_go.Errors.{Err, cancelled}
use auth_sdk_go.Transport.{
  Reply, lost, response, World, Call, Result, failed, Happening, sent, observed, Run, after,
  if_made, seen_lost, seen_status, send_from, do_raw_from, send_round, do_raw_round, send, do_raw,
}

-- The result without the observations.
abbrev result_of : Run → Option Result
result_of none = none
result_of (some (hs, r)) = some r

result_of-after : (i : Happening) (o : Run) → result_of (after i o) ≡ result_of o
result_of-after i none = refl
result_of-after i (some (hs, r)) = refl

result_of-waits :
    (h : Happening) (o : Run) (r : Result) (ends : Bool)
    → result_of (after h (if ends then some ([], r) else o))
      ≡ (if ends then some r else result_of o)
result_of-waits h o r true = refl
result_of-waits h o r false = result_of-after h o

result_of-if_made :
    (unmade : Option Err) (h : Happening) (o : Run)
    → if_made unmade (λ err. some (failed err)) (result_of o)
      ≡ result_of (if_made unmade (λ err. some ([], failed err)) (after h o))
result_of-if_made none h o = sym (result_of-after h o)
result_of-if_made (some err) h o = refl

-- A decoder that takes every body as it is.
abbrev pub any_body : Bytes → Option Err
any_body body = none

module _ (parse : Bytes → Option Json) where
  do_raw_round_lem :
      (c : Call) (w : World) (attempt : ℕ) (again : Run) (r : Reply)
      → do_raw_round parse c w attempt (result_of again) r
        ≡ result_of (send_round parse any_body c w attempt again r)
  unfolding send_round do_raw_round
  do_raw_round_lem c w attempt again (lost err) = ground (
    arith,
    result_of-waits (observed (seen_lost attempt err true)) again (failed cancelled)
        (w.ends_waiting attempt),
  )
  do_raw_round_lem c w attempt again (response status rid body) = ground (
    arith,
    result_of-waits (observed (seen_status attempt status true)) again (failed cancelled)
        (w.ends_waiting attempt),
  )

  do_raw_from_lem :
      (fuel : ℕ) (c : Call) (w : World) (attempt : ℕ)
      → do_raw_from parse fuel c w attempt ≡ result_of (send_from parse any_body fuel c w attempt)
  unfolding send_from do_raw_from
  do_raw_from_lem zero c w attempt = refl
  do_raw_from_lem (suc fuel) c w attempt =
      let again = send_from parse any_body fuel c w (suc attempt) in
      rw
        (
          do_raw_from_lem fuel c w (suc attempt),
          do_raw_round_lem c w attempt again (w.reply attempt),
        )
        (result_of-if_made w.unmade (sent attempt) _)

  -- The two copies of the retry loop agree: `doRaw` returns what `send` returns with a decoder that
  -- takes the body as it is.
  pub do_raw_eq_send :
      (c : Call) (w : World) → do_raw parse c w ≡ result_of (send parse any_body c w)
  unfolding send do_raw
  do_raw_eq_send c w = do_raw_from_lem (suc c.max_retries) c w 0
