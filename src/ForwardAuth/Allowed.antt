-- ===== src/ForwardAuth/Allowed.antt =====
-- What a yes of a forward-auth endpoint rests on.
use auth_sdk_go.Base.{
  ℕ, zero, suc, ◌≡◌, refl, ap, ◌∙◌, true, Option, none, some, ◌⊎◌, inl, inr, arith, Bool-cases,
}
use auth_sdk_go.Base.Text.{Bytes}
use auth_sdk_go.Errors.{Err, api}
use auth_sdk_go.Json.{Json}
use auth_sdk_go.Transport.{
  World, Call, Reply, lost, response, Result, received, failed, is_success, do_raw_round,
  do_raw_from, do_raw, if_made,
}
use auth_sdk_go.ForwardAuth.{ForwardAuthDecision, decision_of, map_decision, forward_auth_decide}

module _ (parse : Bytes → Option Json) where
  -- An attempt met a success with this body.
  abbrev pub Answered : World → Bytes → Type 0
  Answered w body =
      (n : ℕ) × (status : ℕ) × (rid : Bytes) × (w.reply n ≡ response status rid body)
      × (is_success status ≡ true)

  if_made_received :
      (unmade : Option Err) (o : Option Result) (body : Bytes)
      → if_made unmade (λ err. some (failed err)) o ≡ some (received body)
      → o ≡ some (received body)
  if_made_received none o body h = h
  if_made_received (some err) o body h = absurd (cc)

  round_received :
      (c : Call) (w : World) (attempt : ℕ) (again : Option Result) (reply : Reply) (body : Bytes)
      → w.reply attempt ≡ reply
      → do_raw_round parse c w attempt again reply ≡ some (received body)
      → Answered w body ⊎ (again ≡ some (received body))
  unfolding do_raw_round
  round_received c w attempt again (lost err) body e h = inr (ground arith)
  round_received c w attempt again (response status rid text) body e h =
      elim (Bool-cases (is_success status)) [
        | inl b ↦
            let same : text ≡ body = cc (rw b at h) in
            inl (attempt, status, rid, e ∙ ap (response status rid) same, b)
        | inr b ↦ inr (ground arith)
      ]

  from_received :
      (fuel : ℕ) (c : Call) (w : World) (attempt : ℕ) (body : Bytes)
      → do_raw_from parse fuel c w attempt ≡ some (received body)
      → Answered w body
  unfolding do_raw_from
  from_received zero c w attempt body h = absurd (cc)
  from_received (suc fuel) c w attempt body h =
      let again = do_raw_from parse fuel c w (suc attempt) in
      elim (round_received c w attempt again (w.reply attempt) body refl (
        if_made_received w.unmade (do_raw_round parse c w attempt again (w.reply attempt)) body
          h)) [ inl done ↦ done | inr k ↦ from_received fuel c w (suc attempt) body k ]

  decision_allowed :
      (r : Result) (d : ForwardAuthDecision)
      → decision_of r ≡ inl d
      → d.allowed ≡ true
      → (r ≡ received d.body) × (d.status_code ≡ 200)
  unfolding decision_of
  decision_allowed (received body) d e h = (ground arith, ground arith)
  decision_allowed (failed (api ae)) d e h = absurd (ground arith)
  decision_allowed (failed x) d e h = absurd (cc)

  decided_received :
      (r : Option Result) (d : ForwardAuthDecision)
      → map_decision r ≡ some (inl d)
      → d.allowed ≡ true
      → (r ≡ some (received d.body)) × (d.status_code ≡ 200)
  decided_received none d e h = absurd (cc)
  decided_received (some r) d e h =
      let (got, status) = decision_allowed r d (cc e) h in (ap some got, status)

  -- A forward-auth decision that allows rests on an attempt that the service answered with a status
  -- from 200 to 299 and with the body that the decision carries; the decision reports the status 200
  -- whatever that status was.
  pub forward_auth_decide-allowed :
      (max_retries : ℕ) (method path : Bytes) (w : World) (d : ForwardAuthDecision)
      → forward_auth_decide parse max_retries method path w ≡ some (inl d)
      → d.allowed ≡ true
      → Answered w d.body × (d.status_code ≡ 200)
  unfolding forward_auth_decide do_raw
  forward_auth_decide-allowed max_retries method path w d e h =
      let c : Call = record { method = method; path = path; max_retries = max_retries } in
      let (got, status) = decided_received (do_raw parse c w) d e h in
      (from_received (suc max_retries) c w 0 d.body got, status)
