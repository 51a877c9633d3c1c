-- ===== src/Relations/Checks.antt =====
-- store.go: Can, CanID, Why, CanAll and CanAny, and what a yes means.
use auth_sdk_go.Base.{
  ℕ, suc, ◌<◌, ◌≡◌, ◌↔◌, refl, ap, Bool, true, false, not, ◌⊎◌, inl, inr, List, [], ◌∷◌, Option,
  none, some, arith, ◌==◌, if◌then◌else◌, length, All, Option-cases,
}
use auth_sdk_go.Base.Text.{Bytes}
use auth_sdk_go.Errors.{Err}
use auth_sdk_go.Relations.{
  typed_id, CheckRequest, CheckResponse, Failure, service, short_answer, check_typed_ids,
  all_allowed, every_allowed, any_allowed, first_untyped, valid_typed_id,
}

-- `(bool, error)`
abbrev pub Decision : Type 0
Decision = Bool × Option Failure

-- What the service's answer becomes.
unfoldable pub served : {A : Type 0} → A ⊎ Err → A ⊎ Failure
served (inl a) = inl a
served (inr e) = inr (service e)

module _ (check : CheckRequest → CheckResponse ⊎ Err) where
  unfoldable pub zanzibar_check : CheckRequest → CheckResponse ⊎ Failure
  unfolding check_typed_ids served
  zanzibar_check r = elim (check_typed_ids r) [ some e ↦ inr e | none ↦ served (check r) ]

  -- Why is this call as it stands.
  unfoldable pub can_id : (subject permission object : Bytes) → Decision
  unfolding zanzibar_check
  can_id subject permission object =
      elim (zanzibar_check
        (record { subject = subject; permission = permission; object = object })) [
          | inl out ↦ (out.allowed, none)
          | inr e ↦ (false, some e)
        ]

  unfoldable pub can : (subject_type subject_id permission object_type object_id : Bytes) → Decision
  unfolding can_id typed_id
  can subject_type subject_id permission object_type object_id =
      can_id (typed_id subject_type subject_id) permission (typed_id object_type object_id)

-- What CanAll and CanAny share: a decision about as many results as there are checks.
unfoldable decide_reply :
    (List CheckResponse → Bool) → (checks : ℕ) → List CheckResponse ⊎ Failure → Decision
decide_reply decide checks (inr e) = (false, some e)
decide_reply decide checks (inl rs) =
    if not (length rs == checks)
    then (false, some (short_answer (length rs) checks))
    else (decide rs, none)

module _ (check_bulk : List CheckRequest → List CheckResponse ⊎ Err) where
  unfoldable pub zanzibar_check_bulk : List CheckRequest → List CheckResponse ⊎ Failure
  unfolding first_untyped served
  zanzibar_check_bulk checks = elim (first_untyped 0 checks) [
    | some e ↦ inr e
    | none ↦ served (check_bulk checks)
  ]

  unfoldable pub decide_bulk : (List CheckResponse → Bool) → List CheckRequest → Decision
  unfolding zanzibar_check_bulk decide_reply
  decide_bulk decide [] = (false, none)
  decide_bulk decide (r ∷ checks) =
      decide_reply decide (length (r ∷ checks)) (zanzibar_check_bulk (r ∷ checks))

  unfoldable pub can_all : List CheckRequest → Decision
  unfolding decide_bulk all_allowed
  can_all = decide_bulk all_allowed

  unfoldable pub can_any : List CheckRequest → Decision
  unfolding decide_bulk any_allowed
  can_any = decide_bulk any_allowed

served-answered : {A : Type 0} (r : A ⊎ Err) (a : A) → served r ≡ inl a → r ≡ inl a
unfolding served
served-answered (inl b) a h = cc
served-answered (inr e) a h = cc

-- Every check has typed ids.
abbrev AllTyped : List CheckRequest → Type 0
AllTyped = All λ r. (valid_typed_id r.subject ≡ true) × (valid_typed_id r.object ≡ true)

abbrev AllAllowed : List CheckResponse → Type 0
AllAllowed = All λ r. r.allowed ≡ true

check_typed_ids-none :
    (r : CheckRequest)
    → (check_typed_ids r ≡ none)
      ↔ ((valid_typed_id r.subject ≡ true) × (valid_typed_id r.object ≡ true))
unfolding check_typed_ids
check_typed_ids-none r = (λ h. ground arith, λ h. ground arith)

first_untyped→typed : (i : ℕ) (rs : List CheckRequest) → first_untyped i rs ≡ none → AllTyped rs
unfolding first_untyped
first_untyped→typed i [] h = tt
first_untyped→typed i (r ∷ rs) h = elim (Option-cases (check_typed_ids r)) [
  | inl e ↦
      ((check_typed_ids-none r).0 e, first_untyped→typed (suc i) rs (rw (e, first_untyped) at h))
  | inr (x, e) ↦ cc (rw (e, first_untyped) at h)
]

typed→first_untyped : (i : ℕ) (rs : List CheckRequest) → AllTyped rs → first_untyped i rs ≡ none
unfolding first_untyped
typed→first_untyped i [] h = refl
typed→first_untyped i (r ∷ rs) h =
    rw ((check_typed_ids-none r).1 h.0, first_untyped) (typed→first_untyped (suc i) rs h.1)

every_allowed_iff : (rs : List CheckResponse) → (every_allowed rs ≡ true) ↔ AllAllowed rs
unfolding every_allowed
every_allowed_iff [] = (λ h. tt, λ h. refl)
every_allowed_iff (r ∷ rs) =
    let rest = every_allowed_iff rs in
    (λ h. (ground arith, rest.0 (ground arith)), λ h. rw (h.0) (rest.1 h.1))

decide_reply-yes :
    (n : ℕ) (reply : List CheckResponse ⊎ Failure)
    → (decide_reply all_allowed n reply).0 ≡ true
    → (rs : List CheckResponse) × (reply ≡ inl rs) × (length rs ≡ n) × AllAllowed rs
unfolding decide_reply all_allowed
decide_reply-yes n (inr e) h = absurd (cc)
decide_reply-yes n (inl rs) h =
    let every : every_allowed rs ≡ true = ground arith in
    (rs, refl, ground arith, (every_allowed_iff rs).0 every)

decide_reply-all :
    (n : ℕ) (rs : List CheckResponse)
    → 0 < n
    → length rs ≡ n
    → AllAllowed rs
    → decide_reply all_allowed n (inl rs) ≡ (true, none)
unfolding decide_reply all_allowed
decide_reply-all n rs h k all = ground (arith, (every_allowed_iff rs).1 all)

module _ (check_bulk : List CheckRequest → List CheckResponse ⊎ Err) where
  -- What has to hold for CanAll to say yes.
  abbrev pub Granted : List CheckRequest → Type 0
  Granted checks =
      (rs : List CheckResponse) × (check_bulk checks ≡ inl rs)
      × (0 < length checks)
      × AllTyped checks
      × (length rs ≡ length checks)
      × AllAllowed rs

  check_bulk_answered :
      (checks : List CheckRequest) (rs : List CheckResponse)
      → zanzibar_check_bulk check_bulk checks ≡ inl rs
      → AllTyped checks × (check_bulk checks ≡ inl rs)
  unfolding zanzibar_check_bulk
  check_bulk_answered checks rs h = elim (Option-cases (first_untyped 0 checks)) [
    | inr (x, e) ↦ absurd (cc (rw (e, zanzibar_check_bulk) at h))
    | inl e ↦ (
      first_untyped→typed 0 checks e,
      served-answered (check_bulk checks) rs (rw (e, zanzibar_check_bulk) at h),
    )
  ]

  can_all→granted :
      (checks : List CheckRequest) → (can_all check_bulk checks).0 ≡ true → Granted checks
  unfolding can_all
  can_all→granted [] h = absurd (cc)
  can_all→granted (r ∷ checks) h =
      let (rs, answered, alike, every) =
        decide_reply-yes (length (r ∷ checks)) (zanzibar_check_bulk check_bulk (r ∷ checks)) h in
      let (typed, came) = check_bulk_answered (r ∷ checks) rs answered in
      (rs, came, omega arith, typed, alike, every)

  granted→can_all :
      (checks : List CheckRequest) → Granted checks → can_all check_bulk checks ≡ (true, none)
  unfolding can_all zanzibar_check_bulk
  granted→can_all [] h = absurd (omega (arith, h.2))
  granted→can_all (r ∷ checks) (rs, came, some_check, typed, alike, every) =
      rw (typed→first_untyped 0 (r ∷ checks) typed, zanzibar_check_bulk, came)
        (decide_reply-all (length (r ∷ checks)) rs (omega arith) alike every)

  -- CanAll says yes exactly if there is a check, every check has typed ids, and the service answers
  -- with as many results as there are checks, every one of them allowed.
  pub can_all_iff :
      (checks : List CheckRequest) → ((can_all check_bulk checks).0 ≡ true) ↔ Granted checks
  can_all_iff checks =
      (can_all→granted checks, λ h. ap (λ (d : Decision). d.0) (granted→can_all checks h))
