-- ===== src/ValidationCache/Answers.antt =====
-- When the cache answers by itself, what it stores, and that it fails closed.
use auth_sdk_go.Base.{
  ℕ, ◌+◌, ◌≤◌, ◌<◌, ◌≡◌, refl, Bool, true, false, Option, none, some, arith, ◌⊎◌,
}
use auth_sdk_go.Base.Text.{Bytes}
use auth_sdk_go.Actor.{Actor}
use auth_sdk_go.Errors.{Err}
use auth_sdk_go.ValidationCache.{
  TtlPolicy, Entry, Outcome, answer, failure, copy_actor, serve, cap_at, when_set, expiry_of,
  after_fetch,
}
use auth_sdk_go.ValidationCache.ActorExpiry.{parse_actor_expiry}

copy_actor_lem : (a : Actor) → copy_actor a ≡ a
unfolding copy_actor
copy_actor_lem a = refl

-- Is the answer a positive one?
abbrev pub is_positive : Outcome → Bool
is_positive (answer (some a)) = a.valid
is_positive _ = false

-- Does the entry hold a positive answer?
abbrev holds_positive : Entry → Bool
holds_positive e = elim e.actor [ some a ↦ a.valid | none ↦ false ]

-- An entry that has expired, or a call that asks for a fresh answer, is never served.
pub serve-none :
    (now : ℕ) (fresh : Bool) (e : Entry)
    → (fresh ≡ true) ⊎ (e.expires ≤ now)
    → serve now fresh e ≡ none
unfolding serve
serve-none now fresh e h = ground arith

-- What is served stands in the entry, and the entry has not expired.
pub serve-some :
    (now : ℕ) (fresh : Bool) (e : Entry) (o : Outcome)
    → serve now fresh e ≡ some o
    → (fresh ≡ false) × (now < e.expires) × (is_positive o ≡ holds_positive e)
unfolding serve copy_actor
serve-some now fresh e o h = ground arith

-- The time `x` is not past the limit, if there is one.
abbrev pub NotPast : Option ℕ → ℕ → Type 0
NotPast none x = Unit {0}
NotPast (some t) x = x ≤ t

cap_at-NotPast : (o : Option ℕ) (t : ℕ) → NotPast o (cap_at o t) × (cap_at o t ≤ t)
cap_at-NotPast none t = (tt, omega arith)
cap_at-NotPast (some u) t = ground arith

NotPast-le : (o : Option ℕ) (s t : ℕ) → s ≤ t → NotPast o t → NotPast o s
NotPast-le none s t h k = tt
NotPast-le (some u) s t h k = omega arith

-- The entry holds no positive answer past `limit`.
abbrev pub ExpiresBy : ℕ → Entry → Type 0
ExpiresBy limit e = (holds_positive e ≡ false) ⊎ (e.expires ≤ limit)

module _ (parse_time : Bytes → Bytes → Option ℕ) where
  -- A positive answer's entry expires within the TTL, by the expiry that the service reported, and
  -- by the expiry that the caller read from the token.
  pub expiry_of_bounds :
      (policy : TtlPolicy) (not_after now : ℕ) (a : Actor)
      → a.valid ≡ true
      → (expiry_of parse_time policy not_after now a ≤ now + policy.pos)
        × NotPast
            (parse_actor_expiry parse_time a.expires_at)
            (expiry_of parse_time policy not_after now a)
        × NotPast (when_set not_after) (expiry_of parse_time policy not_after now a)
  unfolding expiry_of
  expiry_of_bounds policy not_after now a v =
      let reported = parse_actor_expiry parse_time a.expires_at in
      let inner = cap_at reported (now + policy.pos) in
      let first = cap_at-NotPast reported (now + policy.pos) in
      let outer = cap_at-NotPast (when_set not_after) inner in
      rw v (
        omega (arith, first.1, outer.1),
        NotPast-le reported (cap_at (when_set not_after) inner) inner outer.1 first.0,
        outer.0,
      )

  -- A positive answer in the entry is not held past the expiry that it reports itself.
  abbrev pub RespectsExpiry : Entry → Type 0
  RespectsExpiry e = elim e.actor [
    | none ↦ Unit {0}
    | some a ↦ (a.valid ≡ false) ⊎ NotPast (parse_actor_expiry parse_time a.expires_at) e.expires
  ]

  module _ (policy : TtlPolicy) (negative_err : Err → Bool) (not_after now : ℕ) where
    pub after_fetch-ExpiresBy :
        (o : Outcome) (e : Entry) (limit : ℕ)
        → ExpiresBy limit e
        → (is_positive o ≡ false) ⊎ (now + policy.pos ≤ limit)
        → ExpiresBy limit (after_fetch parse_time policy negative_err not_after now o e)
    unfolding after_fetch copy_actor
    after_fetch-ExpiresBy (failure x) e limit h k = ground arith
    after_fetch-ExpiresBy (answer none) e limit h k = h
    after_fetch-ExpiresBy (answer (some a)) e limit h k =
        ground (arith, expiry_of_bounds policy not_after now a)

    pub after_fetch-RespectsExpiry :
        (o : Outcome) (e : Entry)
        → RespectsExpiry e
        → RespectsExpiry (after_fetch parse_time policy negative_err not_after now o e)
    unfolding after_fetch copy_actor
    after_fetch-RespectsExpiry (failure x) e h = ground arith
    after_fetch-RespectsExpiry (answer none) e h = h
    after_fetch-RespectsExpiry (answer (some a)) e h =
        ground (arith, expiry_of_bounds policy not_after now a)

    -- An error that is no definite answer leaves the entry as it was.
    pub after_fetch_failure :
        (x : Err) (e : Entry)
        → negative_err x ≡ false
        → after_fetch parse_time policy negative_err not_after now (failure x) e ≡ e
    unfolding after_fetch
    after_fetch_failure x e h = rw h
