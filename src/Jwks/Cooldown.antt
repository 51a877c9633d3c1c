-- ===== src/Jwks/Cooldown.antt =====
-- How many requests tokens with unknown key ids can cause.
use auth_sdk_go.Base.{
  ℕ, ◌+◌, ◌*◌, ◌≤◌, ◌<◌, ◌≡◌, refl, ap, Bool, true, false, List, [], ◌∷◌, arith, if◌then◌else◌,
  Bool-cases, inl, inr,
}
use auth_sdk_go.Jwks.{
  Entry, Fetched, fetched_keys, fetch_failed, fetch_locked, refresh_entry, get_entry,
}

-- What a token with an unknown key id does to the entry, or an ordinary use of the key set.
pub data Use : Type 0 where
  unknown_kid : (now later : ℕ) → Fetched → Use
  ordinary : (ttl now later : ℕ) → Bool → Fetched → Use

abbrev time_of : Use → ℕ
time_of (unknown_kid now later answer) = now
time_of (ordinary ttl now later force answer) = now

unfoldable pub use_entry : ℕ → Use → Entry → Entry
use_entry cooldown (unknown_kid now later answer) e = (refresh_entry cooldown now later answer e).0
use_entry cooldown (ordinary ttl now later force answer) e =
    (get_entry ttl now later force answer e).0

-- Does this use force a request?
unfoldable forces : ℕ → Use → Entry → Bool
forces cooldown (unknown_kid now later answer) e = (refresh_entry cooldown now later answer e).2
forces cooldown (ordinary ttl now later force answer) e = false

-- The number of forced requests of a history.
unfoldable pub forced_requests : ℕ → List Use → Entry → ℕ
unfolding use_entry forces
forced_requests cooldown [] e = 0
forced_requests cooldown (u ∷ us) e =
    (if forces cooldown u e then 1 else 0) + forced_requests cooldown us (use_entry cooldown u e)

-- The uses lie in order between two times.
abbrev InOrder : (from to : ℕ) → List Use → Type 0
InOrder from to [] = from ≤ to
InOrder from to (u ∷ us) = (from ≤ time_of u) × InOrder (time_of u) to us

fetch_locked-forced_at :
    (later : ℕ) (answer : Fetched) (e : Entry)
    → (fetch_locked later answer e).0.forced_at ≡ e.forced_at
unfolding fetch_locked
fetch_locked-forced_at later (fetched_keys ks) e = refl
fetch_locked-forced_at later (fetch_failed x) e = ground arith

get_entry-forced_at :
    (ttl now later : ℕ) (force : Bool) (answer : Fetched) (e : Entry)
    → (get_entry ttl now later force answer e).0.forced_at ≡ e.forced_at
unfolding get_entry
get_entry-forced_at ttl now later force answer e =
    ground (arith, fetch_locked-forced_at later answer e)

refresh_entry-forced_at :
    (cooldown now later : ℕ) (answer : Fetched) (e : Entry)
    → (refresh_entry cooldown now later answer e).2 ≡ true
    → (refresh_entry cooldown now later answer e).0.forced_at ≡ now
unfolding refresh_entry
refresh_entry-forced_at cooldown now later answer e h =
    ground (arith, fetch_locked-forced_at later answer (record e { forced_at = now }))

refresh_entry_quiet :
    (cooldown now later : ℕ) (answer : Fetched) (e : Entry)
    → (refresh_entry cooldown now later answer e).2 ≡ false
    → (refresh_entry cooldown now later answer e).0 ≡ e
unfolding refresh_entry
refresh_entry_quiet cooldown now later answer e h = ground arith

-- A forced request comes a cooldown after the last one.
refresh_entry_spaced :
    (cooldown now later : ℕ) (answer : Fetched) (e : Entry)
    → (refresh_entry cooldown now later answer e).2 ≡ true
    → 0 < e.forced_at
    → e.forced_at ≤ now
    → e.forced_at + cooldown ≤ now
unfolding refresh_entry
refresh_entry_spaced cooldown now later answer e h p q = ground arith

use_entry-forced_at_quiet :
    (cooldown : ℕ) (u : Use) (e : Entry)
    → forces cooldown u e ≡ false
    → (use_entry cooldown u e).forced_at ≡ e.forced_at
unfolding forces use_entry
use_entry-forced_at_quiet cooldown (unknown_kid now later answer) e h =
    ap (λ x. x.forced_at) (refresh_entry_quiet cooldown now later answer e h)
use_entry-forced_at_quiet cooldown (ordinary ttl now later force answer) e h =
    get_entry-forced_at ttl now later force answer e

use_entry-forced_at :
    (cooldown : ℕ) (u : Use) (e : Entry)
    → forces cooldown u e ≡ true
    → (use_entry cooldown u e).forced_at ≡ time_of u
unfolding forces use_entry
use_entry-forced_at cooldown (unknown_kid now later answer) e h =
    refresh_entry-forced_at cooldown now later answer e h
use_entry-forced_at cooldown (ordinary ttl now later force answer) e h = cc

use_entry_spaced :
    (cooldown : ℕ) (u : Use) (e : Entry)
    → forces cooldown u e ≡ true
    → 0 < e.forced_at
    → e.forced_at ≤ time_of u
    → e.forced_at + cooldown ≤ time_of u
unfolding forces
use_entry_spaced cooldown (unknown_kid now later answer) e h p q =
    refresh_entry_spaced cooldown now later answer e h p q
use_entry_spaced cooldown (ordinary ttl now later force answer) e h p q = cc

-- After a forced request at `e.forced_at`.
forced_requests_after :
    (cooldown from to : ℕ) (us : List Use) (e : Entry)
    → 0 < e.forced_at
    → e.forced_at ≤ from
    → InOrder from to us
    → forced_requests cooldown us e * cooldown + e.forced_at ≤ to
unfolding forced_requests
forced_requests_after cooldown from to [] e p q h = omega arith
forced_requests_after cooldown from to (u ∷ us) e p q h =
    let e' = use_entry cooldown u e in
    elim (Bool-cases (forces cooldown u e)) [
      | inl b ↦
          let same = use_entry-forced_at cooldown u e b in
          rw b (
            omega (
              arith,
              same,
              use_entry_spaced cooldown u e b p (omega arith),
              forced_requests_after cooldown (time_of u) to us e' (omega (arith, same))
                  (omega (arith, same)) h.1,
            ))
      | inr b ↦
          let same = use_entry-forced_at_quiet cooldown u e b in
          rw b (
            omega (
              arith,
              same,
              forced_requests_after cooldown (time_of u) to us e' (omega (arith, same))
                  (omega (arith, same)) h.1,
            ))
    ]

-- Tokens that name unknown key ids, however many, and ordinary uses of the key set between them,
-- force at most one request for each cooldown of the time they span, and one more: in a history
-- between two times, n forced requests need n - 1 cooldowns. Failing requests count as well.
pub forced_requests-le :
    (cooldown from to : ℕ) (us : List Use) (e : Entry)
    → 0 < from
    → e.forced_at ≤ from
    → InOrder from to us
    → forced_requests cooldown us e * cooldown + from ≤ to + cooldown
unfolding forced_requests
forced_requests-le cooldown from to [] e p q h = omega arith
forced_requests-le cooldown from to (u ∷ us) e p q h =
    let e' = use_entry cooldown u e in
    elim (Bool-cases (forces cooldown u e)) [
      | inl b ↦
          let same = use_entry-forced_at cooldown u e b in
          rw b (
            omega (
              arith,
              forced_requests_after cooldown (time_of u) to us e' (omega (arith, same))
                  (omega (arith, same)) h.1,
            ))
      | inr b ↦
          let same = use_entry-forced_at_quiet cooldown u e b in
          rw b (
            omega (
              arith,
              forced_requests-le cooldown (time_of u) to us e' (omega arith) (omega (arith, same))
                  h.1,
            ))
    ]
