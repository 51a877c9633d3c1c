-- ===== src/Jwks/Stale.antt =====
-- Availability of the key set, and when a request is made for it.
use auth_sdk_go.Base.{
  ℕ, ◌<◌, ◌≡◌, refl, Bool-cases, not, ◌&&◌, Bool, none, List, [], ◌∷◌, arith, All, inl, inr,
}
use auth_sdk_go.Jwks.{
  Jwks, Entry, Fetched, fetched_keys, fetch_failed, fetch_locked, get_entry, refresh_entry,
  is_fresh,
}
use auth_sdk_go.Jwks.Cooldown.{Use, unknown_kid, ordinary, use_entry}

-- The entry holds a key set that was fetched.
abbrev HoldsKeys : Entry → Type 0
HoldsKeys e = (0 < e.fetched) × (e.err ≡ none)

-- A use after which the clock is not at the zero time.
abbrev HasClock : Use → Type 0
HasClock (unknown_kid now later answer) = 0 < later
HasClock (ordinary ttl now later force answer) = 0 < later

fetch_locked-HoldsKeys :
    (later : ℕ) (answer : Fetched) (e : Entry)
    → 0 < later
    → HoldsKeys e
    → HoldsKeys (fetch_locked later answer e).0
unfolding fetch_locked
fetch_locked-HoldsKeys later (fetched_keys ks) e p h = (p, refl)
fetch_locked-HoldsKeys later (fetch_failed x) e p h = ground arith

use_entry-HoldsKeys :
    (cooldown : ℕ) (u : Use) (e : Entry)
    → HasClock u
    → HoldsKeys e
    → HoldsKeys (use_entry cooldown u e)
unfolding use_entry refresh_entry get_entry
use_entry-HoldsKeys cooldown (unknown_kid now later answer) e p h = ground (
  arith,
  fetch_locked-HoldsKeys later answer (record e { forced_at = now }) p h,
  fetch_locked-HoldsKeys later answer e p h,
)
use_entry-HoldsKeys cooldown (ordinary ttl now later force answer) e p h =
    ground (arith, fetch_locked-HoldsKeys later answer e p h)

unfoldable pub use_all : ℕ → List Use → Entry → Entry
use_all cooldown [] e = e
use_all cooldown (u ∷ us) e = use_all cooldown us (use_entry cooldown u e)

use_all-HoldsKeys :
    (cooldown : ℕ) (us : List Use) (e : Entry)
    → All HasClock us
    → HoldsKeys e
    → HoldsKeys (use_all cooldown us e)
unfolding use_all
use_all-HoldsKeys cooldown [] e p h = h
use_all-HoldsKeys cooldown (u ∷ us) e p h =
    use_all-HoldsKeys cooldown us (use_entry cooldown u e) p.1
      (use_entry-HoldsKeys cooldown u e p.0 h)

-- The result is a key set.
abbrev pub IsKeys : Fetched → Type 0
IsKeys r = (ks : Jwks) × (r ≡ fetched_keys ks)

get_entry-IsKeys :
    (ttl now later : ℕ) (force : Bool) (answer : Fetched) (e : Entry)
    → HoldsKeys e
    → IsKeys (get_entry ttl now later force answer e).1
unfolding get_entry fetch_locked
get_entry-IsKeys ttl now later force (fetched_keys ks) e h =
    elim (Bool-cases (not force && is_fresh ttl now e)) [
      | inl b ↦ (e.keys, ground arith)
      | inr b ↦ (ks, ground arith)
    ]
get_entry-IsKeys ttl now later force (fetch_failed x) e h = (e.keys, ground arith)

-- Once a key set has been fetched into an entry, reading the entry never fails again, whatever the
-- service answers then and in the uses before: a failing refresh serves the set that is there.
pub get_entry-use_all :
    (cooldown ttl now later : ℕ) (force : Bool) (answer : Fetched) (us : List Use) (e : Entry)
    → All HasClock us
    → HoldsKeys e
    → IsKeys (get_entry ttl now later force answer (use_all cooldown us e)).1
get_entry-use_all cooldown ttl now later force answer us e p h =
    get_entry-IsKeys ttl now later force answer (use_all cooldown us e)
      (use_all-HoldsKeys cooldown us e p h)
