-- ===== src/Jwks.antt =====
-- jwks.go: key sets and their cache. A call is one step, the entries of calls in flight in other
-- goroutines have `once` set. The order of the map is that of Go's range. `now - t` stops at 0 where
-- the clock ran backwards, and both times compared with it are above 0.
pub mod Cooldown
pub mod Bound
pub mod Stale
pub mod Tests
use auth_sdk_go.Base.{
  ℕ, ◌-◌, ◌*◌, ◌≡◌, refl, Bool, true, false, not, ◌&&◌, List, [], ◌∷◌, Option, none, some, ltb, leb,
  ◌==◌, if◌then◌else◌, length, is_some,
}
use auth_sdk_go.Base.Text.{Bytes, same}
use auth_sdk_go.Base.Assoc.{lookup, insert, delete}
use auth_sdk_go.Base.Time.{second}
use auth_sdk_go.Errors.{Err}

pub record Jwk : Type 0 where
  pub kty : Bytes
  pub use_ : Bytes
  pub kid : Bytes
  pub alg : Bytes
  pub n : Bytes
  pub e : Bytes

abbrev pub Jwks : Type 0
Jwks = List Jwk

-- `JWKS.Key`
unfoldable pub key : Bytes → Jwks → Option Jwk
key kid [] = none
key kid (k ∷ ks) = if same k.kid kid then some k else key kid ks

abbrev jwks_cache_ttl : ℕ
jwks_cache_ttl = 600 * second

abbrev pub jwks_max_entries : ℕ
jwks_max_entries = 512

abbrev pub jwks_unknown_kid_cooldown : ℕ
jwks_unknown_kid_cooldown = 60 * second

pub record Entry : Type 0 where
  pub once : Bool
  pub keys : Jwks
  pub fetched : ℕ
  pub err : Option Err
  pub forced_at : ℕ

abbrev pub new_entry : Entry
new_entry = record { once = false; keys = []; fetched = 0; err = none; forced_at = 0 }

pub record Cache : Type 0 where
  pub ttl : ℕ
  pub kid_cooldown : ℕ
  pub max_entries : ℕ
  pub entries : List (Bytes × Entry)

abbrev pub new_jwks_cache : Cache
new_jwks_cache = record {
  ttl = jwks_cache_ttl;
  kid_cooldown = jwks_unknown_kid_cooldown;
  max_entries = jwks_max_entries;
  entries = [];
}

-- `(JWKS, error)`
pub data Fetched : Type 0 where
  fetched_keys : Jwks → Fetched
  fetch_failed : Err → Fetched

abbrev pub or_default : ℕ → ℕ → ℕ
or_default n d = if n == 0 then d else n

-- The victim so far: its path and when it was fetched.
abbrev pub better : Option (Bytes × ℕ) → Bytes → ℕ → Option (Bytes × ℕ)
better none k t = some (k, t)
better (some (j, u)) k t = if ltb t u then some (k, t) else some (j, u)

-- The loop over the entries: those in flight are passed over.
unfoldable pub pick : Option (Bytes × ℕ) → List (Bytes × Entry) → Option (Bytes × ℕ)
pick best [] = best
pick best ((k, e) ∷ m) = pick (if e.once then best else better best k e.fetched) m

abbrev pub delete_victim : Option (Bytes × ℕ) → List (Bytes × Entry) → List (Bytes × Entry)
delete_victim none m = m
delete_victim (some (k, t)) m = delete k m

unfoldable pub evict_if_full : Cache → List (Bytes × Entry)
unfolding pick
evict_if_full c =
    if ltb (length c.entries) (or_default c.max_entries jwks_max_entries)
    then c.entries
    else delete_victim (pick none c.entries) c.entries

-- The entry for `path`, and the map with it.
unfoldable pub entry : Bytes → Cache → Entry × Cache
unfolding evict_if_full
entry path c = elim (lookup path c.entries) [
  | some e ↦ (e, c)
  | none ↦ (new_entry, record c { entries = insert path new_entry (evict_if_full c) })
]

-- `fetchLocked`: `answer` is what the service says, `later` the clock when it has.
unfoldable pub fetch_locked : (later : ℕ) → Fetched → Entry → Entry × Fetched
fetch_locked later (fetch_failed err) e =
    if not (e.fetched == 0) && not (is_some e.err)
    then (e, fetched_keys e.keys)
    else (record e { err = some err }, fetch_failed err)
fetch_locked later (fetched_keys fresh) e =
    (record e { keys = fresh; fetched = later; err = none }, fetched_keys fresh)

-- Is the cached set good for a call that does not force a fetch?
abbrev pub is_fresh : (ttl now : ℕ) → Entry → Bool
is_fresh ttl now e = not (is_some e.err) && (not (e.fetched == 0) && ltb (now - e.fetched) ttl)

-- The part of `get` under the entry's mutex; the last component says whether a request was made.
unfoldable pub get_entry :
    (ttl now later : ℕ) → (force : Bool) → Fetched → Entry → Entry × Fetched × Bool
unfolding fetch_locked
get_entry ttl now later force answer e =
    if not force && is_fresh ttl now e
    then (e, fetched_keys e.keys, false)
    else (let (e', r) = fetch_locked later answer e in (e', r, true))

unfoldable pub get :
    Bytes → (now later : ℕ) → (force : Bool) → Fetched → Cache → Cache × Fetched × Bool
unfolding entry get_entry
get path now later force answer c =
    let (e, c') = entry path c in
    let (e', r, asked) = get_entry c.ttl now later force answer e in
    (record c' { entries = insert path e' c'.entries }, r, asked)

-- The part of `refreshForUnknownKid` under the entry's mutex; the last component is `refreshed`.
unfoldable pub refresh_entry : (cooldown now later : ℕ) → Fetched → Entry → Entry × Fetched × Bool
unfolding fetch_locked
refresh_entry cooldown now later answer e =
    if not (e.forced_at == 0) && ltb (now - e.forced_at) cooldown
    then (e, fetched_keys e.keys, false)
    else (let (e', r) = fetch_locked later answer (record e { forced_at = now }) in (e', r, true))

unfoldable pub refresh_for_unknown_kid :
    Bytes → (now later : ℕ) → Fetched → Cache → Cache × Fetched × Bool
unfolding entry refresh_entry
refresh_for_unknown_kid path now later answer c =
    let (e, c') = entry path c in
    let (e', r, refreshed) =
      refresh_entry (or_default c.kid_cooldown jwks_unknown_kid_cooldown) now later answer e in
    (record c' { entries = insert path e' c'.entries }, r, refreshed)
