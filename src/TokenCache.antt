-- ===== src/TokenCache.antt =====
-- tokenfor.go: the cache of tokens. Its list holds element objects, which the map points to, so the
-- elements live in a heap at addresses; so do the flights, which waiters hold by pointer. `none` is
-- the outcome of a flight whose `done` channel is open. A method is split where it gives up the
-- mutex: `enter` up to the fetch or the wait, `finish` after the fetch.
pub mod Calls
pub mod Links
pub mod Untouched
pub mod Sound
pub mod Moves
pub mod Finish
pub mod Flights
pub mod Bound
pub mod Tests
use auth_sdk_go.Base.{
  ℕ, zero, suc, ◌-◌, ◌*◌, Bool, true, false, not, ◌&&◌, List, [], ◌∷◌, Option, none, some, ltb,
  ◌==◌, if◌then◌else◌, length, keep, ℤ, pos, negsuc,
}
use auth_sdk_go.Base.Text.{Bytes}
use auth_sdk_go.Base.Assoc.{lookup, insert, delete}
use auth_sdk_go.Base.Time.{before, second}
use auth_sdk_go.Errors.{Err}

pub record Token : Type 0 where
  pub access_token : Bytes
  pub token_type : Bytes
  pub resource : Bytes
  pub scope : Bytes
  pub expires_at : ℕ

-- What a fetch answers: `(*Token, error)`.
pub data FetchedToken : Type 0 where
  got : Token → FetchedToken
  failed : Err → FetchedToken

-- `tokenCacheEntry`
pub record Element : Type 0 where
  pub key : Bytes
  pub tok : Token
  pub fresh_until : ℕ

-- `tokenFlight`
pub record Flight : Type 0 where
  pub outcome : Option FetchedToken
  pub leader_cancelled : Bool

pub record TokenCache : Type 0 where
  pub max : ℕ
  -- from the front, the most recently used
  pub ll : List ℕ
  pub items : List (Bytes × ℕ)
  pub elements : ℕ → Element
  pub next : ℕ
  pub inflight : List (Bytes × ℕ)
  pub flights : ℕ → Flight
  pub next_flight : ℕ
  pub hits : ℕ
  pub misses : ℕ

abbrev default_token_cache_size : ℕ
default_token_cache_size = 1024

abbrev pub token_refresh_margin : ℕ
token_refresh_margin = 30 * second

abbrev no_token : Token
no_token = record { access_token = []; token_type = []; resource = []; scope = []; expires_at = 0 }

abbrev pub new_flight : Flight
new_flight = record { outcome = none; leader_cancelled = false }

abbrev pub empty_cache : ℕ → TokenCache
empty_cache max = record {
  max = max;
  ll = [];
  items = [];
  elements = λ _. record { key = []; tok = no_token; fresh_until = 0 };
  next = 0;
  inflight = [];
  flights = λ _. new_flight;
  next_flight = 0;
  hits = 0;
  misses = 0;
}

-- `tokens`, for a client that has no cache yet.
unfoldable pub tokens : ℤ → Option TokenCache
tokens (negsuc n) = none
tokens (pos n) = some (empty_cache (if n == 0 then default_token_cache_size else n))

-- An object of the heap, overwritten.
abbrev pub put {ℓ} : {A : Type ℓ} → (ℕ → A) → ℕ → A → ℕ → A
put h p a q = if q == p then a else h q

-- `ll.Remove(el)`: an element stands in the list once at most.
unfoldable pub remove : ℕ → List ℕ → List ℕ
remove p = keep (λ q. not (q == p))

-- What a caller of cachedToken does next.
pub data Entered : Type 0 where
  hit : Token → Entered
  wait : ℕ → Entered
  lead : ℕ → Entered

-- Wait for the flight of `key`, or make one.
unfoldable pub join : Bytes → TokenCache → TokenCache × Entered
unfolding lookup insert
join key c = elim (lookup key c.inflight) [
  | some f ↦ (c, wait f)
  | none ↦ (
    record c {
      inflight = insert key c.next_flight c.inflight;
      flights = put c.flights c.next_flight new_flight;
      next_flight = suc c.next_flight;
      misses = suc c.misses;
    },
    lead c.next_flight,
  )
]

unfoldable pub forget : ℕ → Bytes → TokenCache → TokenCache
unfolding remove delete
forget p key c = record c { ll = remove p c.ll; items = delete key c.items }

unfoldable pub use_again : ℕ → TokenCache → TokenCache
unfolding remove
use_again p c = record c { ll = p ∷ remove p c.ll; hits = suc c.hits }

-- The part of cachedToken under the first lock.
unfoldable pub enter : ℕ → Bytes → TokenCache → TokenCache × Entered
unfolding lookup join forget use_again
enter now key c = elim (lookup key c.items) [
  | none ↦ join key c
  | some p ↦
      if before now (c.elements p).fresh_until
      then (use_again p c, hit (c.elements p).tok)
      else join key (forget p key c)
]

-- `ll.Back()`
abbrev pub back : ℕ → List ℕ → ℕ
back p [] = p
back p (q ∷ qs) = back q qs

unfoldable pub drop_back : List ℕ → TokenCache → TokenCache
unfolding forget
drop_back [] c = c
drop_back (p ∷ ps) c = forget (back p ps) (c.elements (back p ps)).key c

-- `for tc.ll.Len() > tc.max`, on fuel.
unfoldable pub trim : ℕ → TokenCache → TokenCache
unfolding drop_back
trim zero c = c
trim (suc fuel) c =
    let rest = trim fuel (drop_back c.ll c) in if ltb c.max (length c.ll) then rest else c

unfoldable pub push_front : Bytes → Token → ℕ → TokenCache → TokenCache
unfolding insert
push_front key tok fresh c = record c {
  ll = c.next ∷ c.ll;
  items = insert key c.next c.items;
  elements = put c.elements c.next (record { key = key; tok = tok; fresh_until = fresh });
  next = suc c.next;
}

-- How long a token may be served; `upto` is `capAt`, where 0 is the zero time.
unfoldable pub fresh_until : ℕ → Token → ℕ
fresh_until upto tok =
    let fresh = tok.expires_at - token_refresh_margin in
    if not (upto == 0) && before upto fresh then upto else fresh

unfoldable pub store : (now : ℕ) → Bytes → (upto : ℕ) → FetchedToken → TokenCache → TokenCache
unfolding trim push_front fresh_until
store now key upto (failed e) c = c
store now key upto (got tok) c =
    if not (tok.expires_at == 0) && before now (fresh_until upto tok)
    then trim (suc (length c.ll)) (push_front key tok (fresh_until upto tok) c)
    else c

-- `f.leaderCancelled = err != nil && ctx.Err() != nil`
abbrev pub is_cancelled : FetchedToken → Bool → Bool
is_cancelled (got tok) ended = false
is_cancelled (failed e) ended = ended

-- The part of cachedToken under the second lock. `ended` is `ctx.Err() != nil`.
unfoldable pub finish :
    (now : ℕ) → Bytes → (upto f : ℕ) → FetchedToken → (ended : Bool) → TokenCache → TokenCache
unfolding store delete
finish now key upto f fetched ended c =
    let d = store now key upto fetched (record c { inflight = delete key c.inflight }) in
    record d {
      flights =
          put d.flights f
            (record { outcome = some fetched; leader_cancelled = is_cancelled fetched ended });
    }

pub record TokenCacheStats : Type 0 where
  pub enabled : Bool
  pub hits : ℕ
  pub misses : ℕ
  pub entries : ℕ

unfoldable token_cache_stats : Option TokenCache → TokenCacheStats
token_cache_stats none = record { enabled = false; hits = 0; misses = 0; entries = 0 }
token_cache_stats (some c) = record {
  enabled = true;
  hits = c.hits;
  misses = c.misses;
  entries = length c.ll;
}
