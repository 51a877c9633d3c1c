-- ===== src/TokenCache/Tests.antt =====
-- Schedules of the token cache, and the theorems applied to them.
use auth_sdk_go.Base.{
  ℕ, zero, suc, ◌*◌, ◌≤◌, ◌≡◌, ◌↔◌, refl, true, false, List, [], ◌∷◌, none, some, pos, negsuc,
  length,
}
use auth_sdk_go.Base.Text.{Bytes, bytes, same}
use auth_sdk_go.Base.Time.{second}
use auth_sdk_go.Base.Assoc.{lookup}
use auth_sdk_go.Errors.{cancelled}
use auth_sdk_go.TokenCache.{Token, FetchedToken, got, failed, hit, enter, tokens, empty_cache}
use auth_sdk_go.TokenCache.Calls.{
  leading, returned, Event, start, go_in, come_back, wake, run, new_system,
}
use auth_sdk_go.TokenCache.Links.{listed}
use auth_sdk_go.TokenCache.Flights.{single_flight}
use auth_sdk_go.TokenCache.Bound.{cache_agrees}

abbrev orders : Bytes
orders = bytes "orders"

abbrev bills : Bytes
bills = bytes "bills"

abbrev token_for_key : Bytes → ℕ → Token
token_for_key k n = record {
  access_token = n ∷ k;
  token_type = bytes "Bearer";
  resource = k;
  scope = [];
  expires_at = 1000 * second;
}

-- The first request for a key fails, and every later one is answered by a token.
abbrev service : Bytes → ℕ → FetchedToken
service k zero = failed cancelled
service k (suc n) = got (token_for_key k n)

abbrev no_cap : Bytes → ℕ
no_cap k = 0

-- Two goroutines ask for the same key, and the second waits for the first.
abbrev two_callers : List Event
two_callers =
    start 0 orders
    ∷ start 1 orders
    ∷ go_in 0 (5 * second)
    ∷ go_in 1 (5 * second)
    ∷ come_back 0 1 (6 * second) false
    ∷ wake 1
    ∷ []

one_request : (run service no_cap two_callers (new_system 2)).cache.misses ≡ 1
unfolding run same
one_request = refl

same_answer :
    (run service no_cap two_callers (new_system 2)).threads 1
    ≡ returned orders (got (token_for_key orders 0))
unfolding run same
same_answer = refl

-- The leader's context ends: the waiter asks again and leads.
abbrev cancelled_leader : List Event
cancelled_leader =
    start 0 orders
    ∷ start 1 orders
    ∷ go_in 0 (5 * second)
    ∷ go_in 1 (5 * second)
    ∷ come_back 0 0 (6 * second) true
    ∷ wake 1
    ∷ go_in 1 (7 * second)
    ∷ []

waiter_leads : (run service no_cap cancelled_leader (new_system 2)).threads 1 ≡ leading orders 1
unfolding run same
waiter_leads = refl

-- A cache of one: the second key displaces the first.
abbrev two_keys : List Event
two_keys =
    start 0 orders
    ∷ go_in 0 (5 * second)
    ∷ come_back 0 1 (6 * second) false
    ∷ start 0 bills
    ∷ go_in 0 (7 * second)
    ∷ come_back 0 1 (8 * second) false
    ∷ []

displaced : lookup orders (run service no_cap two_keys (new_system 1)).cache.items ≡ none
unfolding run lookup same
displaced = refl

default_size : tokens (pos 0) ≡ some (empty_cache 1024)
unfolding tokens
default_size = refl

no_cache : tokens (negsuc 0) ≡ none
unfolding tokens
no_cache = refl

single_flight_example : ◌≡◌ {A = ℕ} 1 1
single_flight_example =
    single_flight service no_cap 2 cancelled_leader 1 1 1 1 orders waiter_leads waiter_leads

served :
    (enter (900 * second) orders (run service no_cap two_callers (new_system 2)).cache).1
    ≡ hit (token_for_key orders 0)
unfolding enter run same
served = refl

cache_agrees_example :
    let c = (run service no_cap two_keys (new_system 1)).cache in
    (length c.ll ≤ 1)
    × ((k : Bytes) (p : ℕ)
        → (lookup k c.items ≡ some p) ↔ ((listed p c.ll ≡ true) × ((c.elements p).key ≡ k)))
    × ((k : Bytes) (f : ℕ) → lookup k c.inflight ≡ some f → lookup k c.items ≡ none)
cache_agrees_example = cache_agrees service no_cap 1 two_keys
