-- ===== src/TokenCache/Calls.antt =====
-- tokenfor.go: cachedToken run by many goroutines at once, in any order. `fetch k n` is the answer to
-- the n-th request for the key k. The expiry that caps an entry is that of the person's token, which
-- the key is made from, so it is a function of the key here.
use auth_sdk_go.Base.{ℕ, Bool, List, [], ◌∷◌, none, some, if◌then◌else◌}
use auth_sdk_go.Base.Text.{Bytes}
use auth_sdk_go.Errors.{wrapped, unavailable, cancelled}
use auth_sdk_go.TokenCache.{
  TokenCache, FetchedToken, got, failed, Flight, Entered, hit, wait, lead, put, enter, finish,
  empty_cache,
}

-- Where a goroutine stands in its call for a key.
pub data Thread : Type 0 where
  idle : Thread
  -- at the head of the loop
  calling : Bytes → Thread
  -- out to fetch, for the flight at this address
  leading : Bytes → ℕ → Thread
  -- blocked on the flight at this address
  waiting : Bytes → ℕ → Thread
  returned : Bytes → FetchedToken → Thread

pub record System : Type 0 where
  pub cache : TokenCache
  pub threads : ℕ → Thread

-- One goroutine's move, by its number.
pub data Event : Type 0 where
  -- it calls cachedToken for a key
  start : ℕ → Bytes → Event
  -- it runs the first locked part, at a time
  go_in : (t now : ℕ) → Event
  -- its fetch returns with the n-th answer, and it runs the second locked part
  come_back : (t n now : ℕ) → (ended : Bool) → Event
  -- it sees that its flight is done
  wake : ℕ → Event
  -- it sees that its own context is done
  give_up : ℕ → Event

unfoldable pub set_thread : ℕ → Thread → System → System
set_thread t th s = record s { threads = put s.threads t th }

abbrev pub next_thread : Bytes → Entered → Thread
next_thread k (hit tok) = returned k (got tok)
next_thread k (wait f) = waiting k f
next_thread k (lead f) = leading k f

abbrev pub after_done : Bytes → ℕ → Flight → Thread
after_done k f fl = elim fl.outcome [
  | none ↦ waiting k f
  | some o ↦ if fl.leader_cancelled then calling k else returned k o
]

unfoldable pub start_call : ℕ → Bytes → Thread → System → System
unfolding set_thread
start_call t k idle s = set_thread t (calling k) s
start_call t k (returned j o) s = set_thread t (calling k) s
start_call t k th s = s

unfoldable pub enter_call : ℕ → ℕ → Thread → System → System
unfolding enter set_thread
enter_call t now (calling k) s =
    let (c, e) = enter now k s.cache in
    record { cache = c; threads = put s.threads t (next_thread k e) }
enter_call t now th s = s

unfoldable pub wake_call : ℕ → Thread → System → System
unfolding set_thread
wake_call t (waiting k f) s = set_thread t (after_done k f (s.cache.flights f)) s
wake_call t th s = s

unfoldable pub give_up_call : ℕ → Thread → System → System
unfolding set_thread
give_up_call t (waiting k f) s =
    set_thread t (returned k (failed (wrapped unavailable cancelled))) s
give_up_call t th s = s

abbrev pub new_system : ℕ → System
new_system max = record { cache = empty_cache max; threads = λ _. idle }

module _ (fetch : Bytes → ℕ → FetchedToken) (cap_at : Bytes → ℕ) where
  unfoldable pub finish_call : (t n now : ℕ) → Bool → Thread → System → System
  unfolding finish
  finish_call t n now ended (leading k f) s = record {
    cache = finish now k (cap_at k) f (fetch k n) ended s.cache;
    threads = put s.threads t (returned k (fetch k n));
  }
  finish_call t n now ended th s = s

  -- A move that the goroutine is in no position to make changes nothing.
  unfoldable pub step : Event → System → System
  unfolding start_call enter_call finish_call wake_call give_up_call
  step (start t k) s = start_call t k (s.threads t) s
  step (go_in t now) s = enter_call t now (s.threads t) s
  step (come_back t n now ended) s = finish_call t n now ended (s.threads t) s
  step (wake t) s = wake_call t (s.threads t) s
  step (give_up t) s = give_up_call t (s.threads t) s

  unfoldable pub run : List Event → System → System
  unfolding step
  run [] s = s
  run (e ∷ es) s = run es (step e s)
