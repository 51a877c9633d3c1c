-- ===== src/TokenCache/Bound.antt =====
-- The token cache's bound and what it counts, over any schedule.
use auth_sdk_go.Base.{
  ℕ, zero, suc, ◌≤◌, ◌<◌, ◌≡◌, ◌↔◌, refl, Bool, true, not, ◌&&◌, List, [], ◌∷◌, none, some, arith,
  ◌==◌, length, length-keep-le, ltb, inl, inr, Bool-cases, Option-cases, ltb→lt, ltb-false→le,
  subst,
}
use auth_sdk_go.Base.Text.{Bytes}
use auth_sdk_go.Base.Time.{before}
use auth_sdk_go.Base.Assoc.{lookup, delete}
use auth_sdk_go.TokenCache.{
  TokenCache, Element, FetchedToken, got, failed, remove, back, forget, use_again, join, enter,
  drop_back, trim, push_front, fresh_until, store, finish,
}
use auth_sdk_go.TokenCache.Calls.{
  Thread, idle, calling, leading, waiting, returned, System, Event, start, go_in, come_back, wake,
  give_up, set_thread, start_call, enter_call, wake_call, give_up_call, finish_call, step, run,
  new_system,
}
use auth_sdk_go.TokenCache.Links.{IsLinked, listed, listed-back}
use auth_sdk_go.TokenCache.Untouched.{drop_back-SameFlights, trim-SameFlights}
use auth_sdk_go.TokenCache.Sound.{IsSound, new_system-IsSound}
use auth_sdk_go.TokenCache.Flights.{step-IsSound, reached}

length-remove-lt : (p : ℕ) (l : List ℕ) → listed p l ≡ true → length (remove p l) < length l
unfolding listed remove
length-remove-lt p [] h = cc
length-remove-lt p (q ∷ l) h =
    ground (arith, length-remove-lt p l, length-keep-le (λ r. not (r == p)) l)

drop_back-lt :
    (l : List ℕ) (c : TokenCache) → l ≡ c.ll → 0 < length l → length (drop_back l c).ll < length l
unfolding drop_back forget
drop_back-lt [] c e h = absurd (omega arith)
drop_back-lt (p ∷ l) c e h = rw (← e) (length-remove-lt (back p l) (p ∷ l) (listed-back p l))

-- Enough fuel brings the list down to the bound.
trim-bounded : (fuel : ℕ) (c : TokenCache) → length c.ll ≤ fuel → length (trim fuel c).ll ≤ c.max
unfolding trim
trim-bounded zero c h = omega arith
trim-bounded (suc fuel) c h = elim (Bool-cases (ltb c.max (length c.ll))) [
  | inl b ↦ rw b (
      let kept = (drop_back-SameFlights c.ll c).3 in
      let fewer = drop_back-lt c.ll c refl in
      let full = ltb→lt c.max (length c.ll) b in
      omega (arith, kept, fewer (omega arith), trim-bounded fuel (drop_back c.ll c)))
  | inr b ↦ rw b (ltb-false→le _ _ b)
]

-- The bound that the cache was made with, and that it is kept.
abbrev Within : ℕ → TokenCache → Type 0
Within max c = (c.max ≡ max) × (length c.ll ≤ max)

join-Within : (max : ℕ) (k : Bytes) (c : TokenCache) → Within max c → Within max (join k c).0
unfolding join
join-Within max k c h = elim (Option-cases (lookup k c.inflight)) [
  | inl a ↦ rw (a, join) h
  | inr (f, a) ↦ rw (a, join) h
]

enter-Within :
    {P : Element → Type 0} (max now : ℕ) (k : Bytes) (c : TokenCache)
    → IsLinked P c
    → Within max c
    → Within max (enter now k c).0
unfolding enter use_again forget
enter-Within max now k c v h = elim (Option-cases (lookup k c.items)) [
  | inl a ↦ rw (a, enter) (join-Within max k c h)
  | inr (p, a) ↦ elim (Bool-cases (before now (c.elements p).fresh_until)) [
    | inl b ↦ rw (a, enter, b) (omega (arith, length-remove-lt p c.ll (v.mapped k p a).0))
    | inr b ↦
        rw (a, enter, b)
          (join-Within max k (forget p k c)
            (omega (arith, length-keep-le (λ q. not (q == p)) c.ll)))
  ]
]

store-Within :
    (max now : ℕ) (k : Bytes) (upto : ℕ) (fetched : FetchedToken) (c : TokenCache)
    → Within max c
    → Within max (store now k upto fetched c)
unfolding store push_front
store-Within max now k upto (failed x) c h = h
store-Within max now k upto (got tok) c h =
    elim (Bool-cases (not (tok.expires_at == 0) && before now (fresh_until upto tok))) [
      | inl b ↦
          let pushed = push_front k tok (fresh_until upto tok) c in
          let kept = (trim-SameFlights (suc (length c.ll)) pushed).3 in
          rw b (omega (arith, kept), omega (arith, trim-bounded (suc (length c.ll)) pushed))
      | inr b ↦ rw b h
    ]

module _ (fetch : Bytes → ℕ → FetchedToken) (cap_at : Bytes → ℕ) where
  enter_call-Within :
      (max t now : ℕ) (th : Thread) (s : System)
      → IsSound fetch cap_at s
      → Within max s.cache
      → Within max (enter_call t now th s).cache
  unfolding enter_call
  enter_call-Within max t now (calling k) s v h = enter-Within max now k s.cache v.linked h
  enter_call-Within max t now idle s v h = h
  enter_call-Within max t now (leading k f) s v h = h
  enter_call-Within max t now (waiting k f) s v h = h
  enter_call-Within max t now (returned k o) s v h = h

  finish_call-Within :
      (max t n now : ℕ) (ended : Bool) (th : Thread) (s : System)
      → Within max s.cache
      → Within max (finish_call fetch cap_at t n now ended th s).cache
  unfolding finish_call finish
  finish_call-Within max t n now ended (leading k f) s h =
      store-Within max now k (cap_at k) (fetch k n)
        (record s.cache { inflight = delete k s.cache.inflight }) h
  finish_call-Within max t n now ended idle s h = h
  finish_call-Within max t n now ended (calling k) s h = h
  finish_call-Within max t n now ended (waiting k f) s h = h
  finish_call-Within max t n now ended (returned k o) s h = h

  -- The other moves leave the cache alone.
  start_call-cache :
      (t : ℕ) (k : Bytes) (th : Thread) (s : System) → (start_call t k th s).cache ≡ s.cache
  unfolding start_call set_thread
  start_call-cache t k idle s = refl
  start_call-cache t k th s = refl

  wake_call-cache : (t : ℕ) (th : Thread) (s : System) → (wake_call t th s).cache ≡ s.cache
  unfolding wake_call set_thread
  wake_call-cache t (waiting k f) s = refl
  wake_call-cache t th s = refl

  give_up_call-cache : (t : ℕ) (th : Thread) (s : System) → (give_up_call t th s).cache ≡ s.cache
  unfolding give_up_call set_thread
  give_up_call-cache t (waiting k f) s = refl
  give_up_call-cache t th s = refl

  step-Within :
      (max : ℕ) (e : Event) (s : System)
      → IsSound fetch cap_at s
      → Within max s.cache
      → Within max (step fetch cap_at e s).cache
  unfolding step
  step-Within max (start t k) s v h = rw (start_call-cache t k (s.threads t) s) h
  step-Within max (go_in t now) s v h = enter_call-Within max t now (s.threads t) s v h
  step-Within max (come_back t n now ended) s v h =
      finish_call-Within max t n now ended (s.threads t) s h
  step-Within max (wake t) s v h = rw (wake_call-cache t (s.threads t) s) h
  step-Within max (give_up t) s v h = rw (give_up_call-cache t (s.threads t) s) h

  run-Within :
      (max : ℕ) (es : List Event) (s : System)
      → IsSound fetch cap_at s
      → Within max s.cache
      → Within max (run fetch cap_at es s).cache
  unfolding run
  run-Within max [] s v h = h
  run-Within max (e ∷ es) s v h =
      run-Within max es (step fetch cap_at e s) (step-IsSound fetch cap_at e s v)
        (step-Within max e s v h)

  -- After any schedule that starts with an empty cache of any bound: the cache holds no more elements
  -- than its bound; its map and its list agree, in that a key is mapped to an element exactly if that
  -- element is listed and is the key's; and a key with a request out is not cached.
  pub cache_agrees :
      (max : ℕ) (es : List Event)
      → let c = (run fetch cap_at es (new_system max)).cache in
        (length c.ll ≤ max)
        × ((k : Bytes) (p : ℕ)
            → (lookup k c.items ≡ some p) ↔ ((listed p c.ll ≡ true) × ((c.elements p).key ≡ k)))
        × ((k : Bytes) (f : ℕ) → lookup k c.inflight ≡ some f → lookup k c.items ≡ none)
  cache_agrees max es =
      let c = (run fetch cap_at es (new_system max)).cache in
      let v = (reached fetch cap_at max es).linked in
      (
        (run-Within max es (new_system max) (new_system-IsSound fetch cap_at max)
            (refl, omega arith)).1,
        λ k p. (v.mapped k p, λ h. subst (λ j. lookup j c.items ≡ some p) h.1 (v.linked p h.0).1),
        v.alone,
      )
