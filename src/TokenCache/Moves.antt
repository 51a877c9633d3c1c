-- ===== src/TokenCache/Moves.antt =====
-- Each move of a goroutine that shares the token cache keeps the invariant.
use auth_sdk_go.Base.{
  ℕ, suc, ◌<◌, ◌≡◌, ◌⊎◌, refl, true, false, some, arith, ◌==◌, inl, inr, Bool-cases, Option-cases,
  ==_iff, ap, sym, subst, ◌∙◌,
}
use auth_sdk_go.Base.Text.{Bytes, same_iff}
use auth_sdk_go.Base.Assoc.{lookup, lookup-insert, lookup-insert_self}
use auth_sdk_go.TokenCache.{
  TokenCache, FetchedToken, got, Flight, Entered, hit, wait, lead, put, enter, new_flight,
}
use auth_sdk_go.TokenCache.Calls.{
  Thread, idle, calling, leading, waiting, returned, System, next_thread, after_done, start_call,
  enter_call, wake_call, give_up_call,
}
use auth_sdk_go.TokenCache.Links.{IsLinked, enter-IsLinked}
use auth_sdk_go.TokenCache.Untouched.{SameFlights}
use auth_sdk_go.TokenCache.Sound.{
  Entering, enter_lem, Came, Stored, Fine, IsSound, set_thread-IsSound, Fine-mono,
}

module _ (fetch : Bytes → ℕ → FetchedToken) (cap_at : Bytes → ℕ) where
  pub start_call-IsSound :
      (t : ℕ) (k : Bytes) (th : Thread) (s : System)
      → IsSound fetch cap_at s
      → IsSound fetch cap_at (start_call t k th s)
  unfolding start_call
  start_call-IsSound t k idle s v = set_thread-IsSound fetch cap_at t (calling k) s v tt
  start_call-IsSound t k (returned j o) s v = set_thread-IsSound fetch cap_at t (calling k) s v tt
  start_call-IsSound t k (calling j) s v = v
  start_call-IsSound t k (leading j f) s v = v
  start_call-IsSound t k (waiting j f) s v = v

  pub give_up_call-IsSound :
      (t : ℕ) (th : Thread) (s : System)
      → IsSound fetch cap_at s
      → IsSound fetch cap_at (give_up_call t th s)
  unfolding give_up_call
  give_up_call-IsSound t (waiting k f) s v = set_thread-IsSound fetch cap_at t _ s v (inr refl)
  give_up_call-IsSound t idle s v = v
  give_up_call-IsSound t (returned j o) s v = v
  give_up_call-IsSound t (calling j) s v = v
  give_up_call-IsSound t (leading j f) s v = v

  -- A waiter is given what came for its key, or asks again.
  after_done-Fine :
      (t : ℕ) (k : Bytes) (f : ℕ) (s : System) (v : IsSound fetch cap_at s)
      → Fine fetch cap_at s.cache v.key_of v.leader_of t (waiting k f)
      → Fine fetch cap_at s.cache v.key_of v.leader_of t (after_done k f (s.cache.flights f))
  after_done-Fine t k f s v h = elim (Option-cases (s.cache.flights f).outcome) [
    | inl a ↦ rw (a, after_done) h
    | inr (o, a) ↦ elim (Bool-cases (s.cache.flights f).leader_cancelled) [
      | inl b ↦ rw (a, after_done, b) tt
      | inr b ↦
          rw (a, after_done, b) (inl (subst (λ j. Came fetch cap_at j o) h.1 (v.outcomes f o a).1))
    ]
  ]

  pub wake_call-IsSound :
      (t : ℕ) (th : Thread) (s : System) (v : IsSound fetch cap_at s)
      → Fine fetch cap_at s.cache v.key_of v.leader_of t th
      → IsSound fetch cap_at (wake_call t th s)
  unfolding wake_call
  wake_call-IsSound t (waiting k f) s v h =
      set_thread-IsSound fetch cap_at t _ s v (after_done-Fine t k f s v h)
  wake_call-IsSound t idle s v h = v
  wake_call-IsSound t (returned j o) s v h = v
  wake_call-IsSound t (calling j) s v h = v
  wake_call-IsSound t (leading j f) s v h = v

  -- A cache with the same requests out, and one goroutine moved.
  kept_flights-IsSound :
      (t : ℕ) (th : Thread) (d : TokenCache) (s : System) (v : IsSound fetch cap_at s)
      → SameFlights d s.cache
      → IsLinked (Stored fetch cap_at) d
      → Fine fetch cap_at d v.key_of v.leader_of t th
      → IsSound fetch cap_at (record { cache = d; threads = put s.threads t th })
  kept_flights-IsSound t th d s v kept l h = record {
    linked = l;
    key_of = v.key_of;
    leader_of = v.leader_of;
    requests = λ k f e.
        let (below, made) = v.requests k f (ap (lookup k) (sym kept.0) ∙ e) in
        (omega (arith, kept.2), made);
    outcomes = λ f o e.
        let (below, came) =
          v.outcomes f o (ap (λ (h : ℕ → Flight). (h f).outcome) (sym kept.1) ∙ e) in
        (omega (arith, kept.2), came);
    threads = λ q. elim (Bool-cases (q == t)) [
      | inl b ↦ rw (b, (==_iff q t).0 b) h
      | inr b ↦ rw b (
          Fine-mono fetch cap_at s.cache d v.key_of v.key_of v.leader_of v.leader_of q
            (λ k f e i. (ap (lookup k) kept.0 ∙ e, i)) (λ f below. (omega (arith, kept.2), refl))
            (s.threads q) (v.threads q))
    ];
  }

  lead_outcomes :
      (g : ℕ) (key : Bytes) (f : ℕ) (o : FetchedToken) (d : TokenCache) (s : System)
      (v : IsSound fetch cap_at s)
      → g ≡ s.cache.next_flight
      → d.flights ≡ put s.cache.flights g new_flight
      → d.next_flight ≡ suc g
      → (d.flights f).outcome ≡ some o
      → ((f == g) ≡ true) ⊎ ((f == g) ≡ false)
      → (f < d.next_flight) × Came fetch cap_at (put v.key_of g key f) o
  lead_outcomes g key f o d s v new flights next e (inl b) =
      absurd (cc (sym e ∙ ap (λ (h : ℕ → Flight). (h f).outcome) flights, b))
  lead_outcomes g key f o d s v new flights next e (inr b) =
      let e' : (s.cache.flights f).outcome ≡ some o =
        cc (sym e ∙ ap (λ (h : ℕ → Flight). (h f).outcome) flights, b) in
      let (below, came) = v.outcomes f o e' in rw b (omega arith, came)

  -- A flight that is made has a new address, and its leader is the goroutine that made it.
  lead-IsSound :
      (t k now : ℕ) (key : Bytes) (d : TokenCache) (s : System) (v : IsSound fetch cap_at s)
      → Entering (Stored fetch cap_at) now key s.cache d (lead k)
      → IsLinked (Stored fetch cap_at) d
      → IsSound fetch cap_at (record { cache = d; threads = put s.threads t (leading key k) })
  lead-IsSound t g now key d s v (new, alone, requests, flights, next) l = record {
    linked = l;
    key_of = put v.key_of g key;
    leader_of = put v.leader_of g t;
    requests = λ k f e. ground (
      arith,
      ap (lookup k) requests,
      lookup-insert key k g s.cache.inflight,
      same_iff key k,
      v.requests k f,
    );
    outcomes = λ f o e. lead_outcomes g key f o d s v new flights next e (Bool-cases (f == g));
    threads = λ q. elim (Bool-cases (q == t)) [
      | inl b ↦
          rw (b, (==_iff q t).0 b)
            (ap (lookup key) requests ∙ lookup-insert_self key g s.cache.inflight, ground arith)
      | inr b ↦ rw b (
          Fine-mono fetch cap_at s.cache d v.key_of (put v.key_of g key) v.leader_of
            (put v.leader_of g t) q
            (λ k f e i. ground (
              arith,
              ap (lookup k) requests,
              lookup-insert key k g s.cache.inflight,
              same_iff key k,
              v.requests k f,
            ))
            (λ f below. ground (arith)) (s.threads q) (v.threads q))
    ];
  }

  placed-IsSound :
      (t now : ℕ) (k : Bytes) (d : TokenCache) (s : System) (v : IsSound fetch cap_at s)
      (e : Entered)
      → Entering (Stored fetch cap_at) now k s.cache d e
      → IsLinked (Stored fetch cap_at) d
      → IsSound fetch cap_at (record { cache = d; threads = put s.threads t (next_thread k e) })
  placed-IsSound t now k d s v (hit tok) (kept, found) l =
      kept_flights-IsSound t (returned k (got tok)) d s v kept l
        (inl (found.1.0.0, cc (found.1.0.1, found.2, found.3)))
  placed-IsSound t now k d s v (wait f) (kept, out) l =
      let (below, made) = v.requests k f out in
      kept_flights-IsSound t (waiting k f) d s v kept l (omega (arith, kept.2), made)
  placed-IsSound t now k d s v (lead f) made l = lead-IsSound t f now k d s v made l

  pub enter_call-IsSound :
      (t now : ℕ) (th : Thread) (s : System)
      → IsSound fetch cap_at s
      → IsSound fetch cap_at (enter_call t now th s)
  unfolding enter_call
  enter_call-IsSound t now (calling k) s v =
      placed-IsSound t now k (enter now k s.cache).0 s v (enter now k s.cache).1
        (enter_lem (Stored fetch cap_at) now k s.cache v.linked)
        (enter-IsLinked (Stored fetch cap_at) now k s.cache v.linked)
  enter_call-IsSound t now idle s v = v
  enter_call-IsSound t now (returned j o) s v = v
  enter_call-IsSound t now (leading j f) s v = v
  enter_call-IsSound t now (waiting j f) s v = v
