-- ===== src/TokenCache/Finish.antt =====
-- A goroutine that comes back with the answer to its request keeps the invariant.
use auth_sdk_go.Base.{
  ℕ, zero, suc, ◌+◌, ◌≤◌, ◌<◌, ◌≡◌, ◌⊎◌, refl, Bool, true, false, some, arith, ◌==◌, inl, inr,
  Bool-cases, ==_iff, ap,
}
use auth_sdk_go.Base.Text.{Bytes, same_iff}
use auth_sdk_go.Base.Time.{before}
use auth_sdk_go.Base.Assoc.{lookup, delete, lookup-delete}
use auth_sdk_go.TokenCache.{
  TokenCache, Token, FetchedToken, got, Flight, put, fresh_until, store, finish, is_cancelled,
  token_refresh_margin,
}
use auth_sdk_go.TokenCache.Calls.{
  Thread, idle, calling, leading, waiting, returned, System, finish_call,
}
use auth_sdk_go.TokenCache.Links.{finish-IsLinked}
use auth_sdk_go.TokenCache.Untouched.{SameFlights, store-SameFlights}
use auth_sdk_go.TokenCache.Sound.{Came, Stored, Fine, IsSound, Fine-mono}

module _ (fetch : Bytes → ℕ → FetchedToken) (cap_at : Bytes → ℕ) where
  -- What is stored is fresh for as long as `Stored fetch cap_at` says.
  fresh_until_bounds :
      (now upto : ℕ) (tok : Token)
      → before now (fresh_until upto tok) ≡ true
      → (fresh_until upto tok + token_refresh_margin ≤ tok.expires_at)
        × ((upto ≡ 0) ⊎ (fresh_until upto tok ≤ upto))
  unfolding fresh_until
  fresh_until_bounds now zero tok h = (ground arith, inl refl)
  fresh_until_bounds now (suc upto) tok h = (ground arith, inr (ground arith))

  finish_outcomes :
      (k : Bytes) (f n g : ℕ) (o : FetchedToken) (ended : Bool) (d : TokenCache) (s : System)
      (v : IsSound fetch cap_at s)
      → lookup k s.cache.inflight ≡ some f
      → SameFlights d (record s.cache { inflight = delete k s.cache.inflight })
      → (put d.flights f
          (record { outcome = some (fetch k n); leader_cancelled = is_cancelled (fetch k n) ended })
          g).outcome
        ≡ some o
      → ((g == f) ≡ true) ⊎ ((g == f) ≡ false)
      → (g < d.next_flight) × Came fetch cap_at (v.key_of g) o
  finish_outcomes k f n g o ended d s v out kept e (inl b) =
      let (below, made) = v.requests k f out in
      let here : g ≡ f = (==_iff g f).0 b in
      let answered : fetch k n ≡ o = ground arith in
      (omega (arith, kept.2), (n, cc (ap v.key_of here, made, answered)))
  finish_outcomes k f n g o ended d s v out kept e (inr b) =
      let e' : (s.cache.flights g).outcome ≡ some o =
        cc (e, b, ap (λ (h : ℕ → Flight). (h g).outcome) kept.1) in
      let (below, came) = v.outcomes g o e' in (omega (arith, kept.2), came)

  -- The goroutine that comes back is its request's leader, so no other leads a flight for the key.
  pub finish_call-IsSound :
      (t n now : ℕ) (ended : Bool) (th : Thread) (s : System) (v : IsSound fetch cap_at s)
      → Fine fetch cap_at s.cache v.key_of v.leader_of t th
      → IsSound fetch cap_at (finish_call fetch cap_at t n now ended th s)
  unfolding finish_call finish
  finish_call-IsSound t n now ended (leading k f) s v h =
      let c = record s.cache { inflight = delete k s.cache.inflight } in
      let d = store now k (cap_at k) (fetch k n) c in
      let kept = store-SameFlights now k (cap_at k) (fetch k n) c in
      let stored : (tok : Token)
          → fetch k n ≡ got tok
          → before now (fresh_until (cap_at k) tok) ≡ true
          → Stored fetch cap_at
              (record { key = k; tok = tok; fresh_until = fresh_until (cap_at k) tok }) =
        λ tok e b.
          let (margin, capped) = fresh_until_bounds now (cap_at k) tok b in
          ((n, e), margin, capped) in
      record {
        linked =
            finish-IsLinked (Stored fetch cap_at) now k (cap_at k) f (fetch k n) ended s.cache h.0
              stored v.linked;
        key_of = v.key_of;
        leader_of = v.leader_of;
        requests = λ j g e. ground (
          arith,
          ap (lookup j) kept.0,
          lookup-delete k j s.cache.inflight,
          kept.2,
          v.requests j g,
        );
        outcomes = λ g o e. finish_outcomes k f n g o ended d s v h.0 kept e (Bool-cases (g == f));
        threads = λ q. elim (Bool-cases (q == t)) [
          | inl b ↦ rw b (inl (n, refl))
          | inr b ↦ rw b (
              Fine-mono fetch cap_at s.cache (finish now k (cap_at k) f (fetch k n) ended s.cache)
                v.key_of v.key_of v.leader_of v.leader_of q
                (λ j g e i. ground (
                  arith,
                  ap (lookup j) kept.0,
                  lookup-delete k j s.cache.inflight,
                  same_iff k j,
                  h.0,
                  h.1,
                ))
                (λ g below. (omega (arith, kept.2), refl)) (s.threads q) (v.threads q))
        ];
      }
  finish_call-IsSound t n now ended idle s v h = v
  finish_call-IsSound t n now ended (returned j o) s v h = v
  finish_call-IsSound t n now ended (calling j) s v h = v
  finish_call-IsSound t n now ended (waiting j f) s v h = v
