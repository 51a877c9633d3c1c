-- ===== src/ValidationCache/Order.antt =====
-- The order in which an eviction gives up what is not stale.
use auth_sdk_go.Base.{
  ℕ, ◌≤◌, ◌≡◌, ap, subst, true, false, ◌⊎◌, inl, inr, List, [], ◌∷◌, ◌++◌, some, arith, All,
  All-imp, InOrder, InOrder-append,
}
use auth_sdk_go.Base.Text.{Bytes}
use auth_sdk_go.Base.Assoc.{lookup}
use auth_sdk_go.ValidationCache.{Entry, Candidate, live, in_flight, sort_by_expiry, keys}
use auth_sdk_go.ValidationCache.Candidates.{
  Distinct, IsLive, IsInFlight, live-IsLive, in_flight-IsInFlight, NoLater, All-sort, sort-InOrder,
}

-- Of two entries that are not stale, the first is given up before the second: it is live, and the
-- second is in flight or expires no earlier; or both are in flight.
abbrev pub GoesFirst : Entry → Entry → Type 0
GoesFirst e f =
    ((e.flight ≡ false) × ((f.flight ≡ true) ⊎ (e.expires ≤ f.expires)))
    ⊎ ((e.flight ≡ true) × (f.flight ≡ true))

module _ (now : ℕ) (heap : ℕ → Entry) (m : List (Bytes × ℕ)) where
  -- What the keys have is given up in this order.
  abbrev pub Ahead : Bytes → Bytes → Type 0
  Ahead k j = (p q : ℕ) → lookup k m ≡ some p → lookup j m ≡ some q → GoesFirst (heap p) (heap q)

  live-Ahead-live :
      (x y : Candidate) → IsLive now heap m x → IsLive now heap m y → NoLater x y → Ahead x.0 y.0
  live-Ahead-live x y (p', found, free, due) (q', found', free', due') le p q hp hq =
      let e : p' ≡ p = cc in
      let e' : q' ≡ q = cc in
      inl (
        subst (λ r. (heap r).flight ≡ false) e free,
        inr (omega (arith, ap (λ r. (heap r).expires) e, ap (λ r. (heap r).expires) e', le)),
      )

  live-Ahead-flight :
      (x : Candidate) (j : Bytes) → IsLive now heap m x → IsInFlight now heap m j → Ahead x.0 j
  live-Ahead-flight x j (p', found, free, due) (q', found', busy) p q hp hq =
      let e : p' ≡ p = cc in
      let e' : q' ≡ q = cc in
      inl (
        subst (λ r. (heap r).flight ≡ false) e free,
        inl (subst (λ r. (heap r).flight ≡ true) e' busy),
      )

  flight-Ahead-flight :
      (k j : Bytes) → IsInFlight now heap m k → IsInFlight now heap m j → Ahead k j
  flight-Ahead-flight k j (p', found, busy) (q', found', busy') p q hp hq =
      let e : p' ≡ p = cc in
      let e' : q' ≡ q = cc in
      inr (subst (λ r. (heap r).flight ≡ true) e busy, subst (λ r. (heap r).flight ≡ true) e' busy')

  keys-Ahead :
      (x : Candidate) (ys : List Candidate)
      → IsLive now heap m x
      → All (IsLive now heap m) ys
      → All (NoLater x) ys
      → All (Ahead x.0) (keys ys)
  keys-Ahead x [] h hs les = tt
  keys-Ahead x (y ∷ ys) h hs les = (live-Ahead-live x y h hs.0 les.0, keys-Ahead x ys h hs.1 les.1)

  keys-InOrder :
      (xs : List Candidate)
      → All (IsLive now heap m) xs
      → InOrder NoLater xs
      → InOrder Ahead (keys xs)
  keys-InOrder [] hs les = tt
  keys-InOrder (x ∷ xs) hs les = (keys-Ahead x xs hs.0 hs.1 les.0, keys-InOrder xs hs.1 les.1)

  flights-InOrder : (ks : List Bytes) → All (IsInFlight now heap m) ks → InOrder Ahead ks
  flights-InOrder [] hs = tt
  flights-InOrder (k ∷ ks) hs = (
    All-imp (IsInFlight now heap m) (Ahead k) ks (λ j h. flight-Ahead-flight k j hs.0 h) hs.1,
    flights-InOrder ks hs.1,
  )

  across :
      (xs : List Candidate) (ks : List Bytes)
      → All (IsLive now heap m) xs
      → All (IsInFlight now heap m) ks
      → All (λ k. All (Ahead k) ks) (keys xs)
  across [] ks hs fs = tt
  across (x ∷ xs) ks hs fs = (
    All-imp (IsInFlight now heap m) (Ahead x.0) ks (λ j h. live-Ahead-flight x j hs.0 h) fs,
    across xs ks hs.1 fs,
  )

  pub candidates-InOrder :
      Distinct m → InOrder Ahead (keys (sort_by_expiry (live now heap m)) ++ in_flight now heap m)
  candidates-InOrder d =
      let L = sort_by_expiry (live now heap m) in
      let F = in_flight now heap m in
      let hs = All-sort (IsLive now heap m) (live now heap m) (live-IsLive now heap m d) in
      let fs = in_flight-IsInFlight now heap m d in
      InOrder-append Ahead (keys L) F (keys-InOrder L hs (sort-InOrder (live now heap m)))
        (flights-InOrder F fs) (across L F hs fs)
