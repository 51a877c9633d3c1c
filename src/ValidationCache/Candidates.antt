-- ===== src/ValidationCache/Candidates.antt =====
-- The candidates of an eviction, where no key stands twice in the map, and their order.
use auth_sdk_go.Base.{
  ℕ, ◌≤◌, ◌≡◌, refl, ap, true, false, inl, inr, List, [], ◌∷◌, none, some, arith, leb, leb→le, All,
  All-imp, InOrder, Bool-cases,
}
use auth_sdk_go.Base.Text.{Bytes, same, same_iff, same_refl}
use auth_sdk_go.Base.Assoc.{lookup}
use auth_sdk_go.ValidationCache.{
  Entry, Candidate, is_stale, is_live, insert_by_expiry, sort_by_expiry, live, in_flight,
  drop_stale,
}

-- No key stands twice.
abbrev pub Distinct : List (Bytes × ℕ) → Type 0
Distinct [] = Unit
Distinct ((k, p) ∷ m) = (lookup k m ≡ none) × Distinct m

-- A key further down is another one.
lookup-further :
    (k j : Bytes) (p q : ℕ) (m : List (Bytes × ℕ))
    → lookup k m ≡ none
    → lookup j m ≡ some q
    → lookup j ((k, p) ∷ m) ≡ some q
unfolding lookup
lookup-further k j p q m fresh found = ground (arith, same_iff k j, ap (λ i. lookup i m))

lookup_head : (k : Bytes) (p : ℕ) (m : List (Bytes × ℕ)) → lookup k ((k, p) ∷ m) ≡ some p
unfolding lookup
lookup_head k p m = rw (same_refl k) refl

module _ (now : ℕ) (heap : ℕ → Entry) where
  pub lookup-drop_stale-some :
      (m : List (Bytes × ℕ)) (k : Bytes) (p : ℕ)
      → Distinct m
      → lookup k (drop_stale now heap m) ≡ some p
      → (lookup k m ≡ some p) × (is_stale now (heap p) ≡ false)
  unfolding drop_stale lookup
  lookup-drop_stale-some [] k p d h = cc
  lookup-drop_stale-some ((j, q) ∷ m) k p d h = elim (Bool-cases (is_stale now (heap q))) [
    | inl old ↦
        let (found, fresh) = lookup-drop_stale-some m k p d.1 (ground (arith, old)) in
        (lookup-further j k q p m d.0 found, fresh)
    | inr young ↦ elim (Bool-cases (same j k)) [
      | inl e ↦ ground (arith, young, e)
      | inr e ↦
          let (found, fresh) = lookup-drop_stale-some m k p d.1 (ground (arith, young, e)) in
          (ground (arith, e), fresh)
    ]
  ]

  pub lookup-drop_stale-gone :
      (m : List (Bytes × ℕ)) (k : Bytes) (p : ℕ)
      → lookup k m ≡ some p
      → lookup k (drop_stale now heap m) ≡ none
      → is_stale now (heap p) ≡ true
  unfolding drop_stale lookup
  lookup-drop_stale-gone [] k p h gone = cc
  lookup-drop_stale-gone ((j, q) ∷ m) k p h gone = ground (arith, lookup-drop_stale-gone m k p)

  -- What the candidates are.
  abbrev pub IsLive : List (Bytes × ℕ) → Candidate → Type 0
  IsLive m x =
      (p : ℕ) × (lookup x.0 m ≡ some p) × ((heap p).flight ≡ false) × (x.1 ≡ (heap p).expires)

  abbrev pub IsInFlight : List (Bytes × ℕ) → Bytes → Type 0
  IsInFlight m k = (p : ℕ) × (lookup k m ≡ some p) × ((heap p).flight ≡ true)

  pub live-IsLive : (m : List (Bytes × ℕ)) → Distinct m → All (IsLive m) (live now heap m)
  unfolding live
  live-IsLive [] d = tt
  live-IsLive ((k, p) ∷ m) d =
      let rest =
        All-imp (IsLive m) (IsLive ((k, p) ∷ m)) (live now heap m)
          (λ x h.
            let (q, found, free, due) = h in (q, lookup-further k x.0 p q m d.0 found, free, due))
          (live-IsLive m d.1) in
      elim (Bool-cases (is_live now (heap p))) [
        | inl e ↦ rw e ((p, lookup_head k p m, ground (arith, e), refl), rest)
        | inr e ↦ rw e rest
      ]

  pub in_flight-IsInFlight :
      (m : List (Bytes × ℕ)) → Distinct m → All (IsInFlight m) (in_flight now heap m)
  unfolding in_flight
  in_flight-IsInFlight [] d = tt
  in_flight-IsInFlight ((k, p) ∷ m) d =
      let rest =
        All-imp (IsInFlight m) (IsInFlight ((k, p) ∷ m)) (in_flight now heap m)
          (λ j h. let (q, found, busy) = h in (q, lookup-further k j p q m d.0 found, busy))
          (in_flight-IsInFlight m d.1) in
      elim (Bool-cases (heap p).flight) [
        | inl e ↦ rw e ((p, lookup_head k p m, e), rest)
        | inr e ↦ rw e rest
      ]

-- The order of the candidates.
All-insert :
    (P : Candidate → Type 0) (x : Candidate) (xs : List Candidate)
    → P x
    → All P xs
    → All P (insert_by_expiry x xs)
unfolding insert_by_expiry
All-insert P x [] h k = (h, tt)
All-insert P x (y ∷ ys) h k = elim (Bool-cases (leb x.1 y.1)) [
  | inl e ↦ rw e (h, k)
  | inr e ↦ rw e (k.0, All-insert P x ys h k.1)
]

pub All-sort : (P : Candidate → Type 0) (xs : List Candidate) → All P xs → All P (sort_by_expiry xs)
unfolding sort_by_expiry
All-sort P [] h = tt
All-sort P (x ∷ xs) h = All-insert P x (sort_by_expiry xs) h.0 (All-sort P xs h.1)

abbrev pub NoLater : Candidate → Candidate → Type 0
NoLater x y = x.1 ≤ y.1

insert-InOrder :
    (x : Candidate) (xs : List Candidate)
    → InOrder NoLater xs
    → InOrder NoLater (insert_by_expiry x xs)
unfolding insert_by_expiry
insert-InOrder x [] h = (tt, tt)
insert-InOrder x (y ∷ ys) h = elim (Bool-cases (leb x.1 y.1)) [
  | inl e ↦
      let le = leb→le x.1 y.1 e in
      rw e ((le, All-imp (NoLater y) (NoLater x) ys (λ z k. omega (arith, le, k)) h.0), h)
  | inr e ↦ rw e (All-insert (NoLater y) x ys (ground (arith, e)) h.0, insert-InOrder x ys h.1)
]

pub sort-InOrder : (xs : List Candidate) → InOrder NoLater (sort_by_expiry xs)
unfolding sort_by_expiry
sort-InOrder [] = tt
sort-InOrder (x ∷ xs) = insert-InOrder x (sort_by_expiry xs) (sort-InOrder xs)
