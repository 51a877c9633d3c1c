-- ===== src/ValidationCache/Eviction.antt =====
-- The bound on the number of cached entries, and which entries eviction gives up.
use auth_sdk_go.Base.{
  ℕ, ◌-◌, ◌≤◌, ◌<◌, ◌≡◌, refl, Bool, true, false, ◌||◌, List, [], ◌∷◌, ◌++◌, none, arith, leb,
  length, All, Bool-cases, leb→le, inl, inr,
}
use auth_sdk_go.Base.Text.{Bytes, same_iff, same_refl}
use auth_sdk_go.Base.Assoc.{lookup, delete, length-insert_new, lookup-delete}
use auth_sdk_go.Actor.{contains_string}
use auth_sdk_go.ValidationCache.{
  Entry, Cache, Candidate, is_stale, insert_by_expiry, sort_by_expiry, live, in_flight, drop_stale,
  drop_until, keys, evict_if_full, entry_for,
}

-- Every key of the map is among `ks`.
abbrev pub Covered : List Bytes → List (Bytes × ℕ) → Type 0
Covered ks = All λ e. contains_string ks e.0 ≡ true

Covered-delete :
    (k : Bytes) (ks : List Bytes) (m : List (Bytes × ℕ))
    → Covered (k ∷ ks) m
    → Covered ks (delete k m)
unfolding delete contains_string
Covered-delete k ks [] h = tt
Covered-delete k ks ((j, p) ∷ m) h =
    ground (arith, Covered-delete k ks m h.1, same_iff j k, same_iff k j)

Covered-nil : (m : List (Bytes × ℕ)) → Covered [] m → length m ≡ 0
unfolding contains_string
Covered-nil [] h = refl
Covered-nil (e ∷ m) h = cc (h.0)

length-drop_until-le :
    (target : ℕ) (ks : List Bytes) (m : List (Bytes × ℕ))
    → Covered ks m
    → length (drop_until target ks m) ≤ target
unfolding drop_until
length-drop_until-le target [] m h = omega (arith, Covered-nil m h)
length-drop_until-le target (k ∷ ks) m h =
    ground (arith, length-drop_until-le target ks (delete k m) (Covered-delete k ks m h))

pub contains_string-append :
    (xs ys : List Bytes) (k : Bytes)
    → contains_string (xs ++ ys) k ≡ (contains_string xs k || contains_string ys k)
unfolding contains_string
contains_string-append [] ys k = refl
contains_string-append (x ∷ xs) ys k = ground (arith, contains_string-append xs ys k)

contains_string-insert :
    (x : Candidate) (xs : List Candidate) (k : Bytes)
    → contains_string (keys (insert_by_expiry x xs)) k ≡ contains_string (x.0 ∷ keys xs) k
unfolding contains_string insert_by_expiry
contains_string-insert x [] k = refl
contains_string-insert x (y ∷ ys) k = ground (arith, contains_string-insert x ys k)

contains_string-sort :
    (xs : List Candidate) (k : Bytes)
    → contains_string (keys (sort_by_expiry xs)) k ≡ contains_string (keys xs) k
unfolding contains_string sort_by_expiry
contains_string-sort [] k = refl
contains_string-sort (x ∷ xs) k =
    ground (arith, contains_string-insert x (sort_by_expiry xs) k, contains_string-sort xs k)

module _ (now : ℕ) (heap : ℕ → Entry) where
  -- Is `k` the key of a candidate?
  pub is_candidate : List (Bytes × ℕ) → Bytes → Bool
  is_candidate m k =
      contains_string (keys (live now heap m)) k || contains_string (in_flight now heap m) k

  is_candidate-cons :
      (k : Bytes) (p : ℕ) (m : List (Bytes × ℕ)) (j : Bytes)
      → is_candidate m j ≡ true
      → is_candidate ((k, p) ∷ m) j ≡ true
  unfolding is_candidate live in_flight contains_string
  is_candidate-cons k p m j h = ground arith

  is_candidate-head :
      (k : Bytes) (p : ℕ) (m : List (Bytes × ℕ))
      → is_stale now (heap p) ≡ false
      → is_candidate ((k, p) ∷ m) k ≡ true
  unfolding is_candidate live in_flight contains_string
  is_candidate-head k p m h = ground (arith, same_refl k)

  All-is_candidate-cons :
      (k : Bytes) (p : ℕ) (m n : List (Bytes × ℕ))
      → All (λ e. is_candidate m e.0 ≡ true) n
      → All (λ e. is_candidate ((k, p) ∷ m) e.0 ≡ true) n
  All-is_candidate-cons k p m [] h = tt
  All-is_candidate-cons k p m (e ∷ n) h =
      (is_candidate-cons k p m e.0 h.0, All-is_candidate-cons k p m n h.1)

  -- What is not stale is live or in flight.
  pub All-is_candidate :
      (m : List (Bytes × ℕ)) → All (λ e. is_candidate m e.0 ≡ true) (drop_stale now heap m)
  unfolding drop_stale
  All-is_candidate [] = tt
  All-is_candidate ((k, p) ∷ m) =
      let rest = All-is_candidate-cons k p m (drop_stale now heap m) (All-is_candidate m) in
      elim (Bool-cases (is_stale now (heap p))) [
        | inl e ↦ rw e rest
        | inr e ↦ rw e (is_candidate-head k p m e, rest)
      ]

  is_candidate-sorted :
      (m : List (Bytes × ℕ)) (k : Bytes)
      → is_candidate m k ≡ true
      → contains_string (keys (sort_by_expiry (live now heap m)) ++ in_flight now heap m) k ≡ true
  unfolding is_candidate
  is_candidate-sorted m k h =
      rw
        (
          contains_string-append (keys (sort_by_expiry (live now heap m))) (in_flight now heap m) k,
          contains_string-sort (live now heap m) k,
        )
        h

  pub Covered-sorted :
      (m n : List (Bytes × ℕ))
      → All (λ e. is_candidate m e.0 ≡ true) n
      → Covered (keys (sort_by_expiry (live now heap m)) ++ in_flight now heap m) n
  Covered-sorted m [] h = tt
  Covered-sorted m (e ∷ n) h = (is_candidate-sorted m e.0 h.0, Covered-sorted m n h.1)

-- Eviction leaves room for one entry, whatever is expired, live or in flight.
pub length-evict_if_full-le :
    (now : ℕ) (c : Cache) → length (evict_if_full now c) ≤ c.max_entries - 1
unfolding evict_if_full
length-evict_if_full-le now c = elim (Bool-cases (leb (length c.entries) (c.max_entries - 1))) [
  | inl e ↦ rw e (leb→le _ _ e)
  | inr e ↦ rw e (
      length-drop_until-le _ _ _
        (Covered-sorted now c.heap c.entries _ (All-is_candidate now c.heap c.entries)))
]

lookup-drop_until-none :
    (target : ℕ) (ks : List Bytes) (m : List (Bytes × ℕ)) (k : Bytes)
    → lookup k m ≡ none
    → lookup k (drop_until target ks m) ≡ none
unfolding drop_until
lookup-drop_until-none target [] m k h = h
lookup-drop_until-none target (j ∷ ks) m k h =
    ground (arith, lookup-drop_until-none target ks (delete j m) k, lookup-delete j k m)

pub lookup-drop_stale-none :
    (now : ℕ) (heap : ℕ → Entry) (m : List (Bytes × ℕ)) (k : Bytes)
    → lookup k m ≡ none
    → lookup k (drop_stale now heap m) ≡ none
unfolding drop_stale lookup
lookup-drop_stale-none now heap [] k h = refl
lookup-drop_stale-none now heap ((j, p) ∷ m) k h =
    ground (arith, lookup-drop_stale-none now heap m k)

pub lookup-evict_if_full-none :
    (now : ℕ) (c : Cache) (k : Bytes)
    → lookup k c.entries ≡ none
    → lookup k (evict_if_full now c) ≡ none
unfolding evict_if_full
lookup-evict_if_full-none now c k h = ground (
  arith,
  lookup-drop_until-none (c.max_entries - 1)
      (keys (sort_by_expiry (live now c.heap c.entries)) ++ in_flight now c.heap c.entries)
      (drop_stale now c.heap c.entries) k,
  lookup-drop_stale-none now c.heap c.entries k,
)

-- Making an entry never takes the map past its bound of at least one, even if every entry in it is
-- in flight and even if the map is over the bound beforehand.
pub entry_for_new-le :
    (now : ℕ) (key : Bytes) (c : Cache)
    → 0 < c.max_entries
    → lookup key c.entries ≡ none
    → length ((entry_for now key c).1).entries ≤ c.max_entries
unfolding entry_for
entry_for_new-le now key c h new =
    rw (new, entry_for)
      (omega (
        arith,
        length-insert_new key c.next (evict_if_full now c)
            (lookup-evict_if_full-none now c key new),
        length-evict_if_full-le now c,
      ))
