-- ===== src/ValidationCache/Survivors.antt =====
-- Which entries survive an eviction, where no key stands twice in the map.
use auth_sdk_go.Base.{
  ℕ, ◌-◌, ◌≤◌, ◌≡◌, refl, sym, ap, subst, ◌∙◌, true, false, ◌⊎◌, inl, inr, List, ◌++◌, none, some,
  arith, if◌then◌else◌, leb, length, InOrder, Bool-cases,
}
use auth_sdk_go.Base.Text.{Bytes}
use auth_sdk_go.Base.Assoc.{lookup}
use auth_sdk_go.Actor.{contains_string}
use auth_sdk_go.ValidationCache.{
  Entry, Cache, is_stale, live, in_flight, sort_by_expiry, drop_stale, drop_until, keys,
  evict_if_full,
}
use auth_sdk_go.ValidationCache.Eviction.{
  All-is_candidate, Covered-sorted, length-evict_if_full-le, contains_string-append,
}
use auth_sdk_go.ValidationCache.Candidates.{
  Distinct, lookup-drop_stale-some, lookup-drop_stale-gone,
}
use auth_sdk_go.ValidationCache.Deletions.{
  drop_until_lem, InOrder-cut, Covered-lookup, length-le-drop_until, drop_stale-Distinct,
  drop_until_small,
}
use auth_sdk_go.ValidationCache.Order.{GoesFirst, Ahead, candidates-InOrder}

kept_lem :
    (pre : List Bytes) (m : List (Bytes × ℕ)) (j : Bytes) (q : ℕ)
    → (if contains_string pre j then none else lookup j m) ≡ some q
    → (contains_string pre j ≡ false) × (lookup j m ≡ some q)
kept_lem pre m j q h = elim (Bool-cases (contains_string pre j)) [
  | inl e ↦ absurd (ground (arith, e))
  | inr e ↦ (e, ground (arith, e))
]

gone_lem :
    (pre : List Bytes) (m : List (Bytes × ℕ)) (k : Bytes)
    → (if contains_string pre k then none else lookup k m) ≡ none
    → (contains_string pre k ≡ true) ⊎ (lookup k m ≡ none)
gone_lem pre m k h = elim (Bool-cases (contains_string pre k)) [
  | inl e ↦ inl e
  | inr e ↦ inr (ground (arith, e))
]

-- The cut of the candidates at the end of the loop has the one key before it and the other after.
cut-order :
    (now : ℕ) (heap : ℕ → Entry) (m : List (Bytes × ℕ)) (target : ℕ) (k j : Bytes) (p q : ℕ)
    → Distinct m
    → lookup k m ≡ some p
    → is_stale now (heap p) ≡ false
    → let left =
        drop_until target
          (keys (sort_by_expiry (live now heap m)) ++ in_flight now heap m)
          (drop_stale now heap m) in
      (lookup k left ≡ none)
      → (lookup j left ≡ some q)
      → (lookup j m ≡ some q) × (is_stale now (heap q) ≡ false) × GoesFirst (heap p) (heap q)
cut-order now heap m target k j p q d has young gone kept =
    let ks = keys (sort_by_expiry (live now heap m)) ++ in_flight now heap m in
    let D = drop_stale now heap m in
    let (pre, suf, cut, found) = drop_until_lem target ks D in
    let (after, here) = kept_lem pre D j q (sym (found j) ∙ kept) in
    let (there, fresh) = lookup-drop_stale-some now heap m j q d here in
    let listed : contains_string (pre ++ suf) j ≡ true =
      subst (λ l. contains_string l j ≡ true) cut
        (Covered-lookup ks D j q (Covered-sorted now heap m D (All-is_candidate now heap m))
          here) in
    let before : contains_string pre k ≡ true = elim (gone_lem pre D k (sym (found k) ∙ gone)) [
      | inl e ↦ e
      | inr e ↦ cc (lookup-drop_stale-gone now heap m k p has e, young)
    ] in
    let late : contains_string suf j ≡ true =
      ground (arith, contains_string-append pre suf j, listed, after) in
    (
      there,
      fresh,
      InOrder-cut (Ahead now heap m) pre suf k j
          (subst (InOrder (Ahead now heap m)) cut (candidates-InOrder now heap m d)) before late p q
          has there,
    )

cut-length :
    (now : ℕ) (heap : ℕ → Entry) (m : List (Bytes × ℕ)) (target : ℕ) (ks : List Bytes) (k : Bytes)
    (p : ℕ)
    → Distinct m
    → lookup k m ≡ some p
    → is_stale now (heap p) ≡ false
    → lookup k (drop_until target ks (drop_stale now heap m)) ≡ none
    → target ≤ length (drop_until target ks (drop_stale now heap m))
cut-length now heap m target ks k p d has young gone =
    let D = drop_stale now heap m in
    elim (Bool-cases (leb (length D) target)) [
      | inl e ↦
          let lost : lookup k D ≡ none =
            ap (lookup k) (sym (drop_until_small target ks D e)) ∙ gone in
          cc (lookup-drop_stale-gone now heap m k p has lost, young)
      | inr e ↦
          length-le-drop_until target ks D (drop_stale-Distinct now heap m d) (ground (arith, e))
    ]

-- In a map where no key stands twice: where eviction gives up an entry that is neither expired nor
-- empty, it leaves the map with exactly one entry less than its bound; and every entry that it leaves
-- was there before, is itself not stale, and goes no earlier than the one given up: a live entry is
-- given up before those that expire later and before those in flight, and one in flight only if all
-- that are left are in flight.
pub evict_if_full-GoesFirst :
    (now : ℕ) (c : Cache) (k j : Bytes) (p q : ℕ)
    → Distinct c.entries
    → lookup k c.entries ≡ some p
    → is_stale now (c.heap p) ≡ false
    → lookup k (evict_if_full now c) ≡ none
    → lookup j (evict_if_full now c) ≡ some q
    → (length (evict_if_full now c) ≡ c.max_entries - 1)
      × (lookup j c.entries ≡ some q)
      × (is_stale now (c.heap q) ≡ false)
      × GoesFirst (c.heap p) (c.heap q)
unfolding evict_if_full
evict_if_full-GoesFirst now c k j p q d has young gone kept =
    let target = c.max_entries - 1 in
    let ks = keys (sort_by_expiry (live now c.heap c.entries)) ++ in_flight now c.heap c.entries in
    let room = length-evict_if_full-le now c in
    elim (Bool-cases (leb (length c.entries) target)) [
      | inl e ↦ cc
      | inr e ↦
          let same_map : evict_if_full now c
              ≡ drop_until target ks (drop_stale now c.heap c.entries) =
            rw e refl in
          let gone' = ap (lookup k) (sym same_map) ∙ gone in
          let (there, fresh, first) =
            cut-order now c.heap c.entries target k j p q d has young gone'
              (ap (lookup j) (sym same_map) ∙ kept) in
          let enough = cut-length now c.heap c.entries target ks k p d has young gone' in
          (omega (arith, room, enough, ap length same_map), there, fresh, first)
    ]
