-- ===== src/ValidationCache/Separate.antt =====
-- The entries of different keys are different objects on the heap, over any history, so that a call
-- for one key leaves the others' alone.
use auth_sdk_go.Base.{
  ℕ, suc, ◌-◌, ◌<◌, ◌≡◌, ◌≢◌, refl, sym, ◌∙◌, List, [], ◌∷◌, Option, some, arith, leb, length, inl,
  inr, Option-cases, Bool-cases,
}
use auth_sdk_go.Base.Text.{Bytes, same, same→eq, has_prefix}
use auth_sdk_go.Base.Assoc.{lookup, insert, lookup-insert}
use auth_sdk_go.Actor.{contains_string}
use auth_sdk_go.ValidationCache.{
  Entry, Cache, is_stale, drop_stale, drop_until, evict_if_full, entry_for, get_locked, get_with,
  count, serve,
}
use auth_sdk_go.ValidationCache.Invalidation.{drop_prefix, reset}
use auth_sdk_go.ValidationCache.Events.{Ask, Event, ask, invalidate, reset_all, perform, step, run}
use auth_sdk_go.ValidationCache.Candidates.{Distinct}
use auth_sdk_go.ValidationCache.Deletions.{drop_until_lem}
use auth_sdk_go.ValidationCache.Maps.{step-Distinct}

abbrev Entries : Type 0
Entries = List (Bytes × ℕ)

-- What the first map holds, the second does too.
abbrev Within : Entries → Entries → Type 0
Within m' m = (j : Bytes) (q : ℕ) → lookup j m' ≡ some q → lookup j m ≡ some q

drop_stale-Within :
    (now : ℕ) (heap : ℕ → Entry) (m : Entries) → Distinct m → Within (drop_stale now heap m) m
unfolding drop_stale lookup
drop_stale-Within now heap [] d j q h = h
drop_stale-Within now heap ((k, p) ∷ m) d j q h =
    let f = drop_stale-Within now heap m d.1 j q in
    elim (Bool-cases (is_stale now (heap p))) [
      | inl e ↦
          let found = f (rw e at h) in
          elim (Bool-cases (same k j)) [
            | inl b ↦ absurd (cc (d.0, same→eq k j b, found))
            | inr b ↦ rw b found
          ]
      | inr e ↦ ground (arith, f, rw e at h)
    ]

drop_until-Within : (target : ℕ) (ks : List Bytes) (m : Entries) → Within (drop_until target ks m) m
drop_until-Within target ks m j q h =
    let (pre, suf, cut, found) = drop_until_lem target ks m in
    elim (Bool-cases (contains_string pre j)) [
      | inl e ↦ absurd (ground (arith, e, found j, h))
      | inr e ↦ ground (arith, e, found j, h)
    ]

drop_prefix-Within : (prefix : Bytes) (m : Entries) → Distinct m → Within (drop_prefix prefix m) m
unfolding drop_prefix lookup
drop_prefix-Within prefix [] d j q h = h
drop_prefix-Within prefix ((k, p) ∷ m) d j q h =
    let f = drop_prefix-Within prefix m d.1 j q in
    elim (Bool-cases (has_prefix k prefix)) [
      | inl e ↦
          let found = f (rw e at h) in
          elim (Bool-cases (same k j)) [
            | inl b ↦ absurd (cc (d.0, same→eq k j b, found))
            | inr b ↦ rw b found
          ]
      | inr e ↦ ground (arith, f, rw e at h)
    ]

pub evict_if_full-Within :
    (now : ℕ) (c : Cache) → Distinct c.entries → Within (evict_if_full now c) c.entries
unfolding evict_if_full
evict_if_full-Within now c d j q h =
    elim (Bool-cases (leb (length c.entries) (c.max_entries - 1))) [
      | inl e ↦ rw e at h
      | inr e ↦
          drop_stale-Within now c.heap c.entries d j q (drop_until-Within _ _ _ j q (rw e at h))
    ]

-- The keys' addresses are in use, and no two keys share one.
abbrev pub Separate : Entries → ℕ → Type 0
Separate m next =
    ((j : Bytes) (q : ℕ) → lookup j m ≡ some q → q < next)
    × ((j k : Bytes) (q : ℕ) → lookup j m ≡ some q → lookup k m ≡ some q → j ≡ k)

Within-Separate : (m' m : Entries) (next : ℕ) → Within m' m → Separate m next → Separate m' next
Within-Separate m' m next f (used, apart) =
    (λ j q h. used j q (f j q h), λ j k q h h'. apart j k q (f j q h) (f k q h'))

insert-Separate :
    (key : Bytes) (next : ℕ) (m : Entries)
    → Separate m next
    → Separate (insert key next m) (suc next)
insert-Separate key next m (used, apart) = (
  λ j q h. elim (Bool-cases (same key j)) [
    | inl b ↦ ground (arith, b, h, lookup-insert key j next m)
    | inr b ↦
        let k = used j q (ground (arith, b, h, lookup-insert key j next m)) in omega (arith, k)
  ],
  λ j k q h h'. elim (Bool-cases (same key j)) [
    | inl b ↦ elim (Bool-cases (same key k)) [
      | inl b' ↦ sym (same→eq key j b) ∙ same→eq key k b'
      | inr b' ↦
          let lt = used k q (ground (arith, b', h', lookup-insert key k next m)) in
          absurd (ground (arith, b, h, lt, lookup-insert key j next m))
    ]
    | inr b ↦ elim (Bool-cases (same key k)) [
      | inl b' ↦
          let lt = used j q (ground (arith, b, h, lookup-insert key j next m)) in
          absurd (ground (arith, b', h', lt, lookup-insert key k next m))
      | inr b' ↦
          apart j k q (ground (arith, b, h, lookup-insert key j next m))
            (ground (arith, b', h', lookup-insert key k next m))
    ]
  ],
)

abbrev pub IsSeparate : Cache → Type 0
IsSeparate c = Distinct c.entries × Separate c.entries c.next

entry_for-Separate :
    (now : ℕ) (key : Bytes) (c : Cache)
    → IsSeparate c
    → Separate (entry_for now key c).1.entries (entry_for now key c).1.next
unfolding entry_for
entry_for-Separate now key c (d, s) = elim (Option-cases (lookup key c.entries)) [
  | inl e ↦
      rw (e, entry_for)
        (insert-Separate key c.next (evict_if_full now c)
          (Within-Separate _ c.entries c.next (evict_if_full-Within now c d) s))
  | inr (p, e) ↦ rw (e, entry_for) s
]

pub nothing_in : (next : ℕ) → Separate [] next
unfolding lookup
nothing_in next = (λ j q h. absurd cc, λ j k q h h'. absurd cc)

module _ (parse_time : Bytes → Bytes → Option ℕ) where
  -- What a call does to the map and the heap once it has the address of its entry.
  pub get_locked_heap :
      (a : Ask) (p : ℕ) (c : Cache)
      → let d =
          (get_locked parse_time a.cls a.negative_err a.not_after a.now a.fresh a.fetched p c).0 in
        (d.next ≡ c.next) × (d.entries ≡ c.entries) × ((q : ℕ) → q ≢ p → d.heap q ≡ c.heap q)
  unfolding get_locked count
  get_locked_heap a p c = elim (Option-cases (serve a.now a.fresh (c.heap p))) [
    | inl e ↦ rw (e, get_locked) (refl, refl, λ q n. ground (arith, n))
    | inr (o, e) ↦ rw (e, get_locked) (refl, refl, λ q n. refl)
  ]

  step-IsSeparate : (e : Event) (c : Cache) → IsSeparate c → IsSeparate (step parse_time e c)
  unfolding step perform get_with reset
  step-IsSeparate (ask a) c (d, s) =
      let (p, c') = entry_for a.now a.key c in
      let (next, entries, _) = get_locked_heap a p c' in
      (
        step-Distinct parse_time (ask a) c d,
        rw (next, entries) (entry_for-Separate a.now a.key c (d, s)),
      )
  step-IsSeparate (invalidate prefix) c (d, s) = (
    step-Distinct parse_time (invalidate prefix) c d,
    Within-Separate _ c.entries c.next (drop_prefix-Within prefix c.entries d) s,
  )
  step-IsSeparate reset_all c (d, s) = (tt, nothing_in c.next)

  pub run-IsSeparate :
      (es : List Event) (c : Cache) → IsSeparate c → IsSeparate (run parse_time es c)
  unfolding run
  run-IsSeparate [] c s = s
  run-IsSeparate (e ∷ es) c s = run-IsSeparate es (step parse_time e c) (step-IsSeparate e c s)
