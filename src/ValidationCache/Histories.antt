-- ===== src/ValidationCache/Histories.antt =====
-- Histories of calls, invalidations and resets: the configuration, the size bound, and how a property
-- of every entry object is kept.
use auth_sdk_go.Base.{
  ℕ, ◌≤◌, ◌<◌, ◌≡◌, refl, ◌∙◌, List, [], ◌∷◌, Option, arith, ◌==◌, length, inl, inr, Bool-cases,
  Option-cases,
}
use auth_sdk_go.Base.Text.{Bytes}
use auth_sdk_go.Base.Assoc.{lookup}
use auth_sdk_go.ValidationCache.{
  Entry, Cache, update, new_entry, entry_for, count, serve, after_fetch, get_locked, get_with,
}
use auth_sdk_go.ValidationCache.Invalidation.{drop_prefix, reset}
use auth_sdk_go.ValidationCache.Events.{Ask, Event, ask, invalidate, reset_all, perform, step, run}
use auth_sdk_go.ValidationCache.Eviction.{entry_for_new-le}

-- A property of every entry object, in the map or dropped from it.
abbrev pub Every : (Entry → Type 0) → Cache → Type 0
Every P c = (p : ℕ) → P (c.heap p)

module _ (P : Entry → Type 0) where
  Every-update :
      (h : ℕ → Entry) (p : ℕ) (e : Entry) → ((q : ℕ) → P (h q)) → P e → (q : ℕ) → P (update h p e q)
  Every-update h p e all k q = elim (Bool-cases (q == p)) [ inl b ↦ rw b k | inr b ↦ rw b (all q) ]

  pub entry_for-Every :
      (now : ℕ) (key : Bytes) (c : Cache)
      → P new_entry
      → Every P c
      → Every P (entry_for now key c).1
  unfolding entry_for
  entry_for-Every now key c n all = elim (Option-cases (lookup key c.entries)) [
    | inl e ↦ rw (e, entry_for) (Every-update c.heap c.next new_entry all n)
    | inr (p, e) ↦ rw (e, entry_for) all
  ]

-- The configuration is never touched.
abbrev SameSettings : Cache → Cache → Type 0
SameSettings c d = (c.policy ≡ d.policy) × (c.max_entries ≡ d.max_entries)

pub entry_for-SameSettings :
    (now : ℕ) (key : Bytes) (c : Cache) → SameSettings (entry_for now key c).1 c
unfolding entry_for
entry_for-SameSettings now key c = elim (Option-cases (lookup key c.entries)) [
  | inl e ↦ rw (e, entry_for) (refl, refl)
  | inr (p, e) ↦ rw (e, entry_for) (refl, refl)
]

entry_for-le :
    (now : ℕ) (key : Bytes) (c : Cache)
    → 0 < c.max_entries
    → length c.entries ≤ c.max_entries
    → length (entry_for now key c).1.entries ≤ c.max_entries
unfolding entry_for
entry_for-le now key c h k = elim (Option-cases (lookup key c.entries)) [
  | inl e ↦ entry_for_new-le now key c h e
  | inr (p, e) ↦ rw (e, entry_for) k
]

length-drop_prefix-le :
    (prefix : Bytes) (m : List (Bytes × ℕ)) → length (drop_prefix prefix m) ≤ length m
unfolding drop_prefix
length-drop_prefix-le prefix [] = omega arith
length-drop_prefix-le prefix ((k, p) ∷ m) = ground (arith, length-drop_prefix-le prefix m)

module _ (parse_time : Bytes → Bytes → Option ℕ) where
  -- The part under the entry's mutex touches neither the map nor the configuration.
  pub get_locked_keeps :
      (a : Ask) (p : ℕ) (c : Cache)
      → let d =
          (get_locked parse_time a.cls a.negative_err a.not_after a.now a.fresh a.fetched p c).0 in
        (d.policy ≡ c.policy) × (d.max_entries ≡ c.max_entries) × (d.entries ≡ c.entries)
  unfolding get_locked count
  get_locked_keeps a p c = elim (Option-cases (serve a.now a.fresh (c.heap p))) [
    | inl e ↦ rw (e, get_locked) (refl, refl, refl)
    | inr (o, e) ↦ rw (e, get_locked) (refl, refl, refl)
  ]

  pub step-SameSettings : (e : Event) (c : Cache) → SameSettings (step parse_time e c) c
  unfolding step perform get_with
  step-SameSettings (ask a) c =
      let (p, d) = entry_for a.now a.key c in
      let kept = get_locked_keeps a p d in
      let made = entry_for-SameSettings a.now a.key c in (kept.0 ∙ made.0, kept.1 ∙ made.1)
  step-SameSettings (invalidate prefix) c = (refl, refl)
  step-SameSettings reset_all c = (refl, refl)

  pub run-SameSettings : (es : List Event) (c : Cache) → SameSettings (run parse_time es c) c
  unfolding run
  run-SameSettings [] c = (refl, refl)
  run-SameSettings (e ∷ es) c =
      let rest = run-SameSettings es (step parse_time e c) in
      let first = step-SameSettings e c in (rest.0 ∙ first.0, rest.1 ∙ first.1)

  step-bounded :
      (e : Event) (c : Cache)
      → 0 < c.max_entries
      → length c.entries ≤ c.max_entries
      → length (step parse_time e c).entries ≤ c.max_entries
  unfolding step perform get_with reset
  step-bounded (ask a) c h k =
      let (p, d) = entry_for a.now a.key c in
      rw ((get_locked_keeps a p d).2) (entry_for-le a.now a.key c h k)
  step-bounded (invalidate prefix) c h k = omega (arith, length-drop_prefix-le prefix c.entries)
  step-bounded reset_all c h k = omega arith

  -- The map never holds more than `max_entries` entries, over any history of calls, invalidations
  -- and resets, if it starts within that bound and the bound is at least one.
  pub length-run-le :
      (es : List Event) (c : Cache)
      → 0 < c.max_entries
      → length c.entries ≤ c.max_entries
      → length (run parse_time es c).entries ≤ c.max_entries
  unfolding run
  length-run-le [] c h k = k
  length-run-le (e ∷ es) c h k =
      let same = (step-SameSettings e c).1 in
      omega (
        arith,
        same,
        length-run-le es (step parse_time e c) (omega (arith, same))
            (omega (arith, same, step-bounded e c h k)),
      )

  -- Whatever a call does to its entry keeps `P`: then so does the call.
  pub get_locked-Every :
      (P : Entry → Type 0) (a : Ask) (p : ℕ) (c : Cache)
      → Every P c
      → P (
          after_fetch parse_time
            (c.policy a.cls)
            a.negative_err
            a.not_after
            a.now
            a.fetched
            (c.heap p))
      → Every P
          (get_locked parse_time a.cls a.negative_err a.not_after a.now a.fresh a.fetched p c).0
  unfolding get_locked count
  get_locked-Every P a p c all k = elim (Option-cases (serve a.now a.fresh (c.heap p))) [
    | inl e ↦ rw (e, get_locked) (Every-update P c.heap p _ all k)
    | inr (o, e) ↦ rw (e, get_locked) all
  ]
