-- ===== src/ValidationCache/Maps.antt =====
-- No key stands twice in the map, over any history: it is a Go map.
use auth_sdk_go.Base.{
  ℕ, ◌-◌, ◌≡◌, refl, subst, List, [], ◌∷◌, Option, none, arith, leb, inl, inr, length, Bool-cases,
  Option-cases,
}
use auth_sdk_go.Base.Text.{Bytes, same, same_iff, has_prefix}
use auth_sdk_go.Base.Assoc.{lookup, insert, delete, lookup-insert}
use auth_sdk_go.ValidationCache.{Cache, evict_if_full, drop_until, entry_for, get_with}
use auth_sdk_go.ValidationCache.Invalidation.{drop_prefix, reset}
use auth_sdk_go.ValidationCache.Events.{Event, ask, invalidate, reset_all, perform, step, run}
use auth_sdk_go.ValidationCache.Histories.{get_locked_keeps}
use auth_sdk_go.ValidationCache.Candidates.{Distinct}
use auth_sdk_go.ValidationCache.Deletions.{delete-Distinct, drop_stale-Distinct}

lookup_nothing : (k : Bytes) → lookup {V = ℕ} k [] ≡ none
unfolding lookup
lookup_nothing k = refl

insert-Distinct : (k : Bytes) (p : ℕ) (m : List (Bytes × ℕ)) → Distinct m → Distinct (insert k p m)
unfolding insert
insert-Distinct k p [] d = (lookup_nothing k, tt)
insert-Distinct k p ((j, q) ∷ m) d = elim (Bool-cases (same j k)) [
  | inl e ↦ rw e (subst (λ i. lookup i m ≡ none) ((same_iff j k).0 e) d.0, d.1)
  | inr e ↦ rw e (
    ground (arith, lookup-insert k j p m, same_iff j k, same_iff k j, d.0),
    insert-Distinct k p m d.1,
  )
]

drop_until-Distinct :
    (target : ℕ) (ks : List Bytes) (m : List (Bytes × ℕ))
    → Distinct m
    → Distinct (drop_until target ks m)
unfolding drop_until
drop_until-Distinct target [] m d = d
drop_until-Distinct target (k ∷ ks) m d = elim (Bool-cases (leb (length m) target)) [
  | inl e ↦ rw e d
  | inr e ↦ rw e (drop_until-Distinct target ks (delete k m) (delete-Distinct k m d))
]

evict_if_full-Distinct : (now : ℕ) (c : Cache) → Distinct c.entries → Distinct (evict_if_full now c)
unfolding evict_if_full
evict_if_full-Distinct now c d = elim (Bool-cases (leb (length c.entries) (c.max_entries - 1))) [
  | inl e ↦ rw e d
  | inr e ↦ rw e (drop_until-Distinct _ _ _ (drop_stale-Distinct now c.heap c.entries d))
]

entry_for-Distinct :
    (now : ℕ) (key : Bytes) (c : Cache)
    → Distinct c.entries
    → Distinct (entry_for now key c).1.entries
unfolding entry_for
entry_for-Distinct now key c d = elim (Option-cases (lookup key c.entries)) [
  | inl e ↦
      rw (e, entry_for)
        (insert-Distinct key c.next (evict_if_full now c) (evict_if_full-Distinct now c d))
  | inr (p, e) ↦ rw (e, entry_for) d
]

lookup-drop_prefix-none :
    (prefix k : Bytes) (m : List (Bytes × ℕ))
    → lookup k m ≡ none
    → lookup k (drop_prefix prefix m) ≡ none
unfolding drop_prefix lookup
lookup-drop_prefix-none prefix k [] h = refl
lookup-drop_prefix-none prefix k ((j, q) ∷ m) h = ground (arith, lookup-drop_prefix-none prefix k m)

drop_prefix-Distinct :
    (prefix : Bytes) (m : List (Bytes × ℕ)) → Distinct m → Distinct (drop_prefix prefix m)
unfolding drop_prefix
drop_prefix-Distinct prefix [] d = tt
drop_prefix-Distinct prefix ((k, p) ∷ m) d = elim (Bool-cases (has_prefix k prefix)) [
  | inl e ↦ rw e (drop_prefix-Distinct prefix m d.1)
  | inr e ↦ rw e (lookup-drop_prefix-none prefix k m d.0, drop_prefix-Distinct prefix m d.1)
]

module _ (parse_time : Bytes → Bytes → Option ℕ) where
  pub step-Distinct :
      (e : Event) (c : Cache) → Distinct c.entries → Distinct (step parse_time e c).entries
  unfolding step perform get_with reset
  step-Distinct (ask a) c d =
      let (p, c') = entry_for a.now a.key c in
      rw ((get_locked_keeps parse_time a p c').2) (entry_for-Distinct a.now a.key c d)
  step-Distinct (invalidate prefix) c d = drop_prefix-Distinct prefix c.entries d
  step-Distinct reset_all c d = tt

  pub run-Distinct :
      (es : List Event) (c : Cache) → Distinct c.entries → Distinct (run parse_time es c).entries
  unfolding run
  run-Distinct [] c d = d
  run-Distinct (e ∷ es) c d = run-Distinct es (step parse_time e c) (step-Distinct e c d)
