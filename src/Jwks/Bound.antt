-- ===== src/Jwks/Bound.antt =====
-- The size of the key set cache.
use auth_sdk_go.Base.{
  ℕ, ◌+◌, ◌≤◌, ◌<◌, ◌≡◌, refl, sym, ap, ◌∙◌, Bool, true, false, List, [], ◌∷◌, Option, none, some,
  arith, ltb, if◌then◌else◌, Bool-cases, Option-cases, inl, inr, ◌⊎◌, length, All, is_some, ltb→lt,
}
use mathlib.Core.Bool.{true≢false}
use auth_sdk_go.Base.Text.{Bytes, same_refl}
use auth_sdk_go.Base.Assoc.{lookup, length-insert_new, length-delete-lt, lookup-delete}
use auth_sdk_go.Jwks.{
  Entry, Cache, new_entry, or_default, jwks_max_entries, better, pick, delete_victim, evict_if_full,
  entry,
}

abbrev bound_of : Cache → ℕ
bound_of c = or_default c.max_entries jwks_max_entries

-- Is every entry in flight?
abbrev all_in_flight : List (Bytes × Entry) → Bool
all_in_flight [] = true
all_in_flight ((k, e) ∷ m) = if e.once then all_in_flight m else false

-- A victim, if there is one, is in the map.
abbrev IsIn : List (Bytes × Entry) → Option (Bytes × ℕ) → Type 0
IsIn m none = Unit {0}
IsIn m (some (k, t)) = is_some (lookup k m) ≡ true

IsIn-cons :
    (k : Bytes) (e : Entry) (m : List (Bytes × Entry)) (b : Option (Bytes × ℕ))
    → IsIn m b
    → IsIn ((k, e) ∷ m) b
unfolding lookup
IsIn-cons k e m none h = tt
IsIn-cons k e m (some (j, t)) h = ground arith

-- A better victim is in the whole map if the old one and the new one are.
better-IsIn :
    (m : List (Bytes × Entry)) (b : Option (Bytes × ℕ)) (k : Bytes) (t : ℕ)
    → IsIn m b
    → is_some (lookup k m) ≡ true
    → IsIn m (better b k t)
better-IsIn m none k t h q = q
better-IsIn m (some (j, u)) k t h q = ground arith

abbrev AllIn : List (Bytes × Entry) → List (Bytes × Entry) → Type 0
AllIn m = All λ x. is_some (lookup x.0 m) ≡ true

pick-IsIn :
    (whole : List (Bytes × Entry)) (b : Option (Bytes × ℕ)) (m : List (Bytes × Entry))
    → IsIn whole b
    → AllIn whole m
    → IsIn whole (pick b m)
unfolding pick
pick-IsIn whole b [] h a = h
pick-IsIn whole b ((k, e) ∷ m) h (q, a) = elim (Bool-cases e.once) [
  | inl o ↦ rw o (pick-IsIn whole b m h a)
  | inr o ↦ rw o (pick-IsIn whole (better b k e.fetched) m (better-IsIn whole b k e.fetched h q) a)
]

AllIn-cons : (k : Bytes) (e : Entry) (m n : List (Bytes × Entry)) → AllIn m n → AllIn ((k, e) ∷ m) n
unfolding lookup
AllIn-cons k e m [] h = tt
AllIn-cons k e m ((j, f) ∷ n) h = (ground arith, AllIn-cons k e m n h.1)

AllIn-self : (m : List (Bytes × Entry)) → AllIn m m
unfolding lookup
AllIn-self [] = tt
AllIn-self ((k, e) ∷ m) = (ground (arith, same_refl k), AllIn-cons k e m m (AllIn-self m))

pick-some :
    (b : Option (Bytes × ℕ)) (m : List (Bytes × Entry))
    → is_some b ≡ true
    → is_some (pick b m) ≡ true
unfolding pick
pick-some b [] h = h
pick-some b ((k, e) ∷ m) h = elim (Bool-cases e.once) [
  | inl o ↦ rw o (pick-some b m h)
  | inr o ↦ rw o (pick-some (better b k e.fetched) m (ground arith))
]

-- There is a victim unless every entry is in flight.
pick-none :
    (m : List (Bytes × Entry)) → is_some (pick none m) ≡ (if all_in_flight m then false else true)
unfolding pick
pick-none [] = refl
pick-none ((k, e) ∷ m) = elim (Bool-cases e.once) [
  | inl o ↦ rw o (pick-none m)
  | inr o ↦ rw o (pick-some (some (k, e.fetched)) m refl)
]

delete_victim-le :
    (b : Option (Bytes × ℕ)) (m : List (Bytes × Entry))
    → IsIn m b
    → length (delete_victim b m) + (if is_some b then 1 else 0) ≤ length m
delete_victim-le none m h = omega arith
delete_victim-le (some (k, t)) m h =
    omega (arith, length-delete-lt k m (λ e. true≢false (sym h ∙ ap is_some e)))

lookup-delete_victim-none :
    (b : Option (Bytes × ℕ)) (m : List (Bytes × Entry)) (k : Bytes)
    → lookup k m ≡ none
    → lookup k (delete_victim b m) ≡ none
lookup-delete_victim-none none m k h = h
lookup-delete_victim-none (some (j, t)) m k h = ground (arith, lookup-delete j k m)

lookup-evict_if_full-none :
    (c : Cache) (k : Bytes) → lookup k c.entries ≡ none → lookup k (evict_if_full c) ≡ none
unfolding evict_if_full
lookup-evict_if_full-none c k h = elim (Bool-cases (ltb (length c.entries) (bound_of c))) [
  | inl e ↦ rw e h
  | inr e ↦ rw e (lookup-delete_victim-none (pick none c.entries) c.entries k h)
]

length-evict_if_full-lt :
    (c : Cache)
    → length c.entries ≤ bound_of c
    → (all_in_flight c.entries ≡ false) ⊎ (length c.entries < bound_of c)
    → length (evict_if_full c) < bound_of c
unfolding evict_if_full
length-evict_if_full-lt c h k = elim (Bool-cases (ltb (length c.entries) (bound_of c))) [
  | inl e ↦ rw e (ltb→lt _ _ e)
  | inr e ↦ rw e (
      ground (
        arith,
        delete_victim-le (pick none c.entries) c.entries
            (pick-IsIn c.entries none c.entries tt (AllIn-self c.entries)),
        pick-none c.entries,
      ))
]

-- Making an entry keeps the map within its bound, provided that some entry is idle or the map is
-- not full.
entry-bounded :
    (path : Bytes) (c : Cache)
    → length c.entries ≤ bound_of c
    → (all_in_flight c.entries ≡ false) ⊎ (length c.entries < bound_of c)
    → length (entry path c).1.entries ≤ bound_of c
unfolding entry
entry-bounded path c h k = elim (Option-cases (lookup path c.entries)) [
  | inl e ↦
      rw (e, entry)
        (omega (
          arith,
          length-insert_new path new_entry (evict_if_full c) (lookup-evict_if_full-none c path e),
          length-evict_if_full-lt c h k,
        ))
  | inr (x, e) ↦ rw (e, entry) h
]

evict_if_full_stuck :
    (c : Cache)
    → all_in_flight c.entries ≡ true
    → bound_of c ≤ length c.entries
    → evict_if_full c ≡ c.entries
unfolding evict_if_full
evict_if_full_stuck c h k = elim (Option-cases (pick none c.entries)) [
  | inl e ↦ ground (arith, e)
  | inr (v, e) ↦ absurd (ground (arith, e, pick-none c.entries))
]

-- The map is not always bounded: where every entry of a full map is in flight, a new path takes the
-- map past its bound.
pub entry_over_bound :
    (path : Bytes) (c : Cache)
    → lookup path c.entries ≡ none
    → all_in_flight c.entries ≡ true
    → bound_of c ≤ length c.entries
    → bound_of c < length (entry path c).1.entries
unfolding entry
entry_over_bound path c n h k =
    rw (n, entry, evict_if_full_stuck c h k)
      (omega (arith, k, length-insert_new path new_entry c.entries n))
