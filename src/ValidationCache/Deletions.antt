-- ===== src/ValidationCache/Deletions.antt =====
-- The deletions of an eviction: the first few candidates, and no more than it takes.
use auth_sdk_go.Base.{
  ℕ, suc, ◌≤◌, ◌≡◌, refl, ap, subst, ◌∙◌, true, inl, inr, List, [], ◌∷◌, ◌++◌, none, some, arith,
  if◌then◌else◌, leb, length, All, InOrder, Bool-cases,
}
use auth_sdk_go.Base.Text.{Bytes, same, same→eq}
use auth_sdk_go.Base.Assoc.{lookup, delete, lookup-delete}
use auth_sdk_go.Actor.{contains_string}
use auth_sdk_go.ValidationCache.{Entry, is_stale, drop_stale, drop_until}
use auth_sdk_go.ValidationCache.Eviction.{Covered, lookup-drop_stale-none, contains_string-append}
use auth_sdk_go.ValidationCache.Candidates.{Distinct}

-- The loop over the candidates deletes the first few of them.
pub drop_until_lem :
    (target : ℕ) (ks : List Bytes) (m : List (Bytes × ℕ))
    → (pre : List Bytes) × (suf : List Bytes) × (ks ≡ pre ++ suf)
      × ((j : Bytes)
          → lookup j (drop_until target ks m)
            ≡ (if contains_string pre j then none else lookup j m))
unfolding drop_until contains_string
drop_until_lem target [] m = ([], [], refl, λ j. refl)
drop_until_lem target (k ∷ ks) m = elim (Bool-cases (leb (length m) target)) [
  | inl e ↦ ([], k ∷ ks, refl, λ j. rw e refl)
  | inr e ↦
      let (pre, suf, cut, found) = drop_until_lem target ks (delete k m) in
      (k ∷ pre, suf, ap (λ l. k ∷ l) cut, λ j. rw e (found j ∙ ground (arith, lookup-delete k j m)))
]

All-contains :
    (P : Bytes → Type 0) (xs : List Bytes) (k : Bytes)
    → All P xs
    → contains_string xs k ≡ true
    → P k
unfolding contains_string
All-contains P [] k h e = cc
All-contains P (x ∷ xs) k h e = elim (Bool-cases (same x k)) [
  | inl q ↦ subst P (same→eq x k q) h.0
  | inr q ↦ All-contains P xs k h.1 (ground (arith, q))
]

-- Of two keys, one before a cut and the other after it.
pub InOrder-cut :
    (R : Bytes → Bytes → Type 0) (pre suf : List Bytes) (k j : Bytes)
    → InOrder R (pre ++ suf)
    → contains_string pre k ≡ true
    → contains_string suf j ≡ true
    → R k j
unfolding contains_string
InOrder-cut R [] suf k j h before after = cc
InOrder-cut R (x ∷ pre) suf k j h before after = elim (Bool-cases (same x k)) [
  | inl q ↦
      subst (λ i. R i j) (same→eq x k q)
        (All-contains (R x) (pre ++ suf) j h.0
          (contains_string-append pre suf j ∙ ground (arith, after)))
  | inr q ↦ InOrder-cut R pre suf k j h.1 (ground (arith, q)) after
]

pub Covered-lookup :
    (ks : List Bytes) (m : List (Bytes × ℕ)) (j : Bytes) (q : ℕ)
    → Covered ks m
    → lookup j m ≡ some q
    → contains_string ks j ≡ true
unfolding lookup
Covered-lookup ks [] j q h e = cc
Covered-lookup ks ((k, p) ∷ m) j q h e = elim (Bool-cases (same k j)) [
  | inl b ↦ subst (λ i. contains_string ks i ≡ true) (same→eq k j b) h.0
  | inr b ↦ Covered-lookup ks m j q h.1 (ground (arith, b))
]

-- Deletions, one at a time.
pub delete-Distinct : (k : Bytes) (m : List (Bytes × ℕ)) → Distinct m → Distinct (delete k m)
unfolding delete
delete-Distinct k [] d = tt
delete-Distinct k ((j, q) ∷ m) d = elim (Bool-cases (same j k)) [
  | inl e ↦ rw e (delete-Distinct k m d.1)
  | inr e ↦ rw e (ground (arith, lookup-delete k j m, d.0), delete-Distinct k m d.1)
]

delete_fresh : (k : Bytes) (m : List (Bytes × ℕ)) → lookup k m ≡ none → delete k m ≡ m
unfolding delete lookup
delete_fresh k [] h = refl
delete_fresh k ((j, q) ∷ m) h = ground (arith, delete_fresh k m)

length-le-delete :
    (k : Bytes) (m : List (Bytes × ℕ)) → Distinct m → length m ≤ suc (length (delete k m))
unfolding delete
length-le-delete k [] d = omega arith
length-le-delete k ((j, q) ∷ m) d = elim (Bool-cases (same j k)) [
  | inl e ↦
      let fresh = subst (λ i. lookup i m ≡ none) (same→eq j k e) d.0 in
      rw (e, delete_fresh k m fresh) (omega arith)
  | inr e ↦ rw e (omega (arith, length-le-delete k m d.1))
]

pub length-le-drop_until :
    (target : ℕ) (ks : List Bytes) (m : List (Bytes × ℕ))
    → Distinct m
    → target ≤ length m
    → target ≤ length (drop_until target ks m)
unfolding drop_until
length-le-drop_until target [] m d h = h
length-le-drop_until target (k ∷ ks) m d h = elim (Bool-cases (leb (length m) target)) [
  | inl e ↦ rw e h
  | inr e ↦ rw e (
      length-le-drop_until target ks (delete k m) (delete-Distinct k m d)
        (ground (arith, e, length-le-delete k m d)))
]

pub drop_stale-Distinct :
    (now : ℕ) (heap : ℕ → Entry) (m : List (Bytes × ℕ))
    → Distinct m
    → Distinct (drop_stale now heap m)
unfolding drop_stale
drop_stale-Distinct now heap [] d = tt
drop_stale-Distinct now heap ((k, p) ∷ m) d = elim (Bool-cases (is_stale now (heap p))) [
  | inl e ↦ rw e (drop_stale-Distinct now heap m d.1)
  | inr e ↦ rw e (lookup-drop_stale-none now heap m k d.0, drop_stale-Distinct now heap m d.1)
]

pub drop_until_small :
    (target : ℕ) (ks : List Bytes) (m : List (Bytes × ℕ))
    → leb (length m) target ≡ true
    → drop_until target ks m ≡ m
unfolding drop_until
drop_until_small target [] m h = refl
drop_until_small target (k ∷ ks) m h = rw h refl
