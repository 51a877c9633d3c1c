-- ===== src/Cli/Distance/Scripts.antt =====
-- The shortest way to edit a text into another.
use mathlib.Core.List.{append-nil}
use auth_sdk_go.Base.{
  ℕ, suc, ◌+◌, ◌≤◌, ◌≡◌, refl, sym, subst, ◌∙◌, ◌⊎◌, inl, inr, [], ◌∷◌, ◌++◌, arith, ◌==◌, length,
  leb, Bool-cases, ==_iff,
}
use auth_sdk_go.Base.Text.{Bytes}
use auth_sdk_go.Cli.Distance.{min, cost, cell}

-- A text is turned into another by that many deletions, insertions and replacements of a byte.
pub data Edits : Bytes → Bytes → ℕ → Type 0 where
  done : Edits [] [] 0
  keep : {a b : Bytes} {n : ℕ} (x : ℕ) → Edits a b n → Edits (x ∷ a) (x ∷ b) n
  replace : {a b : Bytes} {n : ℕ} (x y : ℕ) → Edits a b n → Edits (x ∷ a) (y ∷ b) (suc n)
  delete : {a b : Bytes} {n : ℕ} (x : ℕ) → Edits a b n → Edits (x ∷ a) b (suc n)
  insert : {a b : Bytes} {n : ℕ} (y : ℕ) → Edits a b n → Edits a (y ∷ b) (suc n)

-- The recursion for the distance.
unfoldable pub distance : Bytes → Bytes → ℕ
distance [] b = length b
distance (x ∷ a) [] = suc (length a)
distance (x ∷ a) (y ∷ b) = cell (distance (x ∷ a) b) (distance a (y ∷ b)) (distance a b) (cost x y)

distance-nil : (a : Bytes) → distance a [] ≡ length a
unfolding distance
distance-nil [] = refl
distance-nil (x ∷ a) = refl

distance_delete : (x : ℕ) (a b : Bytes) → distance (x ∷ a) b ≤ suc (distance a b)
unfolding distance
distance_delete x a [] = omega (arith, distance-nil a)
distance_delete x a (y ∷ b) = ground arith

distance_insert : (y : ℕ) (a b : Bytes) → distance a (y ∷ b) ≤ suc (distance a b)
unfolding distance
distance_insert y [] b = omega arith
distance_insert y (x ∷ a) b = ground arith

distance_replace : (x y : ℕ) (a b : Bytes) → distance (x ∷ a) (y ∷ b) ≤ distance a b + cost x y
unfolding distance
distance_replace x y a b = ground arith

-- No script is shorter.
pub distance-le : {a b : Bytes} {n : ℕ} → Edits a b n → distance a b ≤ n
unfolding distance
distance-le done = omega arith
distance-le (keep {a} {b} x e) = ground (arith, distance_replace x x a b, distance-le e)
distance-le (replace {a} {b} x y e) = ground (arith, distance_replace x y a b, distance-le e)
distance-le (delete {a} {b} x e) = omega (arith, distance_delete x a b, distance-le e)
distance-le (insert {a} {b} y e) = omega (arith, distance_insert y a b, distance-le e)

min-cases : (m n : ℕ) → (min m n ≡ m) ⊎ (min m n ≡ n)
min-cases m n = elim (Bool-cases (leb m n)) [ inl e ↦ inl (rw e) | inr e ↦ inr (rw e) ]

Edits-subst : {a b : Bytes} {m n : ℕ} → Edits a b m → m ≡ n → Edits a b n
Edits-subst {a} {b} e p = subst (Edits a b) p e

inserts : (b : Bytes) → Edits [] b (length b)
inserts [] = done
inserts (y ∷ b) = insert y (inserts b)

deletes : (a : Bytes) → Edits a [] (length a)
deletes [] = done
deletes (x ∷ a) = delete x (deletes a)

keep_or_replace :
    (x y : ℕ) {a b : Bytes} {n : ℕ} → Edits a b n → Edits (x ∷ a) (y ∷ b) (n + cost x y)
keep_or_replace x y {a} {b} {n} e = elim (Bool-cases (x == y)) [
  | inl same_byte ↦
      subst (λ z. Edits (x ∷ a) (z ∷ b) (n + cost x y)) ((==_iff x y).0 same_byte)
        (Edits-subst (keep x e) (ground arith))
  | inr other_byte ↦ Edits-subst (replace x y e) (ground arith)
]

-- There is a script of that length.
pub distance-Edits : (a b : Bytes) → Edits a b (distance a b)
unfolding distance
distance-Edits [] b = inserts b
distance-Edits (x ∷ a) [] = deletes (x ∷ a)
distance-Edits (x ∷ a) (y ∷ b) =
    let left = distance (x ∷ a) b in
    let above = distance a (y ∷ b) in
    let whole = min (left + 1) (above + 1) in
    elim (min-cases whole (distance a b + cost x y)) [
      | inl p ↦ elim (min-cases (left + 1) (above + 1)) [
        | inl q ↦ Edits-subst (insert y (distance-Edits (x ∷ a) b)) (omega (arith, p, q))
        | inr q ↦ Edits-subst (delete x (distance-Edits a (y ∷ b))) (omega (arith, p, q))
      ]
      | inr p ↦ Edits-subst (keep_or_replace x y (distance-Edits a b)) (sym p)
    ]

-- The first text backwards, before the second.
unfoldable pub onto : Bytes → Bytes → Bytes
onto [] b = b
onto (x ∷ a) b = onto a (x ∷ b)

onto-onto : (a b c : Bytes) → onto (onto a b) c ≡ onto b (a ++ c)
unfolding onto
onto-onto [] b c = refl
onto-onto (x ∷ a) b c = onto-onto a (x ∷ b) c

pub onto_twice : (a : Bytes) → onto (onto a []) [] ≡ a
unfolding onto
onto_twice a = onto-onto a [] [] ∙ append-nil a

-- A script may be read from the other end.
onto-Edits :
    {a b c d : Bytes} {m n : ℕ} → Edits a b m → Edits c d n → Edits (onto a c) (onto b d) (m + n)
unfolding onto
onto-Edits done f = Edits-subst f (omega arith)
onto-Edits (keep x e) f = onto-Edits e (keep x f)
onto-Edits (replace x y e) f = Edits-subst (onto-Edits e (replace x y f)) (omega arith)
onto-Edits (delete x e) f = Edits-subst (onto-Edits e (delete x f)) (omega arith)
onto-Edits (insert y e) f = Edits-subst (onto-Edits e (insert y f)) (omega arith)

pub Edits-backwards : {a b : Bytes} {n : ℕ} → Edits a b n → Edits (onto a []) (onto b []) n
Edits-backwards e = Edits-subst (onto-Edits e done) (omega arith)
