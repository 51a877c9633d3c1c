-- ===== src/Cli/Distance/Rows.antt =====
-- The rows of editDistance hold the distances between the beginnings of the two texts, which are
-- read backwards here.
use auth_sdk_go.Base.{ℕ, suc, ◌≡◌, refl, ap, subst, ◌∙◌, ◌≤◌, List, [], ◌∷◌, some, length}
use auth_sdk_go.Base.Text.{Bytes}
use auth_sdk_go.Cli.Distance.{get_elem?, cost, cell, fill, next_row, rows, first_row, edit_distance}
use auth_sdk_go.Cli.Distance.Scripts.{
  Edits, distance, distance-le, distance-Edits, onto, onto_twice, Edits-backwards,
}

-- The row for `a`, after the cell of `seen` and for the rest of the text.
abbrev cells_after : (a seen rest : Bytes) → List ℕ
cells_after a seen [] = []
cells_after a seen (y ∷ rest) = distance a (y ∷ seen) ∷ cells_after a (y ∷ seen) rest

abbrev row : (a seen rest : Bytes) → List ℕ
row a seen rest = distance a seen ∷ cells_after a seen rest

first_row_lem : (seen rest : Bytes) → first_row (length seen) rest ≡ row [] seen rest
unfolding first_row distance
first_row_lem seen [] = refl
first_row_lem seen (y ∷ rest) = ap (λ r. length seen ∷ r) (first_row_lem (y ∷ seen) rest)

cell-distance :
    (x y : ℕ) (a b : Bytes)
    → cell (distance (x ∷ a) b) (distance a (y ∷ b)) (distance a b) (cost x y)
      ≡ distance (x ∷ a) (y ∷ b)
unfolding distance
cell-distance x y a b = refl

fill_lem :
    (x : ℕ) (a seen rest : Bytes)
    → fill x (distance (x ∷ a) seen) (distance a seen) (cells_after a seen rest) rest
      ≡ cells_after (x ∷ a) seen rest
unfolding fill
fill_lem x a seen [] = refl
fill_lem x a seen (y ∷ rest) =
    rw (cell-distance x y a seen)
      (ap (λ r. distance (x ∷ a) (y ∷ seen) ∷ r) (fill_lem x a (y ∷ seen) rest))

next_row_lem : (x : ℕ) (a b : Bytes) → next_row (suc (length a)) x (row a [] b) b ≡ row (x ∷ a) [] b
unfolding next_row distance
next_row_lem x a b = ap (λ r. suc (length a) ∷ r) (fill_lem x a [] b)

rows_lem :
    (a seen b : Bytes) → rows (suc (length seen)) a (row seen [] b) b ≡ row (onto a seen) [] b
unfolding rows onto
rows_lem [] seen b = refl
rows_lem (x ∷ a) seen b =
    ap (λ r. rows (suc (suc (length seen))) a r b) (next_row_lem x seen b) ∙ rows_lem a (x ∷ seen) b

get_elem?-row :
    (a seen rest : Bytes)
    → get_elem? (row a seen rest) (length rest) ≡ some (distance a (onto rest seen))
unfolding onto
get_elem?-row a seen [] = refl
get_elem?-row a seen (y ∷ rest) = get_elem?-row a (y ∷ seen) rest

edit_distance_lem : (a b : Bytes) → edit_distance a b ≡ some (distance (onto a []) (onto b []))
unfolding edit_distance
edit_distance_lem a b =
    ap (λ r. get_elem? (rows 1 a r b) (length b)) (first_row_lem [] b)
    ∙ ap (λ r. get_elem? r (length b)) (rows_lem a [] b)
    ∙ get_elem?-row (onto a []) [] b

-- editDistance never reads out of range, and yields the least number of bytes to delete, insert or
-- replace that turns the one text into the other.
pub edit_distance-least :
    (a b : Bytes)
    → (n : ℕ) × (edit_distance a b ≡ some n) × Edits a b n × ((m : ℕ) → Edits a b m → n ≤ m)
edit_distance-least a b = (
  distance (onto a []) (onto b []),
  edit_distance_lem a b,
  subst (λ c. Edits c b (distance (onto a []) (onto b []))) (onto_twice a)
      (subst (λ c. Edits (onto (onto a []) []) c (distance (onto a []) (onto b []))) (onto_twice b)
        (Edits-backwards (distance-Edits (onto a []) (onto b [])))),
  λ m e. distance-le (Edits-backwards e),
)
