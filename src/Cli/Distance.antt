-- ===== src/Cli/Distance.antt =====
-- cmd/ab0t-auth/main.go: editDistance, row by row, and suggest. A row is a list; an index out of
-- range, which panics, is `none`.

pub mod Scripts
pub mod Rows
pub mod Suggestions
pub mod Tests
use auth_sdk_go.Base.{
  ℕ, zero, suc, ◌+◌, List, [], ◌∷◌, Option, none, some, leb, ltb, ◌==◌, if◌then◌else◌, length,
}
use auth_sdk_go.Base.Text.{Bytes}

abbrev pub min : ℕ → ℕ → ℕ
min a b = if leb a b then a else b

abbrev pub get_elem? : List ℕ → ℕ → Option ℕ
get_elem? [] i = none
get_elem? (x ∷ xs) zero = some x
get_elem? (x ∷ xs) (suc i) = get_elem? xs i

abbrev pub cost : ℕ → ℕ → ℕ
cost x y = if x == y then 0 else 1

-- `min(min(cur[j-1]+1, prev[j]+1), prev[j-1]+cost)`
abbrev pub cell : (left above diagonal cost : ℕ) → ℕ
cell left above diagonal c = min (min (left + 1) (above + 1)) (diagonal + c)

-- The inner loop: the cells of `cur` after the one that holds `left`, where `diagonal` and then
-- `prev` are the row above.
unfoldable pub fill : (x left diagonal : ℕ) (prev : List ℕ) → Bytes → List ℕ
fill x left diagonal [] b = []
fill x left diagonal (above ∷ prev) [] = []
fill x left diagonal (above ∷ prev) (y ∷ b) =
    let c = cell left above diagonal (cost x y) in c ∷ fill x c above prev b

-- One round of the outer loop, for the byte `x` of `a` before `i`.
unfoldable pub next_row : (i x : ℕ) → List ℕ → Bytes → List ℕ
unfolding fill
next_row i x [] b = []
next_row i x (diagonal ∷ prev) b = i ∷ fill x i diagonal prev b

unfoldable pub rows : (i : ℕ) → Bytes → List ℕ → Bytes → List ℕ
unfolding next_row
rows i [] prev b = prev
rows i (x ∷ a) prev b = rows (suc i) a (next_row i x prev b) b

-- `prev[j] = j`, for the row from `j` on that is a cell longer than `b`.
unfoldable pub first_row : (j : ℕ) → Bytes → List ℕ
first_row j [] = j ∷ []
first_row j (y ∷ b) = j ∷ first_row (suc j) b

unfoldable pub edit_distance : Bytes → Bytes → Option ℕ
unfolding rows first_row
edit_distance a b = get_elem? (rows 1 a (first_row 0 b) b) (length b)

-- The loop of suggest over the names of the commands, with the best so far and its distance.
unfoldable pub closest : (name best : Bytes) (best_distance : ℕ) → List Bytes → Option Bytes
unfolding edit_distance
closest name best best_distance [] = some best
closest name best best_distance (c ∷ commands) = elim (edit_distance name c) [
  | none ↦ none
  | some d ↦
      (let closer = closest name c d commands in
        let same_best = closest name best best_distance commands in
        if ltb d best_distance then closer else same_best)
]

unfoldable pub suggest : List Bytes → Bytes → Option Bytes
unfolding closest
suggest commands name = closest name [] 3 commands
