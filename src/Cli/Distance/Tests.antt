-- ===== src/Cli/Distance/Tests.antt =====
-- Distances and suggestions, and the theorems on them at concrete texts.
use auth_sdk_go.Base.{ℕ, ◌≡◌, refl, ◌≤◌, List, [], ◌∷◌, some}
use auth_sdk_go.Base.Text.{Bytes, bytes}
use auth_sdk_go.Cli.Distance.{edit_distance, suggest}
use auth_sdk_go.Cli.Distance.Scripts.{Edits}
use auth_sdk_go.Cli.Distance.Rows.{edit_distance-least}

abbrev commands : List Bytes
commands = bytes "health" ∷ bytes "can" ∷ bytes "grant" ∷ []

typo : edit_distance (bytes "helth") (bytes "health") ≡ some 1
unfolding edit_distance
typo = refl

typo_suggested : suggest commands (bytes "grnat") ≡ some (bytes "grant")
unfolding suggest
typo_suggested = refl

nothing_close : suggest commands (bytes "organize") ≡ some []
unfolding suggest
nothing_close = refl

edit_distance-least_example :
    (n : ℕ) × (edit_distance (bytes "cn") (bytes "can") ≡ some n)
    × Edits (bytes "cn") (bytes "can") n
    × ((m : ℕ) → Edits (bytes "cn") (bytes "can") m → n ≤ m)
edit_distance-least_example = edit_distance-least (bytes "cn") (bytes "can")
