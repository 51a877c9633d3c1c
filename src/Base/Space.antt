-- ===== src/Base/Space.antt =====
-- Spaces in Go strings: strings.TrimSpace and strings.Fields, for ASCII spaces.
use Prim.Native.Nat.{ℕ}
use mathlib.Core.Bool.{Bool, not, ◌||◌, ◌&&◌, false}
use mathlib.Core.List.{List, [], ◌∷◌}
use package.auth_sdk_go.Base.Tests.{leb, ◌==◌, if◌then◌else◌}
use package.auth_sdk_go.Base.Text.{Bytes}

-- The ASCII part of `unicode.IsSpace`.
unfoldable pub is_space : ℕ → Bool
is_space c = c == 32 || (leb 9 c && leb c 13)

unfoldable trim_left : Bytes → Bytes
unfolding is_space
trim_left [] = []
trim_left (c ∷ s) = if is_space c then trim_left s else c ∷ s

unfoldable trim_right : Bytes → Bytes
unfolding is_space
trim_right [] = []
trim_right (c ∷ s) = elim (trim_right s) [
  | [] ↦ if is_space c then [] else c ∷ []
  | d ∷ r ↦ c ∷ d ∷ r
]

-- `strings.TrimSpace`
unfoldable pub trim_space : Bytes → Bytes
unfolding trim_left trim_right
trim_space s = trim_right (trim_left s)

-- Does a field begin the text?
abbrev pub starts_field : Bytes → Bool
starts_field [] = false
starts_field (c ∷ s) = not (is_space c)

abbrev pub extend_first : ℕ → List Bytes → List Bytes
extend_first c [] = (c ∷ []) ∷ []
extend_first c (w ∷ ws) = (c ∷ w) ∷ ws

-- `strings.Fields`, for ASCII spaces.
unfoldable pub fields : Bytes → List Bytes
unfolding is_space
fields [] = []
fields (c ∷ s) =
    let rest = fields s in
    if is_space c then rest else if starts_field s then extend_first c rest else (c ∷ []) ∷ rest
