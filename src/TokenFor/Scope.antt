-- ===== src/TokenFor/Scope.antt =====
-- tokenfor.go: normalizeScope. sort.Strings compares byte by byte.
pub mod Order
pub mod Words
pub mod Sets
use auth_sdk_go.Base.{
  ℕ, Bool, true, false, ◌&&◌, ◌||◌, List, [], ◌∷◌, ◌++◌, ltb, leb, ◌==◌, if◌then◌else◌, length,
}
use auth_sdk_go.Base.Text.{Bytes, same}
use auth_sdk_go.Base.Space.{fields}

-- `a < b` on strings
unfoldable pub less : Bytes → Bytes → Bool
less [] [] = false
less [] (y ∷ ys) = true
less (x ∷ xs) [] = false
less (x ∷ xs) (y ∷ ys) = ltb x y || (x == y && less xs ys)

-- `sort.Strings`
unfoldable pub insert_sorted : Bytes → List Bytes → List Bytes
unfolding less
insert_sorted w [] = w ∷ []
insert_sorted w (v ∷ vs) = if less v w then v ∷ insert_sorted w vs else w ∷ v ∷ vs

unfoldable pub sort_strings : List Bytes → List Bytes
unfolding insert_sorted
sort_strings [] = []
sort_strings (w ∷ ws) = insert_sorted w (sort_strings ws)

-- The loop that drops what equals the last one kept.
unfoldable pub dedup_from : Bytes → List Bytes → List Bytes
unfolding same
dedup_from last [] = []
dedup_from last (v ∷ vs) =
    let kept = v ∷ dedup_from v vs in
    let dropped = dedup_from last vs in if same v last then dropped else kept

unfoldable pub dedup : List Bytes → List Bytes
unfolding dedup_from
dedup [] = []
dedup (w ∷ ws) = w ∷ dedup_from w ws

-- `strings.Join(ws, sep)`
unfoldable pub join : Bytes → List Bytes → Bytes
join sep [] = []
join sep (w ∷ []) = w
join sep (w ∷ v ∷ ws) = w ++ (sep ++ join sep (v ∷ ws))

unfoldable pub normalize_scope : Bytes → Bytes
unfolding fields sort_strings dedup join
normalize_scope s =
    let f = fields s in
    if leb (length f) 1 then join [] f else join (b' ' ∷ []) (dedup (sort_strings f))
