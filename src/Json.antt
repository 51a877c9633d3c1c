-- ===== src/Json.antt =====
-- What the SDK reads out of a JSON text with encoding/json. The parser itself is a parameter of the
-- functions that use it, `Bytes → Option Json`; the typed decoding on top of it, the rules of
-- `json.Unmarshal` for the types that the source declares, is here. A number is held in billionths.
use auth_sdk_go.Base.{ℕ, ◌+◌, Bool, ◌&&◌, [], map, Option, none, some, leb, if◌then◌else◌, ℤ}
use auth_sdk_go.Base.Text.{Bytes, same}

mutual
  pub data Json : Type 0 where
    null : Json
    boolean : Bool → Json
    num : ℤ → Json
    str : Bytes → Json
    arr : Items → Json
    obj : Fields → Json

  pub data Items : Type 0 where
    nil : Items
    cons : Json → Items → Items

  pub data Fields : Type 0 where
    end : Fields
    field : Bytes → Json → Fields → Fields

-- ASCII lower case, as field names are matched.
to_lower : ℕ → ℕ
to_lower c = if leb b'A' c && leb c b'Z' then c + 32 else c

unfoldable pub fold : Bytes → Bytes
unfolding to_lower
fold s = map to_lower s

-- `map[string]any`: the last field of that very name, with `none` for a missing one.
unfoldable pub claim : Bytes → Fields → Option Json
claim k end = none
claim k (field j v fs) = elim (claim k fs) [
  | some w ↦ some w
  | none ↦ if same j k then some v else none
]

-- A struct member of type json.RawMessage: the last field whose name matches.
unfoldable pub raw_member : Bytes → Fields → Option Json
unfolding fold
raw_member k end = none
raw_member k (field j v fs) = elim (raw_member k fs) [
  | some w ↦ some w
  | none ↦ if same (fold j) k then some v else none
]

-- A struct member of type string, from its value so far: null leaves it, another type is an error.
unfoldable pub string_member : Bytes → Bytes → Fields → Option Bytes
unfolding fold
string_member k sofar end = some sofar
string_member k sofar (field j (str s) fs) =
    string_member k (if same (fold j) k then s else sofar) fs
string_member k sofar (field j null fs) = string_member k sofar fs
string_member k sofar (field j v fs) =
    let rest = string_member k sofar fs in if same (fold j) k then none else rest

-- `json.Unmarshal(raw, &s)` for a string: null is accepted and leaves it empty.
unfoldable pub as_string : Json → Option Bytes
as_string (str s) = some s
as_string null = some []
as_string _ = none

-- The members of a JSON value read as a struct: null is accepted and sets nothing.
unfoldable pub as_fields : Json → Option Fields
as_fields (obj fs) = some fs
as_fields null = some end
as_fields _ = none

-- The elements of a JSON value read as a slice: null is accepted and is the nil slice.
unfoldable pub as_items : Json → Option Items
as_items (arr xs) = some xs
as_items null = some nil
as_items _ = none
