-- ===== src/ValidationCache/ActorExpiry.antt =====
-- validationcache.go, parseActorExpiry: the expiry that an actor carries, in one of the layouts that
-- the service writes or as seconds. The section's parameter is time.Parse, by layout and text.
use auth_sdk_go.Base.{
  ℕ, ◌+◌, ◌-◌, ◌*◌, ◌&&◌, List, [], ◌∷◌, Option, none, some, ltb, leb, ◌==◌, if◌then◌else◌,
}
use auth_sdk_go.Base.Text.{Bytes, bytes}
use auth_sdk_go.Base.Time.{unix}
use auth_sdk_go.Base.Space.{trim_space}

-- `strconv.ParseInt(s, 10, 64)` where it yields a positive number: digits, with an optional plus
-- sign, below 2^63.
parse_digits : ℕ → Bytes → Option ℕ
parse_digits n [] = some n
parse_digits n (c ∷ s) =
    let rest = parse_digits (10 * n + (c - b'0')) s in
    if leb b'0' c && leb c b'9' then rest else none

abbrev in_int64 : Option ℕ → Option ℕ
in_int64 none = none
in_int64 (some n) = if ltb 0 n && ltb n 0x8000000000000000 then some n else none

unfoldable parse_positive : Bytes → Option ℕ
unfolding parse_digits
parse_positive [] = none
parse_positive (c ∷ []) = in_int64 (parse_digits 0 (c ∷ []))
parse_positive (c ∷ d ∷ s) =
    in_int64 (if c == b'+' then parse_digits 0 (d ∷ s) else parse_digits 0 (c ∷ d ∷ s))

abbrev layouts : List Bytes
layouts =
    bytes "2006-01-02T15:04:05.999999999Z07:00"
    ∷ bytes "2006-01-02T15:04:05Z07:00"
    ∷ bytes "2006-01-02T15:04:05"
    ∷ bytes "2006-01-02 15:04:05"
    ∷ []

module _ (parse_time : Bytes → Bytes → Option ℕ) where
  unfoldable pub first_layout : List Bytes → Bytes → Option ℕ
  first_layout [] s = none
  first_layout (l ∷ ls) s = elim (parse_time l s) [ some t ↦ some t | none ↦ first_layout ls s ]

  unfoldable pub parse_actor_expiry : Bytes → Option ℕ
  unfolding first_layout parse_positive trim_space
  parse_actor_expiry text = elim (trim_space text) [
    | [] ↦ none
    | c ∷ s ↦ elim (first_layout layouts (c ∷ s)) [
      | some t ↦ some t
      | none ↦ elim (parse_positive (c ∷ s)) [ some secs ↦ some (unix secs) | none ↦ none ]
    ]
  ]
