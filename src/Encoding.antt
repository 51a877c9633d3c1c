-- ===== src/Encoding.antt =====
-- The length-prefixed fields that validationKey (validationcache.go) and tokenCacheKey
-- (tokenfor.go) hash, with strconv.Itoa for numbers that are not negative.
pub mod Injective
use auth_sdk_go.Base.{
  ℕ, zero, suc, ◌+◌, ◌/◌, ◌%◌, Bool, true, false, List, [], ◌∷◌, ◌++◌, ltb, if◌then◌else◌, length,
}
use auth_sdk_go.Base.Text.{Bytes, bytes}

-- `strconv.Itoa`, on fuel.
unfoldable pub itoa_fuel : ℕ → ℕ → Bytes
itoa_fuel zero n = []
itoa_fuel (suc f) n =
    let high = itoa_fuel f (n / 10) in
    if ltb n 10 then (b'0' + n) ∷ [] else high ++ (b'0' + n % 10) ∷ []

unfoldable pub itoa : ℕ → Bytes
unfolding itoa_fuel
itoa n = itoa_fuel (suc n) n

-- `strconv.FormatBool`
abbrev pub format_bool : Bool → Bytes
format_bool true = bytes "true"
format_bool false = bytes "false"

-- The length, a colon, the text, and the byte 0x1e.
unfoldable pub write_field : Bytes → Bytes
unfolding itoa
write_field s = itoa (length s) ++ (b':' ∷ (s ++ (0x1e ∷ [])))

unfoldable pub write_fields : List Bytes → Bytes
unfolding write_field
write_fields [] = []
write_fields (s ∷ ss) = write_field s ++ write_fields ss
