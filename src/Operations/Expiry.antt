-- ===== src/Operations/Expiry.antt =====
-- tokenfor.go: unverifiedJWTExpiry. The JSON parser, and the reading of a number in a string, are
-- parameters.
use auth_sdk_go.Base.{
  ℕ, ◌/◌, not, ◌&&◌, is_some, List, ◌∷◌, Option, none, some, ℤ, pos, negsuc, if◌then◌else◌, ◌==◌,
}
use auth_sdk_go.Base.Text.{Bytes, bytes, same}
use auth_sdk_go.Base.Time.{second, unix}
use auth_sdk_go.Credential.{looks_like_jwt, split}
use auth_sdk_go.Json.{Json, null, num, str, Fields, end, field, fold, as_fields}
use auth_sdk_go.LocalVerify.Segment.{b64url}

module _ (parse_json : Bytes → Option Json) (parse_number : Bytes → Option ℤ) where
  -- A struct member of type json.Number, from its value so far: a string that is a number will do.
  unfoldable pub number_member : Bytes → Option ℤ → Fields → Option (Option ℤ)
  number_member k sofar end = some sofar
  number_member k sofar (field j (num z) fs) =
      number_member k (if same (fold j) k then some z else sofar) fs
  number_member k sofar (field j null fs) = number_member k sofar fs
  number_member k sofar (field j (str s) fs) =
      let matches = same (fold j) k in
      let read = parse_number s in
      let rest = number_member k (if matches then read else sofar) fs in
      if matches && not (is_some read) then none else rest
  number_member k sofar (field j v fs) =
      let rest = number_member k sofar fs in if same (fold j) k then none else rest

  -- 0 is the zero time.
  abbrev pub expiry_time : Option (Option ℤ) → ℕ
  expiry_time none = 0
  expiry_time (some none) = 0
  expiry_time (some (some (negsuc n))) = 0
  expiry_time (some (some (pos n))) = if n == 0 then 0 else unix (n / second)

  abbrev pub payload_fields : Option Bytes → Option Fields
  payload_fields none = none
  payload_fields (some raw) = elim (parse_json raw) [ none ↦ none | some j ↦ as_fields j ]

  abbrev pub expiry_of_fields : Option Fields → ℕ
  expiry_of_fields none = 0
  expiry_of_fields (some fs) = expiry_time (number_member (bytes "exp") none fs)

  abbrev pub expiry_of_parts : List Bytes → ℕ
  expiry_of_parts (a ∷ b ∷ ps) = expiry_of_fields (payload_fields (b64url b))
  expiry_of_parts _ = 0

  unfoldable pub unverified_jwt_expiry : Bytes → ℕ
  unverified_jwt_expiry tok = if looks_like_jwt tok then expiry_of_parts (split b'.' tok) else 0
