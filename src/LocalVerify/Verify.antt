-- ===== src/LocalVerify/Verify.antt =====
-- localverify.go: VerifyAccessTokenLocal. The JSON parser, the JSON decoder that reads one value,
-- SHA-256 and the RSA check are parameters.
use auth_sdk_go.Base.{
  ℕ, Bool, false, not, ◌||◌, List, [], ◌∷◌, ◌++◌, Option, none, some, is_some, leb, if◌then◌else◌,
  length,
}
use auth_sdk_go.Base.Text.{Bytes, bytes, same, is_empty}
use auth_sdk_go.Credential.{looks_like_jwt, split}
use auth_sdk_go.Errors.{
  Err, access_token, malformed, too_large, unsupported_alg, unsupported_header, missing_kid,
  unknown_kid, unsupported_key, bad_signature,
}
use auth_sdk_go.Json.{
  Json, null, str, Fields, end, field, fold, raw_member, string_member, as_fields,
}
use auth_sdk_go.Jwks.{
  Jwk, key, Cache, Fetched, fetched_keys, fetch_failed, get, refresh_for_unknown_kid,
}
use auth_sdk_go.LocalVerify.{
  Check, pass, refuse, ◌>>=◌, ◌>>◌, guard, or_refuse, LocalVerifyOptions, AccessTokenClaims,
  max_local_verify_token_bytes,
}
use auth_sdk_go.LocalVerify.Segment.{PublicKey, token_segment, rsa_public_key}
use auth_sdk_go.LocalVerify.Claims.{check_claims}

-- A struct member of type *string, from its value so far.
unfoldable pub pointer_member : Bytes → Option Bytes → Fields → Option (Option Bytes)
unfolding fold same
pointer_member k sofar end = some sofar
pointer_member k sofar (field j (str s) fs) =
    pointer_member k (if same (fold j) k then some s else sofar) fs
pointer_member k sofar (field j null fs) =
    pointer_member k (if same (fold j) k then none else sofar) fs
pointer_member k sofar (field j v fs) =
    let rest = pointer_member k sofar fs in if same (fold j) k then none else rest

-- A token's three segments, decoded, and the text that is signed.
pub record Shape : Type 0 where
  pub header : Bytes
  pub payload : Bytes
  pub signature : Bytes
  pub signed : Bytes

unfoldable pub check_parts : List Bytes → Check Shape
check_parts (a ∷ b ∷ c ∷ []) = do
  header ← or_refuse malformed (token_segment a)
  payload ← or_refuse malformed (token_segment b)
  sig ← or_refuse malformed (token_segment c)
  pass (record { header = header; payload = payload; signature = sig; signed = a ++ b'.' ∷ b })
check_parts _ = refuse malformed

unfoldable pub check_shape : Bytes → Check Shape
check_shape token = do
  guard (leb (length token) max_local_verify_token_bytes) too_large
  guard (looks_like_jwt token) malformed
  check_parts (split b'.' token)

abbrev pub is_rs256 : Option Bytes → Bool
is_rs256 none = false
is_rs256 (some alg) = same alg (bytes "RS256")

unfoldable pub accepts_typ : Bytes → Bool
unfolding fold same
accepts_typ typ =
    is_empty typ
    || (same (fold typ) (bytes "jwt")
        || (same (fold typ) (bytes "at+jwt") || same (fold typ) (bytes "application/at+jwt")))

-- The header's checks; what passes is the key id.
unfoldable pub check_header : Fields → Check Bytes
check_header fs = do
  alg ← or_refuse malformed (pointer_member (bytes "alg") none fs)
  kid ← or_refuse malformed (string_member (bytes "kid") [] fs)
  typ ← or_refuse malformed (string_member (bytes "typ") [] fs)
  guard (is_rs256 alg) unsupported_alg
  guard (not (is_some (raw_member (bytes "crit") fs))) unsupported_header
  guard (accepts_typ typ) unsupported_header
  guard (not (is_empty kid)) missing_kid
  pass kid

-- `json.Unmarshal` into a struct, or into a map that null leaves empty.
abbrev pub fields_of : Option Json → Option Fields
fields_of none = none
fields_of (some v) = as_fields v

abbrev pub jwks_path : Bytes
jwks_path = bytes "/.well-known/jwks.json"

-- The clock's readings and the service's answers for one call.
pub record Surroundings : Type 0 where
  pub get_now : ℕ
  pub get_later : ℕ
  pub get_answer : Fetched
  pub refresh_now : ℕ
  pub refresh_later : ℕ
  pub refresh_answer : Fetched
  pub now : ℕ

-- `(*AccessTokenClaims, error)`
pub data Verdict : Type 0 where
  verified : AccessTokenClaims → Verdict
  not_verified : Err → Verdict

abbrev pub invalid_token : Check AccessTokenClaims → Verdict
invalid_token (pass c) = verified c
invalid_token (refuse r) = not_verified (access_token r)

-- The key of the id: an error of the key set is passed on as it is.
pub data Keyed : Type 0 where
  keyed : Option Jwk → Keyed
  unavailable : Err → Keyed

unfoldable pub find_key : Surroundings → (kid : Bytes) → Cache → Cache × Keyed
find_key w kid c =
    let (c', found, _) = get jwks_path w.get_now w.get_later false w.get_answer c in
    elim found [
      | fetch_failed err ↦ (c', unavailable err)
      | fetched_keys set ↦ elim (key kid set) [
        | some k ↦ (c', keyed (some k))
        | none ↦
            (let (c'', again, did) =
                refresh_for_unknown_kid jwks_path w.refresh_now w.refresh_later w.refresh_answer
                  c' in
              elim again [
                | fetch_failed err ↦ (c'', unavailable err)
                | fetched_keys refreshed ↦ (c'', keyed (if did then key kid refreshed else none))
              ])
      ]
    ]

module _ (parse_json decode_json : Bytes → Option Json) (sha256 : Bytes → Bytes)
    (verify_pkcs1v15 : PublicKey → (digest sig : Bytes) → Bool) where
  unfoldable pub check_token : Bytes → Check (Shape × Bytes)
  check_token token = do
    shape ← check_shape token
    fs ← or_refuse malformed (fields_of (parse_json shape.header))
    kid ← check_header fs
    pass (shape, kid)

  unfoldable pub check_signature : Shape → Option Jwk → Check Fields
  check_signature shape found = do
    k ← or_refuse unknown_kid found
    pub_key ← or_refuse unsupported_key (rsa_public_key k)
    guard (verify_pkcs1v15 pub_key (sha256 shape.signed) shape.signature) bad_signature
    or_refuse malformed (fields_of (decode_json shape.payload))

  module _ (base_url jwt_audience : Bytes) (w : Surroundings) (opts : LocalVerifyOptions) where
    -- From the key on: `refuse`, above, is the end without one.
    unfoldable pub verify_keyed : Shape → (kid : Bytes) → Keyed → Verdict
    verify_keyed shape kid (unavailable err) = not_verified err
    verify_keyed shape kid (keyed found) = invalid_token (
        check_signature shape found >>= λ raw.
        check_claims opts base_url jwt_audience kid w.now raw)

    unfoldable pub verify_checked : Check (Shape × Bytes) → Cache → Cache × Verdict
    verify_checked (refuse r) c = (c, not_verified (access_token r))
    verify_checked (pass (shape, kid)) c =
        let (c', found) = find_key w kid c in (c', verify_keyed shape kid found)

    -- The client's base URL and expected audience, and its key set cache.
    unfoldable pub verify_access_token_local : Bytes → Cache → Cache × Verdict
    verify_access_token_local token c = verify_checked (check_token token) c
