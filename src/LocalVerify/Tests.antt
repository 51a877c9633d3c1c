-- ===== src/LocalVerify/Tests.antt =====
-- Local verification of concrete tokens. The keys and the parsers are made up; base64 is real.
use auth_sdk_go.Base.{ℕ, ◌*◌, ◌≡◌, refl, Bool, true, false, [], ◌∷◌, Option, none, some, pos}
use auth_sdk_go.Base.Text.{Bytes, bytes, has_byte, same}
use auth_sdk_go.Base.Assoc.{lookup, insert}
use auth_sdk_go.Base.Time.{second, unix}
use auth_sdk_go.Actor.{contains_string}
use auth_sdk_go.Credential.{looks_like_jwt, split}
use auth_sdk_go.Errors.{other, access_token, expired, token_type, unsupported_alg}
use auth_sdk_go.Json.{
  Json, num, str, obj, end, field, claim, fold, string_member, raw_member, as_fields,
}
use auth_sdk_go.Jwks.{
  Jwk, Cache, new_jwks_cache, fetched_keys, fetch_failed, get, get_entry, entry, fetch_locked,
  evict_if_full, key, refresh_for_unknown_kid,
}
use auth_sdk_go.LocalVerify.{
  LocalVerifyOptions, AccessTokenClaims, clamp_leeway, numeric_date, audience_claim, scope_claim,
  string_claim, actor_claim, refuse,
}
use auth_sdk_go.LocalVerify.Segment.{
  PublicKey, token_segment, decode_string, sextets, octets, rsa_public_key, key_of, b64url,
}
use auth_sdk_go.LocalVerify.Claims.{
  check_claims, check_times, check_expiry, check_start, read_texts, accepted_issuers,
  accepts_issuer, accepts_audience, accepts_type,
}
use auth_sdk_go.LocalVerify.Verify.{
  Surroundings, Verdict, not_verified, verify_access_token_local, verify_checked, verify_keyed,
  check_token, check_shape, check_parts, check_header, pointer_member, accepts_typ, find_key,
  check_signature,
}
use auth_sdk_go.LocalVerify.Canonical.{encode, encode-token_segment}

abbrev big_modulus : Bytes
big_modulus =
    bytes
      "gAAAAAAAAAAAAAAAAAAAAAAAAAAAAAAAAAAAAAAAAAAAAAAAAAAAAAAAAAAAAAAAAAAAAAAAAAAAAAAAAAAAAAAAAAAAAAAAAAAAAAAAAAAAAAAAAAAAAAAAAAAAAAAAAAAAAAAAAAAAAAAAAAAAAAAAAAAAAAAAAAAAAAAAAAAAAAAAAAAAAAAAAAAAAAAAAAAAAAAAAAAAAAAAAAAAAAAAAAAAAAAAAAAAAAAAAAAAAAAAAAAAAAAAAAAAAAAAAAAAAAAAAAAAAAAAAAAAAAAAAAAAAAAAAAAAAAAAAAAAAAAAAAAAAAAAAAAAAAAAAAAAAAAAAAAAAAAAAAAAAA"

abbrev signing_key : Jwk
signing_key = record {
  kty = bytes "RSA";
  use_ = bytes "sig";
  kid = bytes "k1";
  alg = bytes "RS256";
  n = big_modulus;
  e = bytes "AQAB";
}

abbrev at : ℕ → Surroundings
at t = record {
  get_now = unix t;
  get_later = unix t;
  get_answer = fetched_keys (signing_key ∷ []);
  refresh_now = unix t;
  refresh_later = unix t;
  refresh_answer = fetch_failed (other 1);
  now = unix t;
}

abbrev down : Surroundings
down = record (at 1000) { get_answer = fetch_failed (other 5) }

abbrev header_of : Bytes → Bytes → Option Json
header_of alg text =
    some (obj (field (bytes "alg") (str alg) (field (bytes "kid") (str (bytes "k1")) end)))

abbrev claims_of : Bytes → Bytes → Option Json
claims_of type text = some (
    obj (
      field (bytes "exp") (num (pos (2000 * second))) (
        field (bytes "iss") (str (bytes "ab0t-auth-service")) (
          field (bytes "aud") (str (bytes "api"))
            (field (bytes "sub") (str (bytes "u1")) (field (bytes "type") (str type) end))))))

abbrev hash : Bytes → Bytes
hash s = s

abbrev any_signature : PublicKey → Bytes → Bytes → Bool
any_signature k digest sig = true

abbrev options : LocalVerifyOptions
options = record { audience = bytes "api"; issuers = []; leeway = pos 0; allow_delegation = false }

abbrev token : Bytes
token = bytes "AA.AA.AA"

abbrev run_at : Bytes → Surroundings → Cache × Verdict
run_at type w =
    verify_access_token_local (header_of (bytes "RS256")) (claims_of type) hash any_signature
      (bytes "https://auth") [] w options token new_jwks_cache

abbrev expected : AccessTokenClaims
expected = record {
  subject = bytes "u1";
  email = [];
  name = [];
  org_id = [];
  issuer = bytes "ab0t-auth-service";
  audience = bytes "api" ∷ [];
  expires_at = unix 2000;
  issued_at = 0;
  not_before = 0;
  session_id = [];
  type = bytes "access";
  client_id = [];
  scope = [];
  actor = none;
  key_id = bytes "k1";
  raw = field (bytes "exp") (num (pos (2000 * second))) (
      field (bytes "iss") (str (bytes "ab0t-auth-service")) (
        field (bytes "aud") (str (bytes "api")) (
          field (bytes "sub") (str (bytes "u1"))
            (field (bytes "type") (str (bytes "access")) end))));
}

refuses_expired : (run_at (bytes "access") (at 2030)).1 ≡ not_verified (access_token expired)
unfolding verify_access_token_local verify_checked verify_keyed check_token check_shape check_parts
    check_header pointer_member accepts_typ find_key check_signature check_claims check_times
    check_expiry check_start read_texts accepted_issuers accepts_issuer accepts_audience
    accepts_type clamp_leeway numeric_date audience_claim scope_claim string_claim actor_claim
    token_segment decode_string sextets octets rsa_public_key key_of b64url get get_entry entry
    fetch_locked evict_if_full key looks_like_jwt split claim string_member raw_member fold same
    lookup insert contains_string refresh_for_unknown_kid as_fields
refuses_expired = refl

refuses_refresh : (run_at (bytes "refresh") (at 1000)).1 ≡ not_verified (access_token token_type)
unfolding verify_access_token_local verify_checked verify_keyed check_token check_shape check_parts
    check_header pointer_member accepts_typ find_key check_signature check_claims check_times
    check_expiry check_start read_texts accepted_issuers accepts_issuer accepts_audience
    accepts_type clamp_leeway numeric_date audience_claim scope_claim string_claim actor_claim
    token_segment decode_string sextets octets rsa_public_key key_of b64url get get_entry entry
    fetch_locked evict_if_full key looks_like_jwt split claim string_member raw_member fold same
    lookup insert contains_string refresh_for_unknown_kid as_fields
refuses_refresh = refl

reports_outage : (run_at (bytes "access") down).1 ≡ not_verified (other 5)
unfolding verify_access_token_local verify_checked verify_keyed check_token check_shape check_parts
    check_header pointer_member accepts_typ find_key check_signature check_claims check_times
    check_expiry check_start read_texts accepted_issuers accepts_issuer accepts_audience
    accepts_type clamp_leeway numeric_date audience_claim scope_claim string_claim actor_claim
    token_segment decode_string sextets octets rsa_public_key key_of b64url get get_entry entry
    fetch_locked evict_if_full key looks_like_jwt split claim string_member raw_member fold same
    lookup insert contains_string refresh_for_unknown_kid as_fields
reports_outage = refl

hs256_refused :
    check_token (header_of (bytes "HS256")) (claims_of (bytes "access")) hash any_signature token
    ≡ refuse unsupported_alg
unfolding verify_access_token_local verify_checked verify_keyed check_token check_shape check_parts
    check_header pointer_member accepts_typ find_key check_signature check_claims check_times
    check_expiry check_start read_texts accepted_issuers accepts_issuer accepts_audience
    accepts_type clamp_leeway numeric_date audience_claim scope_claim string_claim actor_claim
    token_segment decode_string sextets octets rsa_public_key key_of b64url get get_entry entry
    fetch_locked evict_if_full key looks_like_jwt split claim string_member raw_member fold same
    lookup insert contains_string refresh_for_unknown_kid as_fields
hs256_refused = refl

hello : token_segment (bytes "aGVsbG8") ≡ some (bytes "hello")
unfolding token_segment decode_string sextets octets has_byte
hello = refl

-- The same bytes with other bits left over.
hello_sloppy : token_segment (bytes "aGVsbG9") ≡ none
unfolding token_segment decode_string sextets octets has_byte
hello_sloppy = refl

encode-token_segment_example : encode (bytes "hello") ≡ bytes "aGVsbG8"
unfolding has_byte
encode-token_segment_example =
    encode-token_segment (bytes "aGVsbG8") (bytes "hello") refl refl hello
