-- ===== src/LocalVerify/Signed.antt =====
-- What VerifyAccessTokenLocal returns: when a token is verified, and which errors blame the token.
use mathlib.Core.List.{Mem}
use auth_sdk_go.Base.{
  [], ◌∷◌, ◌++◌, All, false, ◌≤◌, ◌≡◌, refl, ap, subst, Bool, true, Option, some, length, inl, inr,
  ◌⊎◌,
}
use auth_sdk_go.Base.Text.{Bytes, has_byte}
use auth_sdk_go.Credential.{looks_like_jwt}
use auth_sdk_go.Errors.{Err, Reason, access_token, is_invalid_access_token}
use auth_sdk_go.Json.{Json, Fields}
use auth_sdk_go.Jwks.{Jwk, Jwks, Cache}
use auth_sdk_go.LocalVerify.{Check, pass, refuse, LocalVerifyOptions, AccessTokenClaims}
use auth_sdk_go.LocalVerify.Segment.{PublicKey, token_segment, rsa_public_key}
use auth_sdk_go.LocalVerify.Verify.{
  Shape, fields_of, check_token, Surroundings, Verdict, not_verified, Keyed, keyed, unavailable,
  find_key, verify_keyed, verify_checked, verify_access_token_local,
}
use auth_sdk_go.LocalVerify.KeySet.{Offered}
use auth_sdk_go.LocalVerify.Accepted.{IsAccepted}
use auth_sdk_go.LocalVerify.Header.{IsHeader, invalid_token-invalid, blamed}

module _ (parse_json decode_json : Bytes → Option Json) (sha256 : Bytes → Bytes)
    (verify_pkcs1v15 : PublicKey → (digest sig : Bytes) → Bool) (base_url jwt_audience : Bytes)
    (w : Surroundings) where
  -- What is known of a token that is verified, and of the claims that are returned for it.
  pub record IsSigned (token : Bytes) (c : Cache) (opts : LocalVerifyOptions)
      (claims : AccessTokenClaims) : Type 0 where
    pub size : length token ≤ 16384
    pub jwt : looks_like_jwt token ≡ true
    -- the segments, with no dot in them, and what they decode to
    pub first : Bytes
    pub second : Bytes
    pub third : Bytes
    pub cut : token ≡ first ++ b'.' ∷ (second ++ b'.' ∷ third)
    pub plain : All (λ s. has_byte b'.' s ≡ false) (first ∷ second ∷ third ∷ [])
    pub header_text : Bytes
    pub payload_text : Bytes
    pub mark : Bytes
    pub segments :
        (token_segment first ≡ some header_text)
        × (token_segment second ≡ some payload_text)
        × (token_segment third ≡ some mark)
    pub header : Fields
    pub header_fields : fields_of (parse_json header_text) ≡ some header
    pub kid : Bytes
    pub good_header : IsHeader header kid
    -- the key: of the header's id, and in a set that was cached or served
    pub jwk : Jwk
    pub has_id : jwk.kid ≡ kid
    pub set : Jwks
    pub member : Mem jwk set
    pub offered : Offered w c set
    pub public : PublicKey
    pub is_key : rsa_public_key jwk ≡ some public
    -- the signature is over the first two segments with the dot between them
    pub signature : verify_pkcs1v15 public (sha256 (first ++ b'.' ∷ second)) mark ≡ true
    pub raw : Fields
    pub payload : fields_of (decode_json payload_text) ≡ some raw
    pub accepted : IsAccepted opts base_url jwt_audience kid w.now raw claims

  abbrev checked : Bytes → Check (Shape × Bytes)
  checked = check_token parse_json decode_json sha256 verify_pkcs1v15

  abbrev verify : LocalVerifyOptions → Bytes → Cache → Cache × Verdict
  verify =
      verify_access_token_local parse_json decode_json sha256 verify_pkcs1v15 base_url jwt_audience
        w

  abbrev with_key : LocalVerifyOptions → Shape → Bytes → Keyed → Verdict
  with_key = verify_keyed parse_json decode_json sha256 verify_pkcs1v15 base_url jwt_audience w

  with_key-invalid :
      (opts : LocalVerifyOptions) (s : Shape) (kid : Bytes) (k : Keyed) (x : Err)
      → with_key opts s kid k ≡ not_verified x
      → (is_invalid_access_token x ≡ true) ⊎ (k ≡ unavailable x)
  unfolding verify_keyed
  with_key-invalid opts s kid (unavailable err) x e = inr (ap unavailable (blamed err x e))
  with_key-invalid opts s kid (keyed found) x e = inl (invalid_token-invalid _ x e)

  -- An error is a verdict on the token, or the key set's error for a token whose own checks pass.
  abbrev pub Blames : Bytes → Cache → Cache × Verdict → Err → Type 0
  Blames token c result x =
      ((is_invalid_access_token x ≡ true)
        ⊎ ((s : Shape) × ((kid : Bytes) × (checked token ≡ pass (s, kid))
              × (find_key w kid c ≡ (result.0, unavailable x)))))

  checked-Blames :
      (opts : LocalVerifyOptions) (token : Bytes) (m : Check (Shape × Bytes)) (c : Cache) (x : Err)
      → checked token ≡ m
      → let result =
          verify_checked parse_json decode_json sha256 verify_pkcs1v15 base_url jwt_audience w opts
            m c in
        result.1 ≡ not_verified x → Blames token c result x
  unfolding verify_checked is_invalid_access_token
  checked-Blames opts token (refuse r) c x k e =
      inl (subst (λ y. is_invalid_access_token y ≡ true) (blamed (access_token r) x e) refl)
  checked-Blames opts token (pass (s, kid)) c x k e =
      elim (with_key-invalid opts s kid (find_key w kid c).1 x e) [
        | inl b ↦ inl b
        | inr b ↦ inr (s, (kid, k, ap (λ y. ((find_key w kid c).0, y)) b))
      ]

  -- An error blames the token, as ErrInvalidAccessToken, or else the token has passed the checks of
  -- its shape and header and the error is the one that the lookup of its key met, unchanged.
  pub verify-Blames :
      (opts : LocalVerifyOptions) (token : Bytes) (c : Cache) (x : Err)
      → let result =
          verify_access_token_local parse_json decode_json sha256 verify_pkcs1v15 base_url
            jwt_audience w opts token c in
        result.1 ≡ not_verified x → Blames token c result x
  unfolding verify_access_token_local
  verify-Blames opts token c x e = checked-Blames opts token (checked token) c x refl e

  -- A token whose shape or header is refused costs no look at the key set: the cache is left as it
  -- was, whatever the surroundings, and the error is the one for that check.
  pub verify_refused :
      (opts : LocalVerifyOptions) (token : Bytes) (c : Cache) (r : Reason)
      → check_token parse_json decode_json sha256 verify_pkcs1v15 token ≡ refuse r
      → verify_access_token_local parse_json decode_json sha256 verify_pkcs1v15 base_url
          jwt_audience w opts token c
        ≡ (c, not_verified (access_token r))
  unfolding verify_access_token_local verify_checked
  verify_refused opts token c r e =
      ap
        (λ m.
          verify_checked parse_json decode_json sha256 verify_pkcs1v15 base_url jwt_audience w opts
            m c)
        e
