-- ===== src/LocalVerify/Header.antt =====
-- What the checks of a token's shape and header leave, and how a refusal is reported.
use mathlib.Core.List.{Mem, mem-cons_self, mem-cons_of_mem}
use auth_sdk_go.Base.{
  ◌⊎◌, inl, inr, List, ◌∷◌, Bool-cases, ◌||◌, ◌≤◌, ◌≡◌, refl, ap, subst, ◌∙◌, Bool, true, false,
  not, [], Option, none, some, is_some, leb, length, leb→le,
}
use auth_sdk_go.Base.Text.{Bytes, bytes, same, same_iff, is_empty}
use auth_sdk_go.Credential.{looks_like_jwt, split}
use auth_sdk_go.Errors.{
  Err, access_token, is_invalid_access_token, malformed, too_large, unsupported_alg,
  unsupported_header, missing_kid,
}
use auth_sdk_go.Json.{fold, Fields, raw_member, string_member}
use auth_sdk_go.LocalVerify.{
  Check, pass, refuse, or_refuse, AccessTokenClaims, max_local_verify_token_bytes,
}
use auth_sdk_go.LocalVerify.Verify.{
  pointer_member, is_rs256, accepts_typ, Shape, check_parts, check_shape, check_header, verified,
  not_verified, invalid_token,
}
use auth_sdk_go.LocalVerify.Sound.{or_refuse-pass, bind-pass, guard-pass, pass-injective}

is_rs256_eq : (o : Option Bytes) → is_rs256 o ≡ true → o ≡ some (bytes "RS256")
is_rs256_eq none e = absurd cc
is_rs256_eq (some a) e = ap some ((same_iff a (bytes "RS256")).0 e)

-- The types that a header may name, whatever their letters' case, if it names one.
abbrev IsAccessType : Bytes → Type 0
IsAccessType typ =
    (is_empty typ ≡ true)
    ⊎ Mem (fold typ) (bytes "jwt" ∷ bytes "at+jwt" ∷ bytes "application/at+jwt" ∷ [])

listed :
    (b : Bool) (s t : Bytes) (ts : List Bytes)
    → (b ≡ true → Mem s ts)
    → (same s t || b) ≡ true
    → Mem s (t ∷ ts)
listed b s t ts f e = elim (Bool-cases (same s t)) [
  | inl k ↦ subst (λ u. Mem s (u ∷ ts)) ((same_iff s t).0 k) mem-cons_self
  | inr k ↦ mem-cons_of_mem t (f (rw k at e))
]

accepts_typ-IsAccessType : (typ : Bytes) → accepts_typ typ ≡ true → IsAccessType typ
unfolding accepts_typ
accepts_typ-IsAccessType typ e = elim (Bool-cases (is_empty typ)) [
  | inl b ↦ inl b
  | inr b ↦
      let last = bytes "application/at+jwt" in
      inr (
        listed _ (fold typ) (bytes "jwt") _
          (listed _ (fold typ) (bytes "at+jwt") _ λ k.
            subst (λ u. Mem (fold typ) (u ∷ [])) ((same_iff (fold typ) last).0 k) mem-cons_self)
          (rw b at e))
]

-- A header that passes names RS256 as its algorithm, lists no critical extension, has a key id, and
-- names no type but those of an access token.
pub record IsHeader (fs : Fields) (kid : Bytes) : Type 0 where
  pub alg : pointer_member (bytes "alg") none fs ≡ some (some (bytes "RS256"))
  pub kid_member : string_member (bytes "kid") [] fs ≡ some kid
  pub no_crit : is_some (raw_member (bytes "crit") fs) ≡ false
  pub kid_present : is_empty kid ≡ false
  pub typ : Bytes
  pub typ_member : string_member (bytes "typ") [] fs ≡ some typ
  pub access_type : IsAccessType typ

negated : (b : Bool) → not b ≡ true → b ≡ false
negated true e = absurd cc
negated false e = refl

pub check_header-IsHeader :
    (fs : Fields) (kid : Bytes) → check_header fs ≡ pass kid → IsHeader fs kid
unfolding check_header
check_header-IsHeader fs kid e =
    let (alg, a, e1) =
      bind-pass (or_refuse malformed (pointer_member (bytes "alg") none fs)) _ kid e in
    let (k, b, e2) = bind-pass (or_refuse malformed (string_member (bytes "kid") [] fs)) _ kid e1 in
    let (typ, c, e3) =
      bind-pass (or_refuse malformed (string_member (bytes "typ") [] fs)) _ kid e2 in
    let (rs, e4) = guard-pass (is_rs256 alg) unsupported_alg _ kid e3 in
    let (crit, e5) =
      guard-pass (not (is_some (raw_member (bytes "crit") fs))) unsupported_header _ kid e4 in
    let (type, e6) = guard-pass (accepts_typ typ) unsupported_header _ kid e5 in
    let (present, e7) = guard-pass (not (is_empty k)) missing_kid _ kid e6 in
    subst (IsHeader fs) (pass-injective k kid e7) (record {
      alg = or_refuse-pass _ _ _ a ∙ ap some (is_rs256_eq alg rs);
      kid_member = or_refuse-pass _ _ _ b;
      no_crit = negated _ crit;
      kid_present = negated _ present;
      typ = typ;
      typ_member = or_refuse-pass _ _ _ c;
      access_type = accepts_typ-IsAccessType typ type;
    })

pub check_shape_lem :
    (token : Bytes) (s : Shape)
    → check_shape token ≡ pass s
    → (length token ≤ 16384)
      × (looks_like_jwt token ≡ true)
      × (check_parts (split b'.' token) ≡ pass s)
unfolding check_shape
check_shape_lem token s e =
    let (a, e1) = guard-pass (leb (length token) max_local_verify_token_bytes) too_large _ s e in
    let (b, e2) = guard-pass (looks_like_jwt token) malformed _ s e1 in (leb→le _ _ a, b, e2)

pub invalid_token-verified :
    (m : Check AccessTokenClaims) (c : AccessTokenClaims)
    → invalid_token m ≡ verified c
    → m ≡ pass c
invalid_token-verified (pass d) c e = cc
invalid_token-verified (refuse r) c e = absurd cc

pub blamed : (x y : Err) → not_verified x ≡ not_verified y → x ≡ y
blamed x y e = cc

pub invalid_token-invalid :
    (m : Check AccessTokenClaims) (x : Err)
    → invalid_token m ≡ not_verified x
    → is_invalid_access_token x ≡ true
unfolding is_invalid_access_token
invalid_token-invalid (pass d) x e = absurd cc
invalid_token-invalid (refuse r) x e =
    subst (λ y. is_invalid_access_token y ≡ true) (blamed (access_token r) x e) refl
