-- ===== src/LocalVerify/Accepted.antt =====
-- What the checks of the claims leave: whom the token is from and for, and what it is.
use mathlib.Core.List.{Mem, mem-cons_self, mem-cons_of_mem}
use auth_sdk_go.Base.{
  ◌⊎◌, inl, inr, List, [], ◌∷◌, Bool-cases, if◌then◌else◌, ℕ, ◌≡◌, refl, subst, Bool, true, false,
  not, ◌||◌, Option, some, is_some, arith,
}
use auth_sdk_go.Base.Text.{Bytes, bytes, same, same_iff, is_empty}
use auth_sdk_go.Actor.{contains_string}
use auth_sdk_go.Errors.{malformed, missing_claim, issuer, audience, token_type}
use auth_sdk_go.Json.{Fields, claim}
use auth_sdk_go.LocalVerify.{
  pass, or_refuse, LocalVerifyOptions, AccessTokenClaims, clamp_leeway, audience_claim, scope_claim,
  actor_claim,
}
use auth_sdk_go.LocalVerify.Claims.{
  check_times, read_texts, accepted_issuers, accepts_issuer, wanted_audience, accepts_audience,
  accepts_type, delegation, check_claims,
}
use auth_sdk_go.LocalVerify.Sound.{
  bind-pass, guard-pass, pass-injective, or_refuse-pass, Current, check_times-Current, TextsOf,
  read_texts-TextsOf,
}

contains_string-Mem : (xs : List Bytes) (s : Bytes) → contains_string xs s ≡ true → Mem s xs
unfolding contains_string
contains_string-Mem [] s e = absurd cc
contains_string-Mem (x ∷ xs) s e = elim (Bool-cases (same x s)) [
  | inl b ↦ subst (λ t. Mem t (x ∷ xs)) ((same_iff x s).0 b) mem-cons_self
  | inr b ↦ mem-cons_of_mem x (contains_string-Mem xs s (rw b at e))
]

is_empty_eq : (s : Bytes) → is_empty s ≡ true → s ≡ []
is_empty_eq [] e = refl
is_empty_eq (c ∷ s) e = absurd cc

-- The issuers that a token may name: those given, or else the default two.
abbrev IssuedBy : List Bytes → (base_url : Bytes) → Bytes → Type 0
IssuedBy [] base_url iss = Mem iss (bytes "ab0t-auth-service" ∷ base_url ∷ [])
IssuedBy (i ∷ is) base_url iss = Mem iss (i ∷ is)

accepts_issuer-IssuedBy :
    (issuers : List Bytes) (base_url iss : Bytes)
    → accepts_issuer (accepted_issuers issuers base_url) iss ≡ true
    → (is_empty iss ≡ false) × IssuedBy issuers base_url iss
unfolding accepts_issuer accepted_issuers
accepts_issuer-IssuedBy [] base_url iss e =
    (ground (arith, e), contains_string-Mem _ iss (ground (arith, e)))
accepts_issuer-IssuedBy (i ∷ is) base_url iss e =
    (ground (arith, e), contains_string-Mem (i ∷ is) iss (ground (arith, e)))

-- The audience that is wanted, if one is, is among those of the token.
abbrev IsFor : (wanted : Bytes) → List Bytes → Type 0
IsFor wanted aud = (wanted ≡ []) ⊎ Mem wanted aud

accepts_audience-IsFor :
    (wanted : Bytes) (aud : List Bytes) → accepts_audience wanted aud ≡ true → IsFor wanted aud
unfolding accepts_audience
accepts_audience-IsFor wanted aud e = elim (Bool-cases (is_empty wanted)) [
  | inl b ↦ inl (is_empty_eq wanted b)
  | inr b ↦ inr (contains_string-Mem aud wanted (ground (arith, e, b)))
]

-- An access token, or a delegation with its actor where it is allowed.
abbrev IsTyped : (allow_delegation : Bool) → Bytes → Option Fields → Type 0
IsTyped allow_delegation type actor =
    (type ≡ [])
    ⊎ ((type ≡ bytes "access")
        ⊎ ((type ≡ bytes "delegation") × (allow_delegation ≡ true) × (is_some actor ≡ true)))

accepts_type-IsTyped :
    (allow_delegation : Bool) (type : Bytes) (actor : Option Fields)
    → accepts_type allow_delegation type ≡ true
    → (not (same type delegation) || is_some actor) ≡ true
    → IsTyped allow_delegation type actor
unfolding accepts_type
accepts_type-IsTyped allow_delegation type actor e k =
    ground
      (arith, is_empty_eq type, same_iff type (bytes "access"), same_iff type (bytes "delegation"))

-- What a caller may rely on about the claims of a token that is good at `t`: each is what the payload
-- `raw` says.
pub record IsAccepted (opts : LocalVerifyOptions) (base_url jwt_audience kid : Bytes) (t : ℕ)
    (raw : Fields) (c : AccessTokenClaims) : Type 0 where
  pub current : Current raw t (clamp_leeway opts.leeway) c.expires_at c.not_before c.issued_at
  pub texts : TextsOf raw (record {
    issuer = c.issuer;
    subject = c.subject;
    type = c.type;
    email = c.email;
    name = c.name;
    org_id = c.org_id;
    session_id = c.session_id;
    client_id = c.client_id;
  })
  pub audience : audience_claim (claim (bytes "aud") raw) ≡ some c.audience
  pub scope : scope_claim (claim (bytes "scope") raw) ≡ some c.scope
  pub actor : actor_claim (claim (bytes "act") raw) ≡ pass c.actor
  pub issuer : (is_empty c.issuer ≡ false) × IssuedBy opts.issuers base_url c.issuer
  pub for_us : IsFor (if is_empty opts.audience then jwt_audience else opts.audience) c.audience
  pub has_subject : is_empty c.subject ≡ false
  pub typed : IsTyped opts.allow_delegation c.type c.actor
  pub key_id : c.key_id ≡ kid
  pub claims : c.raw ≡ raw

pub check_claims-IsAccepted :
    (opts : LocalVerifyOptions) (base_url jwt_audience kid : Bytes) (t : ℕ) (raw : Fields)
    (c : AccessTokenClaims)
    → check_claims opts base_url jwt_audience kid t raw ≡ pass c
    → IsAccepted opts base_url jwt_audience kid t raw c
unfolding check_claims
check_claims-IsAccepted opts base_url jwt_audience kid t raw c e =
    let (times, current, e1) = bind-pass (check_times t (clamp_leeway opts.leeway) raw) _ c e in
    let (texts, texts_of, e2) = bind-pass (read_texts raw) _ c e1 in
    let (issued, e3) =
      guard-pass (accepts_issuer (accepted_issuers opts.issuers base_url) texts.issuer) issuer _ c
        e2 in
    let (aud, aud_of, e4) =
      bind-pass (or_refuse malformed (audience_claim (claim (bytes "aud") raw))) _ c e3 in
    let (for_us, e5) =
      guard-pass (accepts_audience (wanted_audience opts.audience jwt_audience) aud) audience _ c
        e4 in
    let (has_subject, e6) = guard-pass (not (is_empty texts.subject)) missing_claim _ c e5 in
    let (typed, e7) =
      guard-pass (accepts_type opts.allow_delegation texts.type) token_type _ c e6 in
    let (scope, scope_of, e8) =
      bind-pass (or_refuse malformed (scope_claim (claim (bytes "scope") raw))) _ c e7 in
    let (actor, actor_of, e9) = bind-pass (actor_claim (claim (bytes "act") raw)) _ c e8 in
    let (has_actor, e10) =
      guard-pass (not (same texts.type delegation) || is_some actor) missing_claim _ c e9 in
    subst (IsAccepted opts base_url jwt_audience kid t raw) (pass-injective _ _ e10) (record {
      current = check_times-Current t (clamp_leeway opts.leeway) raw times current;
      texts = read_texts-TextsOf raw texts texts_of;
      audience = or_refuse-pass malformed _ aud aud_of;
      scope = or_refuse-pass malformed _ scope scope_of;
      actor = actor_of;
      issuer = accepts_issuer-IssuedBy opts.issuers base_url texts.issuer issued;
      for_us = accepts_audience-IsFor _ aud for_us;
      has_subject = ground (arith, has_subject);
      typed = accepts_type-IsTyped opts.allow_delegation texts.type actor typed has_actor;
      key_id = refl;
      claims = refl;
    })
