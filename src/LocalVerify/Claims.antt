-- ===== src/LocalVerify/Claims.antt =====
-- localverify.go: the checks of the claims, in the order of the source, once the signature is good.
use auth_sdk_go.Base.{
  ℕ, ◌+◌, Bool, true, false, not, ◌&&◌, ◌||◌, List, [], ◌∷◌, Option, none, some, is_some,
  if◌then◌else◌,
}
use auth_sdk_go.Base.Text.{Bytes, bytes, same, is_empty}
use auth_sdk_go.Base.Time.{before}
use auth_sdk_go.Actor.{contains_string}
use auth_sdk_go.Errors.{
  malformed, missing_claim, expired, not_yet_valid, issuer, audience, token_type,
}
use auth_sdk_go.Json.{Fields, claim}
use auth_sdk_go.LocalVerify.{
  Check, pass, refuse, ◌>>=◌, ◌>>◌, guard, or_refuse, LocalVerifyOptions, AccessTokenClaims,
  legacy_access_token_issuer, clamp_leeway, numeric_date, audience_claim, scope_claim, string_claim,
  actor_claim,
}

-- The times of the claims.
pub record Times : Type 0 where
  pub expires_at : ℕ
  pub not_before : ℕ
  pub issued_at : ℕ

abbrev pub text : Bytes → Fields → Check Bytes
text k raw = or_refuse malformed (string_claim (claim k raw))

-- `exp`: required, and `t` lies before it with the leeway.
unfoldable pub check_expiry : (t leeway : ℕ) → Option ℕ → Check ℕ
check_expiry t leeway none = refuse missing_claim
check_expiry t leeway (some exp) = if before t (exp + leeway) then pass exp else refuse expired

-- `nbf`, `iat`: 0 when absent, and otherwise not in the future.
unfoldable pub check_start : (t leeway : ℕ) → Option ℕ → Check ℕ
check_start t leeway none = pass 0
check_start t leeway (some start) =
    if before (t + leeway) start then refuse not_yet_valid else pass start

unfoldable pub check_times : (t leeway : ℕ) → Fields → Check Times
check_times t leeway raw = do
  exp_claim ← numeric_date (claim (bytes "exp") raw)
  exp ← check_expiry t leeway exp_claim
  nbf_claim ← numeric_date (claim (bytes "nbf") raw)
  nbf ← check_start t leeway nbf_claim
  iat_claim ← numeric_date (claim (bytes "iat") raw)
  iat ← check_start t leeway iat_claim
  pass (record { expires_at = exp; not_before = nbf; issued_at = iat })

-- The claims that are texts.
pub record Texts : Type 0 where
  pub issuer : Bytes
  pub subject : Bytes
  pub type : Bytes
  pub email : Bytes
  pub name : Bytes
  pub org_id : Bytes
  pub session_id : Bytes
  pub client_id : Bytes

unfoldable pub read_texts : Fields → Check Texts
read_texts raw = do
  iss ← text (bytes "iss") raw
  sub ← text (bytes "sub") raw
  type ← text (bytes "type") raw
  email ← text (bytes "email") raw
  name ← text (bytes "name") raw
  org_id ← text (bytes "org_id") raw
  jti ← text (bytes "jti") raw
  client_id ← text (bytes "client_id") raw
  pass (record {
    issuer = iss;
    subject = sub;
    type = type;
    email = email;
    name = name;
    org_id = org_id;
    session_id = jti;
    client_id = client_id;
  })

-- The issuers that are accepted: those given, or else the default set.
unfoldable pub accepted_issuers : List Bytes → (base_url : Bytes) → List Bytes
accepted_issuers [] base_url = legacy_access_token_issuer ∷ base_url ∷ []
accepted_issuers (i ∷ is) base_url = i ∷ is

unfoldable pub accepts_issuer : List Bytes → Bytes → Bool
unfolding contains_string
accepts_issuer issuers iss = not (is_empty iss) && contains_string issuers iss

-- The audience that is wanted: that of the options, or else the client's.
abbrev pub wanted_audience : Bytes → Bytes → Bytes
wanted_audience given jwt_audience = if is_empty given then jwt_audience else given

unfoldable pub accepts_audience : (wanted : Bytes) → List Bytes → Bool
unfolding contains_string
accepts_audience wanted aud = is_empty wanted || contains_string aud wanted

abbrev pub delegation : Bytes
delegation = bytes "delegation"

-- The switch on the token's type.
unfoldable pub accepts_type : (allow_delegation : Bool) → Bytes → Bool
unfolding same
accepts_type allow_delegation type =
    if is_empty type || same type (bytes "access")
    then true
    else if same type delegation
    then allow_delegation
    else false

unfoldable pub check_claims :
    LocalVerifyOptions
    → (base_url jwt_audience key_id : Bytes) → (t : ℕ) → Fields
    → Check AccessTokenClaims
check_claims opts base_url jwt_audience key_id t raw = do
  times ← check_times t (clamp_leeway opts.leeway) raw
  texts ← read_texts raw
  guard (accepts_issuer (accepted_issuers opts.issuers base_url) texts.issuer) issuer
  aud ← or_refuse malformed (audience_claim (claim (bytes "aud") raw))
  guard (accepts_audience (wanted_audience opts.audience jwt_audience) aud) audience
  guard (not (is_empty texts.subject)) missing_claim
  guard (accepts_type opts.allow_delegation texts.type) token_type
  scope ← or_refuse malformed (scope_claim (claim (bytes "scope") raw))
  actor ← actor_claim (claim (bytes "act") raw)
  guard (not (same texts.type delegation) || is_some actor) missing_claim
  pass (record {
    subject = texts.subject;
    email = texts.email;
    name = texts.name;
    org_id = texts.org_id;
    issuer = texts.issuer;
    audience = aud;
    expires_at = times.expires_at;
    issued_at = times.issued_at;
    not_before = times.not_before;
    session_id = texts.session_id;
    type = texts.type;
    client_id = texts.client_id;
    scope = scope;
    actor = actor;
    key_id = key_id;
    raw = raw;
  })
