-- ===== src/LocalVerify/Sound.antt =====
-- What the checks of the claims read: passing a check, the times and the texts.

use auth_sdk_go.Base.{
  ap, ◌∙◌, ◌⊎◌, inl, inr, ℕ, ◌+◌, ◌*◌, ◌≤◌, ◌<◌, ◌≡◌, refl, subst, Bool, true, false, Option, none,
  some, arith, ℤ, pos, negsuc,
}
use auth_sdk_go.Base.Text.{Bytes, bytes}
use auth_sdk_go.Base.Time.{second}
use auth_sdk_go.Errors.{Reason, malformed}
use auth_sdk_go.Json.{Fields, claim}
use auth_sdk_go.LocalVerify.{
  Check, pass, refuse, ◌>>=◌, guard, or_refuse, clamp_leeway, numeric_date, string_claim,
}
use auth_sdk_go.LocalVerify.Claims.{
  Times, Texts, text, check_times, check_expiry, check_start, read_texts,
}

pub bind-pass {ℓ κ} :
    {A : Type ℓ} {B : Type κ} (m : Check A) (f : A → Check B) (b : B)
    → (m >>= f) ≡ pass b
    → (a : A) × (m ≡ pass a) × (f a ≡ pass b)
bind-pass (pass a) f b e = (a, refl, e)
bind-pass (refuse r) f b e = absurd cc

pub guard-pass {κ} :
    {B : Type κ} (t : Bool) (r : Reason) (m : Check B) (b : B)
    → (guard t r >>= λ _. m) ≡ pass b
    → (t ≡ true) × (m ≡ pass b)
guard-pass true r m b e = (refl, e)
guard-pass false r m b e = absurd cc

pub pass-injective {ℓ} : {A : Type ℓ} (a b : A) → pass a ≡ pass b → a ≡ b
pass-injective a b e = cc

-- No clock skew above a minute is tolerated, whatever the options ask for.
clamp_leeway-le : (z : ℤ) → clamp_leeway z ≤ 60 * second
unfolding clamp_leeway
clamp_leeway-le (pos n) = ground arith
clamp_leeway-le (negsuc n) = omega arith

pub or_refuse-pass {ℓ} :
    {A : Type ℓ} (r : Reason) (o : Option A) (a : A) → or_refuse r o ≡ pass a → o ≡ some a
or_refuse-pass r none a e = absurd cc
or_refuse-pass r (some b) a e = ap some (pass-injective b a e)

-- The text that a claim is, which is empty if the claim is absent or null.
abbrev Says : Fields → Bytes → Bytes → Type 0
Says raw k s = string_claim (claim k raw) ≡ some s

-- The time that a claim is, or 0 if it is absent or null.
abbrev StartsAt : Fields → Bytes → ℕ → Type 0
StartsAt raw k x =
    ((numeric_date (claim k raw) ≡ pass none) × (x ≡ 0))
    ⊎ (numeric_date (claim k raw) ≡ pass (some x))

-- Times that the claims `exp`, `nbf` and `iat` are, good at `t`.
abbrev pub Current : Fields → (t leeway : ℕ) → (exp nbf iat : ℕ) → Type 0
Current raw t leeway exp nbf iat =
    (numeric_date (claim (bytes "exp") raw) ≡ pass (some exp))
    × (t < exp + leeway)
    × StartsAt raw (bytes "nbf") nbf
    × (nbf ≤ t + leeway)
    × StartsAt raw (bytes "iat") iat
    × (iat ≤ t + leeway)

check_expiry-lt :
    (t leeway : ℕ) (o : Option ℕ) (x : ℕ)
    → check_expiry t leeway o ≡ pass x
    → (o ≡ some x) × (t < x + leeway)
unfolding check_expiry
check_expiry-lt t leeway none x e = absurd cc
check_expiry-lt t leeway (some y) x e = ground arith

check_start-le :
    (t leeway : ℕ) (o : Option ℕ) (x : ℕ)
    → check_start t leeway o ≡ pass x
    → (((o ≡ none) × (x ≡ 0)) ⊎ (o ≡ some x)) × (x ≤ t + leeway)
unfolding check_start
check_start-le t leeway none x e = ground arith
check_start-le t leeway (some y) x e = ground arith

starts_at :
    (raw : Fields) (k : Bytes) (o : Option ℕ) (x : ℕ)
    → numeric_date (claim k raw) ≡ pass o
    → ((o ≡ none) × (x ≡ 0)) ⊎ (o ≡ some x)
    → StartsAt raw k x
starts_at raw k o x e (inl (n, z)) = inl (e ∙ ap pass n, z)
starts_at raw k o x e (inr n) = inr (e ∙ ap pass n)

pub check_times-Current :
    (t leeway : ℕ) (raw : Fields) (times : Times)
    → check_times t leeway raw ≡ pass times
    → Current raw t leeway times.expires_at times.not_before times.issued_at
unfolding check_times
check_times-Current t leeway raw times e =
    let (o, a, e1) = bind-pass (numeric_date (claim (bytes "exp") raw)) _ times e in
    let (exp, h, e2) = bind-pass (check_expiry t leeway o) _ times e1 in
    let (p, b, e3) = bind-pass (numeric_date (claim (bytes "nbf") raw)) _ times e2 in
    let (nbf, k, e4) = bind-pass (check_start t leeway p) _ times e3 in
    let (q, c, e5) = bind-pass (numeric_date (claim (bytes "iat") raw)) _ times e4 in
    let (iat, m, e6) = bind-pass (check_start t leeway q) _ times e5 in
    let (some_exp, lt) = check_expiry-lt t leeway o exp h in
    let (some_nbf, nbf_le) = check_start-le t leeway p nbf k in
    let (some_iat, iat_le) = check_start-le t leeway q iat m in
    subst (λ (ts : Times). Current raw t leeway ts.expires_at ts.not_before ts.issued_at)
      (pass-injective _ _ e6)
      (
        a ∙ ap pass some_exp,
        lt,
        starts_at raw (bytes "nbf") p nbf b some_nbf,
        nbf_le,
        starts_at raw (bytes "iat") q iat c some_iat,
        iat_le,
      )

-- The texts are what the payload says.
abbrev pub TextsOf : Fields → Texts → Type 0
TextsOf raw t =
    Says raw (bytes "iss") t.issuer
    × Says raw (bytes "sub") t.subject
    × Says raw (bytes "type") t.type
    × Says raw (bytes "email") t.email
    × Says raw (bytes "name") t.name
    × Says raw (bytes "org_id") t.org_id
    × Says raw (bytes "jti") t.session_id
    × Says raw (bytes "client_id") t.client_id

read_text :
    {B : Type 0} (raw : Fields) (k : Bytes) (f : Bytes → Check B) (b : B)
    → (text k raw >>= f) ≡ pass b
    → (s : Bytes) × Says raw k s × (f s ≡ pass b)
read_text raw k f b e =
    let (s, h, e1) = bind-pass (text k raw) f b e in
    (s, or_refuse-pass malformed (string_claim (claim k raw)) s h, e1)

pub read_texts-TextsOf : (raw : Fields) (t : Texts) → read_texts raw ≡ pass t → TextsOf raw t
unfolding read_texts
read_texts-TextsOf raw t e =
    let (iss, a, e1) = read_text raw (bytes "iss") _ t e in
    let (sub, b, e2) = read_text raw (bytes "sub") _ t e1 in
    let (type, c, e3) = read_text raw (bytes "type") _ t e2 in
    let (email, d, e4) = read_text raw (bytes "email") _ t e3 in
    let (name, g, e5) = read_text raw (bytes "name") _ t e4 in
    let (org_id, h, e6) = read_text raw (bytes "org_id") _ t e5 in
    let (jti, i, e7) = read_text raw (bytes "jti") _ t e6 in
    let (client_id, j, e8) = read_text raw (bytes "client_id") _ t e7 in
    subst (TextsOf raw) (pass-injective _ _ e8) (a, b, c, d, g, h, i, j)
