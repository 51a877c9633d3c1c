-- ===== src/LocalVerify.antt =====
-- localverify.go: the verification of an access token against the service's key set. This file has
-- the options, the claims and how each claim is read. A float64 is held exactly, in billionths.
pub mod Segment
pub mod Claims
pub mod Verify
pub mod Canonical
pub mod Sound
pub mod Accepted
pub mod Header
pub mod KeySet
pub mod Parts
pub mod Signed
pub mod Tests
use auth_sdk_go.Base.{
  ℕ, ◌*◌, ◌+◌, ◌≡◌, Bool, true, false, not, List, [], ◌∷◌, Option, none, some, ltb, leb, ◌==◌,
  if◌then◌else◌, ℤ, pos, negsuc,
}
use auth_sdk_go.Base.Text.{Bytes, bytes, same, is_empty}
use auth_sdk_go.Base.Time.{second, before, unix_epoch}
use auth_sdk_go.Errors.{Reason, malformed}
use auth_sdk_go.Base.Space.{fields}
use auth_sdk_go.Json.{Json, null, boolean, num, str, arr, obj, Items, nil, cons, Fields, claim}

-- A check passes with a value or refuses the token.
pub data Check {ℓ} (A : Type ℓ) : Type ℓ where
  pass : A → Check A
  refuse : Reason → Check A

infixl 5 ◌>>=◌ ◌>>◌
abbrev pub ◌>>=◌ {ℓ κ} : {A : Type ℓ} {B : Type κ} → Check A → (A → Check B) → Check B
pass a >>= f = f a
refuse r >>= f = refuse r

abbrev pub ◌>>◌ {ℓ} : {B : Type ℓ} → Check (Unit {0}) → Check B → Check B
m >> k = m >>= λ _. k

abbrev pub guard : Bool → Reason → Check (Unit {0})
guard true r = pass tt
guard false r = refuse r

-- An error of a helper, which the caller reports as `r`.
abbrev pub or_refuse {ℓ} : {A : Type ℓ} → Reason → Option A → Check A
or_refuse r none = refuse r
or_refuse r (some a) = pass a

pub record LocalVerifyOptions : Type 0 where
  pub audience : Bytes
  pub issuers : List Bytes
  pub leeway : ℤ
  pub allow_delegation : Bool

pub record AccessTokenClaims : Type 0 where
  pub subject : Bytes
  pub email : Bytes
  pub name : Bytes
  pub org_id : Bytes
  pub issuer : Bytes
  pub audience : List Bytes
  pub expires_at : ℕ
  pub issued_at : ℕ
  pub not_before : ℕ
  pub session_id : Bytes
  pub type : Bytes
  pub client_id : Bytes
  pub scope : List Bytes
  pub actor : Option Fields
  pub key_id : Bytes
  pub raw : Fields

abbrev pub legacy_access_token_issuer : Bytes
legacy_access_token_issuer = bytes "ab0t-auth-service"

abbrev default_local_verify_leeway : ℕ
default_local_verify_leeway = 30 * second

abbrev max_local_verify_leeway : ℕ
max_local_verify_leeway = 60 * second

abbrev pub max_local_verify_token_bytes : ℕ
max_local_verify_token_bytes = 16384

abbrev max_numeric_date : ℕ
max_numeric_date = 253_402_300_799

-- The leeway that is used for the one asked for.
unfoldable pub clamp_leeway : ℤ → ℕ
clamp_leeway (pos n) =
    if n == 0
    then default_local_verify_leeway
    else if ltb max_local_verify_leeway n
    then max_local_verify_leeway
    else n
clamp_leeway (negsuc n) = 0

unfoldable pub numeric_date : Option Json → Check (Option ℕ)
numeric_date none = pass none
numeric_date (some null) = pass none
numeric_date (some (num (pos n))) =
    if leb n (max_numeric_date * second) then pass (some (unix_epoch + n)) else refuse malformed
numeric_date (some (num (negsuc n))) = refuse malformed
numeric_date (some (boolean b)) = refuse malformed
numeric_date (some (str s)) = refuse malformed
numeric_date (some (arr xs)) = refuse malformed
numeric_date (some (obj fs)) = refuse malformed

-- A list of strings; another element is an error.
unfoldable all_strings : Items → Option (List Bytes)
all_strings nil = some []
all_strings (cons (str s) xs) = elim (all_strings xs) [ some ss ↦ some (s ∷ ss) | none ↦ none ]
all_strings (cons null xs) = none
all_strings (cons (boolean b) xs) = none
all_strings (cons (num n) xs) = none
all_strings (cons (arr ys) xs) = none
all_strings (cons (obj fs) xs) = none

unfoldable pub audience_claim : Option Json → Option (List Bytes)
unfolding all_strings
audience_claim none = some []
audience_claim (some null) = some []
audience_claim (some (str s)) = some (s ∷ [])
audience_claim (some (arr xs)) = all_strings xs
audience_claim (some (boolean b)) = none
audience_claim (some (num n)) = none
audience_claim (some (obj fs)) = none

unfoldable pub scope_claim : Option Json → Option (List Bytes)
unfolding all_strings fields
scope_claim none = some []
scope_claim (some null) = some []
scope_claim (some (str s)) = some (fields s)
scope_claim (some (arr xs)) = all_strings xs
scope_claim (some (boolean b)) = none
scope_claim (some (num n)) = none
scope_claim (some (obj fs)) = none

-- The closure `str`: absent and null are the empty string, another type is an error.
unfoldable pub string_claim : Option Json → Option Bytes
string_claim none = some []
string_claim (some null) = some []
string_claim (some (str s)) = some s
string_claim (some (boolean b)) = none
string_claim (some (num n)) = none
string_claim (some (arr xs)) = none
string_claim (some (obj fs)) = none

-- The claim `act`.
unfoldable pub actor_claim : Option Json → Check (Option Fields)
actor_claim none = pass none
actor_claim (some null) = pass none
actor_claim (some (obj fs)) = pass (some fs)
actor_claim (some (boolean b)) = refuse malformed
actor_claim (some (num n)) = refuse malformed
actor_claim (some (str s)) = refuse malformed
actor_claim (some (arr xs)) = refuse malformed
