-- ===== src/Errors.antt =====
-- errors.go: the error values of the SDK, their classification by HTTP status, and the error code
-- and message read from a response body. `Err` also has the error values of tokenfor.go and
-- localverify.go, since errors.Is and errors.As look through all of them.
pub mod Envelope
pub mod Tests
use auth_sdk_go.Base.{
  ℕ, ◌≤◌, ◌≡◌, refl, Bool, true, false, ◌&&◌, ◌||◌, ◌↔◌, List, [], ◌∷◌, Option, none, some, arith,
  leb, ◌==◌, if◌then◌else◌,
}
use auth_sdk_go.Base.Text.{Bytes}

pub record ApiError : Type 0 where
  pub status_code : ℕ
  pub method : Bytes
  pub endpoint : Bytes
  pub code : Bytes
  pub sub_error : Bytes
  pub message : Bytes
  pub request_id : Bytes
  pub body : Bytes

-- The sentinels of tokenfor.go.
pub data Sentinel : Type 0 where
  reauthenticate no_connection scope_not_allowed client_auth client_not_enabled unavailable :
      Sentinel
  client_credentials_required : Sentinel

-- `AccessTokenError.Reason`.
pub data Reason : Type 0 where
  malformed too_large unsupported_alg unsupported_header missing_kid unknown_kid : Reason
  unsupported_key bad_signature expired not_yet_valid issuer audience token_type : Reason
  missing_claim : Reason

pub data Err : Type 0 where
  -- *APIError
  api : ApiError → Err
  -- a transport failure, a JSON error: told apart by a number, and no more is known of it
  other : ℕ → Err
  -- ctx.Err()
  cancelled : Err
  -- a sentinel alone
  plain : Sentinel → Err
  -- fmt.Errorf("%w: %w", sentinel, err)
  wrapped : Sentinel → Err → Err
  -- *ConsentRequired: resource, scope, client id, authorization endpoint, and the error that said so
  consent_required : Bytes → Bytes → Bytes → Bytes → ApiError → Err
  -- *AccessTokenError
  access_token : Reason → Err

-- `errors.As(err, &ae)`
unfoldable pub as_api_error : Err → Option ApiError
as_api_error (api e) = some e
as_api_error (wrapped s e) = as_api_error e
as_api_error (consent_required r s c a e) = some e
as_api_error _ = none

abbrev code_of : Sentinel → ℕ
code_of reauthenticate = 0
code_of no_connection = 1
code_of scope_not_allowed = 2
code_of client_auth = 3
code_of client_not_enabled = 4
code_of unavailable = 5
code_of client_credentials_required = 6

-- `errors.Is(err, sentinel)`
unfoldable pub is_sentinel : Sentinel → Err → Bool
is_sentinel s (plain t) = code_of s == code_of t
is_sentinel s (wrapped t e) = if code_of s == code_of t then true else is_sentinel s e
is_sentinel s _ = false

-- `errors.Is(err, ErrInvalidAccessToken)`
unfoldable pub is_invalid_access_token : Err → Bool
is_invalid_access_token (access_token r) = true
is_invalid_access_token (wrapped t e) = is_invalid_access_token e
is_invalid_access_token _ = false

abbrev status_of : Option ApiError → ℕ
status_of none = 0
status_of (some e) = e.status_code

unfoldable pub status_code : Err → ℕ
unfolding as_api_error
status_code err = status_of (as_api_error err)

unfoldable pub is_unauthorized : Err → Bool
unfolding status_code
is_unauthorized err = status_code err == 401

unfoldable pub is_forbidden : Err → Bool
unfolding status_code
is_forbidden err = status_code err == 403

unfoldable pub is_not_found : Err → Bool
unfolding status_code
is_not_found err = status_code err == 404

is_conflict : Err → Bool
is_conflict err = status_code err == 409

is_bad_request : Err → Bool
is_bad_request err = status_code err == 400

is_validation_error : Err → Bool
is_validation_error err = status_code err == 422

unfoldable is_rate_limited : Err → Bool
unfolding status_code
is_rate_limited err = status_code err == 429

unfoldable is_server_error : Err → Bool
unfolding status_code
is_server_error err = leb 500 (status_code err) && leb (status_code err) 599

unfoldable pub is_retryable : Err → Bool
unfolding status_code
is_retryable err =
    status_code err == 429 || (leb 500 (status_code err) && leb (status_code err) 599)

-- A retryable error is never a definite answer about the credential.
is_retryable-not_definite :
    (e : Err) → is_retryable e ≡ true → (is_unauthorized e ≡ false) × (is_forbidden e ≡ false)
unfolding is_retryable is_unauthorized is_forbidden
is_retryable-not_definite e h = ground arith

-- `copyError`: the caller's copy of a cached error is equal to it, so in a model of values that no
-- caller can alter it is the error itself.
unfoldable pub copy_error : Err → Err
copy_error (api e) = api (record {
  status_code = e.status_code;
  method = e.method;
  endpoint = e.endpoint;
  code = e.code;
  sub_error = e.sub_error;
  message = e.message;
  request_id = e.request_id;
  body = e.body;
})
copy_error e = e

pub copy_error_lem : (e : Err) → copy_error e ≡ e
unfolding copy_error
copy_error_lem (api e) = refl
copy_error_lem e = refl
