-- ===== src/Endpoints/Passwordless.antt =====
-- passwordless.go: passkeys, magic links and recovery codes.
use auth_sdk_go.Base.{[], ◌∷◌, Option}
use auth_sdk_go.Base.Text.{Bytes, bytes}
use auth_sdk_go.Endpoints.{
  Values, Request, text, escaped, nothing, json, do_json, do_get, do_form, empty_object,
  req_or_empty,
}

pub data PasswordlessCall : Type 0 where
  webauthn_config : PasswordlessCall
  webauthn_register_start : (token : Bytes) (req : Option Bytes) → PasswordlessCall
  webauthn_register_finish : (token : Bytes) (credential : Option Bytes) → PasswordlessCall
  webauthn_authenticate_start : (req : Option Bytes) → PasswordlessCall
  webauthn_authenticate_finish : (assertion : Option Bytes) → PasswordlessCall
  list_webauthn_credentials : (token : Bytes) → PasswordlessCall
  update_webauthn_credential : (token credential_id req : Bytes) → PasswordlessCall
  delete_webauthn_credential : (token credential_id : Bytes) → PasswordlessCall
  send_magic_link : (form : Values) → PasswordlessCall
  verify_magic_link : (form : Values) → PasswordlessCall
  list_active_magic_links : (token : Bytes) → PasswordlessCall
  revoke_magic_link : (caller_token link_token : Bytes) → PasswordlessCall
  magic_link_config : PasswordlessCall
  magic_link_analytics : (token : Bytes) → PasswordlessCall

unfoldable pub passwordless_request : PasswordlessCall → Request
passwordless_request webauthn_config =
    do_get (text (bytes "/auth/passwordless/webauthn/config") ∷ []) []
passwordless_request (webauthn_register_start token req) =
    do_json (bytes "POST") (text (bytes "/auth/passwordless/webauthn/register/start") ∷ [])
      (req_or_empty req) token
passwordless_request (webauthn_register_finish token credential) =
    do_json (bytes "POST") (text (bytes "/auth/passwordless/webauthn/register/finish") ∷ [])
      (req_or_empty credential) token
passwordless_request (webauthn_authenticate_start req) =
    do_json (bytes "POST") (text (bytes "/auth/passwordless/webauthn/authenticate/start") ∷ [])
      (req_or_empty req) []
passwordless_request (webauthn_authenticate_finish assertion) =
    do_json (bytes "POST") (text (bytes "/auth/passwordless/webauthn/authenticate/finish") ∷ [])
      (req_or_empty assertion) []
passwordless_request (list_webauthn_credentials token) =
    do_get (text (bytes "/auth/passwordless/webauthn/credentials") ∷ []) token
passwordless_request (update_webauthn_credential token credential_id req) =
    do_json (bytes "PUT")
      (text (bytes "/auth/passwordless/webauthn/credentials/") ∷ escaped credential_id ∷ [])
      (json req) token
passwordless_request (delete_webauthn_credential token credential_id) =
    do_json (bytes "DELETE")
      (text (bytes "/auth/passwordless/webauthn/credentials/") ∷ escaped credential_id ∷ []) nothing
      token
passwordless_request (send_magic_link form) =
    do_form (text (bytes "/auth/passwordless/magic-link/send") ∷ []) form []
passwordless_request (verify_magic_link form) =
    do_form (text (bytes "/auth/passwordless/magic-link/verify") ∷ []) form []
passwordless_request (list_active_magic_links token) =
    do_get (text (bytes "/auth/passwordless/magic-link/active") ∷ []) token
passwordless_request (revoke_magic_link caller_token link_token) =
    do_json (bytes "DELETE")
      (text (bytes "/auth/passwordless/magic-link/") ∷ escaped link_token ∷ []) nothing caller_token
passwordless_request magic_link_config =
    do_get (text (bytes "/auth/passwordless/magic-link/config") ∷ []) []
passwordless_request (magic_link_analytics token) =
    do_get (text (bytes "/auth/passwordless/magic-link/analytics") ∷ []) token

pub data RecoveryCall : Type 0 where
  generate_recovery_codes : (token : Bytes) → RecoveryCall
  verify_recovery_code : (form : Values) → RecoveryCall
  list_devices : (token : Bytes) → RecoveryCall

unfoldable pub recovery_request : RecoveryCall → Request
recovery_request (generate_recovery_codes token) =
    do_json (bytes "POST") (text (bytes "/auth/passwordless/recovery-codes/generate") ∷ [])
      empty_object token
recovery_request (verify_recovery_code form) =
    do_form (text (bytes "/auth/passwordless/recovery-codes/verify") ∷ []) form []
recovery_request (list_devices token) =
    do_get (text (bytes "/auth/passwordless/devices") ∷ []) token
