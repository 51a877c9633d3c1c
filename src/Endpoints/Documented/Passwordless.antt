-- ===== src/Endpoints/Documented/Passwordless.antt =====
-- The method and the path that the doc comments of passwordless.go name for each method of the client.
use auth_sdk_go.Base.{refl, [], ◌∷◌}
use auth_sdk_go.Base.Text.{bytes}
use auth_sdk_go.Endpoints.Routes.{fixed, argument, route}
use auth_sdk_go.Endpoints.Documented.Comment.{Endpoint, at, Documents}
use auth_sdk_go.Endpoints.Passwordless.{
  PasswordlessCall, webauthn_config, webauthn_register_start, webauthn_register_finish,
  webauthn_authenticate_start, webauthn_authenticate_finish, list_webauthn_credentials,
  update_webauthn_credential, delete_webauthn_credential, send_magic_link, verify_magic_link,
  list_active_magic_links, revoke_magic_link, magic_link_config, magic_link_analytics,
  passwordless_request, RecoveryCall, generate_recovery_codes, verify_recovery_code, list_devices,
  recovery_request,
}

unfoldable pub passwordless_documented : PasswordlessCall → Endpoint
passwordless_documented (webauthn_config) = at (bytes "GET") (
    fixed (bytes "auth")
    ∷ fixed (bytes "passwordless")
    ∷ fixed (bytes "webauthn")
    ∷ fixed (bytes "config")
    ∷ [])
passwordless_documented (webauthn_register_start token req) = at (bytes "POST") (
    fixed (bytes "auth")
    ∷ fixed (bytes "passwordless")
    ∷ fixed (bytes "webauthn")
    ∷ fixed (bytes "register")
    ∷ fixed (bytes "start")
    ∷ [])
passwordless_documented (webauthn_register_finish token credential) = at (bytes "POST") (
    fixed (bytes "auth")
    ∷ fixed (bytes "passwordless")
    ∷ fixed (bytes "webauthn")
    ∷ fixed (bytes "register")
    ∷ fixed (bytes "finish")
    ∷ [])
passwordless_documented (webauthn_authenticate_start req) = at (bytes "POST") (
    fixed (bytes "auth")
    ∷ fixed (bytes "passwordless")
    ∷ fixed (bytes "webauthn")
    ∷ fixed (bytes "authenticate")
    ∷ fixed (bytes "start")
    ∷ [])
passwordless_documented (webauthn_authenticate_finish assertion) = at (bytes "POST") (
    fixed (bytes "auth")
    ∷ fixed (bytes "passwordless")
    ∷ fixed (bytes "webauthn")
    ∷ fixed (bytes "authenticate")
    ∷ fixed (bytes "finish")
    ∷ [])
passwordless_documented (list_webauthn_credentials token) = at (bytes "GET") (
    fixed (bytes "auth")
    ∷ fixed (bytes "passwordless")
    ∷ fixed (bytes "webauthn")
    ∷ fixed (bytes "credentials")
    ∷ [])
passwordless_documented (update_webauthn_credential token credential_id req) = at (bytes "PUT") (
    fixed (bytes "auth")
    ∷ fixed (bytes "passwordless")
    ∷ fixed (bytes "webauthn")
    ∷ fixed (bytes "credentials")
    ∷ argument credential_id
    ∷ [])
passwordless_documented (delete_webauthn_credential token credential_id) = at (bytes "DELETE") (
    fixed (bytes "auth")
    ∷ fixed (bytes "passwordless")
    ∷ fixed (bytes "webauthn")
    ∷ fixed (bytes "credentials")
    ∷ argument credential_id
    ∷ [])
passwordless_documented (send_magic_link form) = at (bytes "POST") (
    fixed (bytes "auth")
    ∷ fixed (bytes "passwordless")
    ∷ fixed (bytes "magic-link")
    ∷ fixed (bytes "send")
    ∷ [])
passwordless_documented (verify_magic_link form) = at (bytes "POST") (
    fixed (bytes "auth")
    ∷ fixed (bytes "passwordless")
    ∷ fixed (bytes "magic-link")
    ∷ fixed (bytes "verify")
    ∷ [])
passwordless_documented (list_active_magic_links token) = at (bytes "GET") (
    fixed (bytes "auth")
    ∷ fixed (bytes "passwordless")
    ∷ fixed (bytes "magic-link")
    ∷ fixed (bytes "active")
    ∷ [])
passwordless_documented (revoke_magic_link caller_token link_token) = at (bytes "DELETE") (
    fixed (bytes "auth")
    ∷ fixed (bytes "passwordless")
    ∷ fixed (bytes "magic-link")
    ∷ argument link_token
    ∷ [])
passwordless_documented (magic_link_config) = at (bytes "GET") (
    fixed (bytes "auth")
    ∷ fixed (bytes "passwordless")
    ∷ fixed (bytes "magic-link")
    ∷ fixed (bytes "config")
    ∷ [])
passwordless_documented (magic_link_analytics token) = at (bytes "GET") (
    fixed (bytes "auth")
    ∷ fixed (bytes "passwordless")
    ∷ fixed (bytes "magic-link")
    ∷ fixed (bytes "analytics")
    ∷ [])

pub passwordless_request-Documents :
    (c : PasswordlessCall) → Documents (passwordless_request c) (passwordless_documented c)
unfolding passwordless_request passwordless_documented route
passwordless_request-Documents (webauthn_config) = (refl, refl)
passwordless_request-Documents _ = (refl, refl)

unfoldable pub recovery_documented : RecoveryCall → Endpoint
recovery_documented (generate_recovery_codes token) = at (bytes "POST") (
    fixed (bytes "auth")
    ∷ fixed (bytes "passwordless")
    ∷ fixed (bytes "recovery-codes")
    ∷ fixed (bytes "generate")
    ∷ [])
recovery_documented (verify_recovery_code form) = at (bytes "POST") (
    fixed (bytes "auth")
    ∷ fixed (bytes "passwordless")
    ∷ fixed (bytes "recovery-codes")
    ∷ fixed (bytes "verify")
    ∷ [])
recovery_documented (list_devices token) =
    at (bytes "GET")
      (fixed (bytes "auth") ∷ fixed (bytes "passwordless") ∷ fixed (bytes "devices") ∷ [])

pub recovery_request-Documents :
    (c : RecoveryCall) → Documents (recovery_request c) (recovery_documented c)
unfolding recovery_request recovery_documented route
recovery_request-Documents (generate_recovery_codes token) = (refl, refl)
recovery_request-Documents _ = (refl, refl)
