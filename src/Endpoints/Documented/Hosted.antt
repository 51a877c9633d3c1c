-- ===== src/Endpoints/Documented/Hosted.antt =====
-- The method and the path that the doc comments of hosted.go name for each method of the client.
use auth_sdk_go.Base.{refl, [], ◌∷◌}
use auth_sdk_go.Base.Text.{bytes}
use auth_sdk_go.Endpoints.Routes.{fixed, argument, route}
use auth_sdk_go.Endpoints.Documented.Comment.{Endpoint, at, Documents}
use auth_sdk_go.Endpoints.Hosted.{
  HostedLoginCall, org_login, org_register, org_token, org_refresh, org_logout, org_reset_password,
  org_auth_providers, org_sso_initiate, org_sso_callback, hosted_login_request, LoginConfigCall,
  get_login_config, update_login_config, get_public_login_config, list_org_clients,
  get_hosted_login_page, accept_invite_page, login_config_request,
}

unfoldable pub hosted_login_documented : HostedLoginCall → Endpoint
hosted_login_documented (org_login slug req) = at (bytes "POST") (
    fixed (bytes "organizations")
    ∷ argument slug
    ∷ fixed (bytes "auth")
    ∷ fixed (bytes "login")
    ∷ [])
hosted_login_documented (org_register slug req) = at (bytes "POST") (
    fixed (bytes "organizations")
    ∷ argument slug
    ∷ fixed (bytes "auth")
    ∷ fixed (bytes "register")
    ∷ [])
hosted_login_documented (org_token slug form) = at (bytes "POST") (
    fixed (bytes "organizations")
    ∷ argument slug
    ∷ fixed (bytes "auth")
    ∷ fixed (bytes "token")
    ∷ [])
hosted_login_documented (org_refresh slug refresh_token) = at (bytes "POST") (
    fixed (bytes "organizations")
    ∷ argument slug
    ∷ fixed (bytes "auth")
    ∷ fixed (bytes "refresh")
    ∷ [])
hosted_login_documented (org_logout slug token) = at (bytes "POST") (
    fixed (bytes "organizations")
    ∷ argument slug
    ∷ fixed (bytes "auth")
    ∷ fixed (bytes "logout")
    ∷ [])
hosted_login_documented (org_reset_password slug req) = at (bytes "POST") (
    fixed (bytes "organizations")
    ∷ argument slug
    ∷ fixed (bytes "auth")
    ∷ fixed (bytes "reset-password")
    ∷ [])
hosted_login_documented (org_auth_providers slug) = at (bytes "GET") (
    fixed (bytes "organizations")
    ∷ argument slug
    ∷ fixed (bytes "auth")
    ∷ fixed (bytes "providers")
    ∷ [])
hosted_login_documented (org_sso_initiate slug params) = at (bytes "GET") (
    fixed (bytes "organizations")
    ∷ argument slug
    ∷ fixed (bytes "auth")
    ∷ fixed (bytes "sso")
    ∷ fixed (bytes "initiate")
    ∷ [])
hosted_login_documented (org_sso_callback slug form) = at (bytes "POST") (
    fixed (bytes "organizations")
    ∷ argument slug
    ∷ fixed (bytes "auth")
    ∷ fixed (bytes "sso")
    ∷ fixed (bytes "callback")
    ∷ [])

pub hosted_login_request-Documents :
    (c : HostedLoginCall) → Documents (hosted_login_request c) (hosted_login_documented c)
unfolding hosted_login_request hosted_login_documented route
hosted_login_request-Documents (org_login slug req) = (refl, refl)
hosted_login_request-Documents _ = (refl, refl)

unfoldable pub login_config_documented : LoginConfigCall → Endpoint
login_config_documented (get_login_config org_id caller_token) =
    at (bytes "GET")
      (fixed (bytes "organizations") ∷ argument org_id ∷ fixed (bytes "login-config") ∷ [])
login_config_documented (update_login_config org_id req caller_token) =
    at (bytes "PUT")
      (fixed (bytes "organizations") ∷ argument org_id ∷ fixed (bytes "login-config") ∷ [])
login_config_documented (get_public_login_config slug) = at (bytes "GET") (
    fixed (bytes "organizations")
    ∷ argument slug
    ∷ fixed (bytes "login-config")
    ∷ fixed (bytes "public")
    ∷ [])
login_config_documented (list_org_clients org_id caller_token) =
    at (bytes "GET")
      (fixed (bytes "organizations") ∷ argument org_id ∷ fixed (bytes "clients") ∷ [])
login_config_documented (get_hosted_login_page slug) =
    at (bytes "GET") (fixed (bytes "login") ∷ argument slug ∷ [])
login_config_documented (accept_invite_page slug invite_token) =
    at (bytes "GET")
      (fixed (bytes "organizations") ∷ argument slug ∷ fixed (bytes "accept-invite") ∷ [])

pub login_config_request-Documents :
    (c : LoginConfigCall) → Documents (login_config_request c) (login_config_documented c)
unfolding login_config_request login_config_documented route
login_config_request-Documents (get_login_config org_id caller_token) = (refl, refl)
login_config_request-Documents _ = (refl, refl)
