-- ===== src/Endpoints/Documented/Oauth.antt =====
-- The method and the path that the doc comments of oauth.go name for each method of the client.
use auth_sdk_go.Base.{refl, [], ◌∷◌}
use auth_sdk_go.Base.Text.{bytes}
use auth_sdk_go.Endpoints.Routes.{fixed, argument, route}
use auth_sdk_go.Endpoints.Documented.Comment.{Endpoint, at, Documents}
use auth_sdk_go.Endpoints.Oauth.{
  OauthAuthorizationCall, oauth_authorize, pushed_authorization_request,
  oauth_authorization_request, OauthTokenCall, oauth_token, refresh_token_form, oauth_token_request,
  OauthRegistrationCall, register_client, get_client_registration, update_client_registration,
  delete_client_registration, send_verification_email, confirm_verification_email,
  request_password_reset_auth, confirm_password_reset_auth, validate_password_reset_token,
  oauth_registration_request, OauthMetadataCall, openid_configuration,
  authorization_server_metadata, jwks_health, oauth_metadata_request,
}

unfoldable pub oauth_authorization_documented : OauthAuthorizationCall → Endpoint
oauth_authorization_documented (oauth_authorize token params) =
    at (bytes "GET") (fixed (bytes "auth") ∷ fixed (bytes "authorize") ∷ [])
oauth_authorization_documented (pushed_authorization_request params) =
    at (bytes "POST") (fixed (bytes "auth") ∷ fixed (bytes "oauth") ∷ fixed (bytes "par") ∷ [])

pub oauth_authorization_request-Documents :
    (c : OauthAuthorizationCall)
    → Documents (oauth_authorization_request c) (oauth_authorization_documented c)
unfolding oauth_authorization_request oauth_authorization_documented route
oauth_authorization_request-Documents (oauth_authorize token params) = (refl, refl)
oauth_authorization_request-Documents _ = (refl, refl)

unfoldable pub oauth_token_documented : OauthTokenCall → Endpoint
oauth_token_documented (oauth_token form) =
    at (bytes "POST") (fixed (bytes "auth") ∷ fixed (bytes "oauth") ∷ fixed (bytes "token") ∷ [])
oauth_token_documented (refresh_token_form refresh_token) =
    at (bytes "POST") (fixed (bytes "token") ∷ fixed (bytes "refresh") ∷ [])

pub oauth_token_request-Documents :
    (c : OauthTokenCall) → Documents (oauth_token_request c) (oauth_token_documented c)
unfolding oauth_token_request oauth_token_documented route
oauth_token_request-Documents (oauth_token form) = (refl, refl)
oauth_token_request-Documents _ = (refl, refl)

unfoldable pub oauth_registration_documented : OauthRegistrationCall → Endpoint
oauth_registration_documented (register_client req) =
    at (bytes "POST") (fixed (bytes "auth") ∷ fixed (bytes "oauth") ∷ fixed (bytes "register") ∷ [])
oauth_registration_documented (get_client_registration client_id) = at (bytes "GET") (
    fixed (bytes "auth")
    ∷ fixed (bytes "oauth")
    ∷ fixed (bytes "register")
    ∷ argument client_id
    ∷ [])
oauth_registration_documented (update_client_registration client_id req) = at (bytes "PUT") (
    fixed (bytes "auth")
    ∷ fixed (bytes "oauth")
    ∷ fixed (bytes "register")
    ∷ argument client_id
    ∷ [])
oauth_registration_documented (delete_client_registration client_id) = at (bytes "DELETE") (
    fixed (bytes "auth")
    ∷ fixed (bytes "oauth")
    ∷ fixed (bytes "register")
    ∷ argument client_id
    ∷ [])
oauth_registration_documented (send_verification_email req) =
    at (bytes "POST")
      (fixed (bytes "auth") ∷ fixed (bytes "verify-email") ∷ fixed (bytes "send") ∷ [])
oauth_registration_documented (confirm_verification_email token) =
    at (bytes "POST")
      (fixed (bytes "auth") ∷ fixed (bytes "verify-email") ∷ fixed (bytes "confirm") ∷ [])
oauth_registration_documented (request_password_reset_auth req) =
    at (bytes "POST") (fixed (bytes "auth") ∷ fixed (bytes "password-reset") ∷ [])
oauth_registration_documented (confirm_password_reset_auth req) =
    at (bytes "POST")
      (fixed (bytes "auth") ∷ fixed (bytes "password-reset") ∷ fixed (bytes "confirm") ∷ [])
oauth_registration_documented (validate_password_reset_token token) =
    at (bytes "GET")
      (fixed (bytes "auth") ∷ fixed (bytes "password-reset") ∷ fixed (bytes "validate") ∷ [])

pub oauth_registration_request-Documents :
    (c : OauthRegistrationCall)
    → Documents (oauth_registration_request c) (oauth_registration_documented c)
unfolding oauth_registration_request oauth_registration_documented route
oauth_registration_request-Documents (register_client req) = (refl, refl)
oauth_registration_request-Documents _ = (refl, refl)

unfoldable pub oauth_metadata_documented : OauthMetadataCall → Endpoint
oauth_metadata_documented (openid_configuration) =
    at (bytes "GET") (fixed (bytes ".well-known") ∷ fixed (bytes "openid-configuration") ∷ [])
oauth_metadata_documented (authorization_server_metadata) =
    at (bytes "GET") (fixed (bytes ".well-known") ∷ fixed (bytes "oauth-authorization-server") ∷ [])
oauth_metadata_documented (jwks_health) =
    at (bytes "GET")
      (fixed (bytes ".well-known") ∷ fixed (bytes "jwks.json") ∷ fixed (bytes "health") ∷ [])

pub oauth_metadata_request-Documents :
    (c : OauthMetadataCall) → Documents (oauth_metadata_request c) (oauth_metadata_documented c)
unfolding oauth_metadata_request oauth_metadata_documented route
oauth_metadata_request-Documents (openid_configuration) = (refl, refl)
oauth_metadata_request-Documents _ = (refl, refl)
