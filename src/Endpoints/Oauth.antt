-- ===== src/Endpoints/Oauth.antt =====
-- oauth.go: OAuth registration, tokens and metadata.
use auth_sdk_go.Base.{[], ◌∷◌}
use auth_sdk_go.Base.Text.{Bytes, bytes}
use auth_sdk_go.Base.Assoc.{insert}
use auth_sdk_go.Endpoints.{
  Values, Request, text, escaped, query, always_query, nothing, json, json_object, do_json, do_get,
  do_form, set,
}

pub data OauthAuthorizationCall : Type 0 where
  oauth_authorize : (token : Bytes) (params : Values) → OauthAuthorizationCall
  pushed_authorization_request : (params : Values) → OauthAuthorizationCall

unfoldable pub oauth_authorization_request : OauthAuthorizationCall → Request
oauth_authorization_request (oauth_authorize token params) =
    do_get (text (bytes "/auth/authorize") ∷ query params ∷ []) token
oauth_authorization_request (pushed_authorization_request params) =
    do_form (text (bytes "/auth/oauth/par") ∷ []) params []

pub data OauthTokenCall : Type 0 where
  oauth_token : (form : Values) → OauthTokenCall
  refresh_token_form : (refresh_token : Bytes) → OauthTokenCall

unfoldable pub oauth_token_request : OauthTokenCall → Request
unfolding insert
oauth_token_request (oauth_token form) = do_form (text (bytes "/auth/oauth/token") ∷ []) form []
oauth_token_request (refresh_token_form refresh_token) =
    do_form (text (bytes "/token/refresh") ∷ [])
      (set (bytes "refresh_token") refresh_token
        (set (bytes "grant_type") (bytes "refresh_token") []))
      []

pub data OauthRegistrationCall : Type 0 where
  register_client : (req : Bytes) → OauthRegistrationCall
  get_client_registration : (client_id : Bytes) → OauthRegistrationCall
  update_client_registration : (client_id req : Bytes) → OauthRegistrationCall
  delete_client_registration : (client_id : Bytes) → OauthRegistrationCall
  send_verification_email : (req : Bytes) → OauthRegistrationCall
  confirm_verification_email : (token : Bytes) → OauthRegistrationCall
  request_password_reset_auth : (req : Bytes) → OauthRegistrationCall
  confirm_password_reset_auth : (req : Bytes) → OauthRegistrationCall
  validate_password_reset_token : (token : Bytes) → OauthRegistrationCall

unfoldable pub oauth_registration_request : OauthRegistrationCall → Request
unfolding insert
oauth_registration_request (register_client req) =
    do_json (bytes "POST") (text (bytes "/auth/oauth/register") ∷ []) (json req) []
oauth_registration_request (get_client_registration client_id) =
    do_get (text (bytes "/auth/oauth/register/") ∷ escaped client_id ∷ []) []
oauth_registration_request (update_client_registration client_id req) =
    do_json (bytes "PUT") (text (bytes "/auth/oauth/register/") ∷ escaped client_id ∷ []) (json req)
      []
oauth_registration_request (delete_client_registration client_id) =
    do_json (bytes "DELETE") (text (bytes "/auth/oauth/register/") ∷ escaped client_id ∷ []) nothing
      []
oauth_registration_request (send_verification_email req) =
    do_json (bytes "POST") (text (bytes "/auth/verify-email/send") ∷ []) (json req) []
oauth_registration_request (confirm_verification_email token) =
    do_json (bytes "POST") (text (bytes "/auth/verify-email/confirm") ∷ [])
      (json_object ((bytes "token", token) ∷ [])) []
oauth_registration_request (request_password_reset_auth req) =
    do_json (bytes "POST") (text (bytes "/auth/password-reset") ∷ []) (json req) []
oauth_registration_request (confirm_password_reset_auth req) =
    do_json (bytes "POST") (text (bytes "/auth/password-reset/confirm") ∷ []) (json req) []
oauth_registration_request (validate_password_reset_token token) =
    do_get
      (text (bytes "/auth/password-reset/validate")
        ∷ always_query (set (bytes "token") token [])
        ∷ [])
      []

pub data OauthMetadataCall : Type 0 where
  openid_configuration : OauthMetadataCall
  authorization_server_metadata : OauthMetadataCall
  jwks_health : OauthMetadataCall

unfoldable pub oauth_metadata_request : OauthMetadataCall → Request
oauth_metadata_request openid_configuration =
    do_get (text (bytes "/.well-known/openid-configuration") ∷ []) []
oauth_metadata_request authorization_server_metadata =
    do_get (text (bytes "/.well-known/oauth-authorization-server") ∷ []) []
oauth_metadata_request jwks_health = do_get (text (bytes "/.well-known/jwks.json/health") ∷ []) []
