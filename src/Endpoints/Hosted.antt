-- ===== src/Endpoints/Hosted.antt =====
-- hosted.go: hosted login.
use auth_sdk_go.Base.{[], ◌∷◌}
use auth_sdk_go.Base.Text.{Bytes, bytes}
use auth_sdk_go.Base.Assoc.{insert}
use auth_sdk_go.Endpoints.{
  Values, Request, text, escaped, query, json, json_object, do_json, do_get, do_form, empty_object,
  only_set,
}

pub data HostedLoginCall : Type 0 where
  org_login : (slug req : Bytes) → HostedLoginCall
  org_register : (slug req : Bytes) → HostedLoginCall
  org_token : (slug : Bytes) (form : Values) → HostedLoginCall
  org_refresh : (slug refresh_token : Bytes) → HostedLoginCall
  org_logout : (slug token : Bytes) → HostedLoginCall
  org_reset_password : (slug req : Bytes) → HostedLoginCall
  org_auth_providers : (slug : Bytes) → HostedLoginCall
  org_sso_initiate : (slug : Bytes) (params : Values) → HostedLoginCall
  org_sso_callback : (slug : Bytes) (form : Values) → HostedLoginCall

unfoldable pub hosted_login_request : HostedLoginCall → Request
hosted_login_request (org_login slug req) =
    do_json (bytes "POST")
      (text (bytes "/organizations/") ∷ escaped slug ∷ text (bytes "/auth/login") ∷ []) (json req)
      []
hosted_login_request (org_register slug req) =
    do_json (bytes "POST")
      (text (bytes "/organizations/") ∷ escaped slug ∷ text (bytes "/auth/register") ∷ [])
      (json req) []
hosted_login_request (org_token slug form) =
    do_form (text (bytes "/organizations/") ∷ escaped slug ∷ text (bytes "/auth/token") ∷ []) form
      []
hosted_login_request (org_refresh slug refresh_token) =
    do_json (bytes "POST")
      (text (bytes "/organizations/") ∷ escaped slug ∷ text (bytes "/auth/refresh") ∷ [])
      (json_object ((bytes "refresh_token", refresh_token) ∷ [])) []
hosted_login_request (org_logout slug token) =
    do_json (bytes "POST")
      (text (bytes "/organizations/") ∷ escaped slug ∷ text (bytes "/auth/logout") ∷ [])
      empty_object token
hosted_login_request (org_reset_password slug req) =
    do_json (bytes "POST")
      (text (bytes "/organizations/") ∷ escaped slug ∷ text (bytes "/auth/reset-password") ∷ [])
      (json req) []
hosted_login_request (org_auth_providers slug) =
    do_get (text (bytes "/organizations/") ∷ escaped slug ∷ text (bytes "/auth/providers") ∷ []) []
hosted_login_request (org_sso_initiate slug params) =
    do_get
      (text (bytes "/organizations/")
        ∷ escaped slug
        ∷ text (bytes "/auth/sso/initiate")
        ∷ query params
        ∷ [])
      []
hosted_login_request (org_sso_callback slug form) =
    do_form (text (bytes "/organizations/") ∷ escaped slug ∷ text (bytes "/auth/sso/callback") ∷ [])
      form []

pub data LoginConfigCall : Type 0 where
  get_login_config : (org_id caller_token : Bytes) → LoginConfigCall
  update_login_config : (org_id req caller_token : Bytes) → LoginConfigCall
  get_public_login_config : (slug : Bytes) → LoginConfigCall
  list_org_clients : (org_id caller_token : Bytes) → LoginConfigCall
  get_hosted_login_page : (slug : Bytes) → LoginConfigCall
  accept_invite_page : (slug invite_token : Bytes) → LoginConfigCall

unfoldable pub login_config_request : LoginConfigCall → Request
unfolding insert
login_config_request (get_login_config org_id caller_token) =
    do_get (text (bytes "/organizations/") ∷ escaped org_id ∷ text (bytes "/login-config") ∷ [])
      caller_token
login_config_request (update_login_config org_id req caller_token) =
    do_json (bytes "PUT")
      (text (bytes "/organizations/") ∷ escaped org_id ∷ text (bytes "/login-config") ∷ [])
      (json req) caller_token
login_config_request (get_public_login_config slug) =
    do_get
      (text (bytes "/organizations/") ∷ escaped slug ∷ text (bytes "/login-config/public") ∷ []) []
login_config_request (list_org_clients org_id caller_token) =
    do_get (text (bytes "/organizations/") ∷ escaped org_id ∷ text (bytes "/clients") ∷ [])
      caller_token
login_config_request (get_hosted_login_page slug) =
    do_get (text (bytes "/login/") ∷ escaped slug ∷ []) []
login_config_request (accept_invite_page slug invite_token) =
    do_get
      (text (bytes "/organizations/")
        ∷ escaped slug
        ∷ text (bytes "/accept-invite")
        ∷ query (only_set (bytes "token") invite_token)
        ∷ [])
      []
