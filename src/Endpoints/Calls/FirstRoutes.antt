-- ===== src/Endpoints/Calls/FirstRoutes.antt =====
-- Every argument of these requests is a segment of its own.
use auth_sdk_go.Base.{◌≡◌, refl, true}
use auth_sdk_go.Endpoints.Routes.{is_route}
use auth_sdk_go.Endpoints.Admin.{
  SigningAdminCall, set_password_policy, signing_admin_request, ServiceAdminCall,
  elevate_privileges, service_admin_request,
}
use auth_sdk_go.Endpoints.ApiKeys.{ApiKeysCall, list_api_keys, api_keys_request}
use auth_sdk_go.Endpoints.AuthzModels.{
  ModelWritingCall, write_authorization_model, model_writing_request, ModelListingCall,
  list_authorization_models, model_listing_request, ModelAssertionsCall, put_model_assertions,
  model_assertions_request, TransactionCall, write_and_delete_relationships, transaction_request,
  PagedListsCall, list_relationships_paged, paged_lists_request,
}
use auth_sdk_go.Endpoints.Email.{
  EmailCall, email_history, email_request, EmailTestCall, send_test_email, email_test_request,
}
use auth_sdk_go.Endpoints.Events.{EventsCall, event_types, events_request}
use auth_sdk_go.Endpoints.Hosted.{
  HostedLoginCall, org_login, hosted_login_request, LoginConfigCall, get_login_config,
  login_config_request,
}
use auth_sdk_go.Endpoints.Hris.{HrisCall, get_hris_connection, hris_request}
use auth_sdk_go.Endpoints.Mesh.{MeshCall, list_mesh_providers, mesh_request}
use auth_sdk_go.Endpoints.Network.{
  NetworkPolicyCall, create_network_policy, network_policy_request, NetworkAccessCall,
  network_access_check, network_access_request,
}
use auth_sdk_go.Endpoints.Oauth.{
  OauthAuthorizationCall, oauth_authorize, oauth_authorization_request, OauthTokenCall, oauth_token,
  oauth_token_request, OauthRegistrationCall, register_client, oauth_registration_request,
  OauthMetadataCall, openid_configuration, oauth_metadata_request,
}
use auth_sdk_go.Endpoints.Sessions.{
  SignInCall, login, sign_in_request, SwitchingCall, switch_organization, switching_request,
  LookupCall, introspect, lookup_request,
}

pub signing_admin_request-is_route :
    (c : SigningAdminCall) → is_route (signing_admin_request c).path ≡ true
unfolding is_route signing_admin_request
signing_admin_request-is_route (set_password_policy req caller_token) = refl
signing_admin_request-is_route _ = refl

pub service_admin_request-is_route :
    (c : ServiceAdminCall) → is_route (service_admin_request c).path ≡ true
unfolding is_route service_admin_request
service_admin_request-is_route (elevate_privileges req caller_token) = refl
service_admin_request-is_route _ = refl

pub api_keys_request-is_route : (c : ApiKeysCall) → is_route (api_keys_request c).path ≡ true
unfolding is_route api_keys_request
api_keys_request-is_route (list_api_keys caller_token) = refl
api_keys_request-is_route _ = refl

pub model_writing_request-is_route :
    (c : ModelWritingCall) → is_route (model_writing_request c).path ≡ true
unfolding is_route model_writing_request
model_writing_request-is_route (write_authorization_model store_id req caller_token) = refl

pub model_listing_request-is_route :
    (c : ModelListingCall) → is_route (model_listing_request c).path ≡ true
unfolding is_route model_listing_request
model_listing_request-is_route (list_authorization_models store_id page_token caller_token) = refl

pub model_assertions_request-is_route :
    (c : ModelAssertionsCall) → is_route (model_assertions_request c).path ≡ true
unfolding is_route model_assertions_request
model_assertions_request-is_route (put_model_assertions store_id model_id req token) = refl
model_assertions_request-is_route _ = refl

pub transaction_request-is_route :
    (c : TransactionCall) → is_route (transaction_request c).path ≡ true
unfolding is_route transaction_request
transaction_request-is_route (write_and_delete_relationships store_id req token) = refl

pub paged_lists_request-is_route :
    (c : PagedListsCall) → is_route (paged_lists_request c).path ≡ true
unfolding is_route paged_lists_request
paged_lists_request-is_route
      (list_relationships_paged store_id object_type object_id relation caller_token) =
    refl
paged_lists_request-is_route _ = refl

pub email_request-is_route : (c : EmailCall) → is_route (email_request c).path ≡ true
unfolding is_route email_request
email_request-is_route (email_history caller_token) = refl
email_request-is_route _ = refl

pub email_test_request-is_route : (c : EmailTestCall) → is_route (email_test_request c).path ≡ true
unfolding is_route email_test_request
email_test_request-is_route (send_test_email org_id req caller_token) = refl

pub events_request-is_route : (c : EventsCall) → is_route (events_request c).path ≡ true
unfolding is_route events_request
events_request-is_route event_types = refl
events_request-is_route _ = refl

pub hosted_login_request-is_route :
    (c : HostedLoginCall) → is_route (hosted_login_request c).path ≡ true
unfolding is_route hosted_login_request
hosted_login_request-is_route (org_login slug req) = refl
hosted_login_request-is_route _ = refl

pub login_config_request-is_route :
    (c : LoginConfigCall) → is_route (login_config_request c).path ≡ true
unfolding is_route login_config_request
login_config_request-is_route (get_login_config org_id caller_token) = refl
login_config_request-is_route _ = refl

pub hris_request-is_route : (c : HrisCall) → is_route (hris_request c).path ≡ true
unfolding is_route hris_request
hris_request-is_route (get_hris_connection org_id caller_token) = refl
hris_request-is_route _ = refl

pub mesh_request-is_route : (c : MeshCall) → is_route (mesh_request c).path ≡ true
unfolding is_route mesh_request
mesh_request-is_route (list_mesh_providers q caller_token) = refl
mesh_request-is_route _ = refl

pub network_policy_request-is_route :
    (c : NetworkPolicyCall) → is_route (network_policy_request c).path ≡ true
unfolding is_route network_policy_request
network_policy_request-is_route (create_network_policy req caller_token) = refl
network_policy_request-is_route _ = refl

pub network_access_request-is_route :
    (c : NetworkAccessCall) → is_route (network_access_request c).path ≡ true
unfolding is_route network_access_request
network_access_request-is_route (network_access_check caller_token) = refl
network_access_request-is_route _ = refl

pub oauth_authorization_request-is_route :
    (c : OauthAuthorizationCall) → is_route (oauth_authorization_request c).path ≡ true
unfolding is_route oauth_authorization_request
oauth_authorization_request-is_route (oauth_authorize token params) = refl
oauth_authorization_request-is_route _ = refl

pub oauth_token_request-is_route :
    (c : OauthTokenCall) → is_route (oauth_token_request c).path ≡ true
unfolding is_route oauth_token_request
oauth_token_request-is_route (oauth_token form) = refl
oauth_token_request-is_route _ = refl

pub oauth_registration_request-is_route :
    (c : OauthRegistrationCall) → is_route (oauth_registration_request c).path ≡ true
unfolding is_route oauth_registration_request
oauth_registration_request-is_route (register_client req) = refl
oauth_registration_request-is_route _ = refl

pub oauth_metadata_request-is_route :
    (c : OauthMetadataCall) → is_route (oauth_metadata_request c).path ≡ true
unfolding is_route oauth_metadata_request
oauth_metadata_request-is_route openid_configuration = refl
oauth_metadata_request-is_route _ = refl

pub sign_in_request-is_route : (c : SignInCall) → is_route (sign_in_request c).path ≡ true
unfolding is_route sign_in_request
sign_in_request-is_route (login req) = refl
sign_in_request-is_route _ = refl

pub switching_request-is_route : (c : SwitchingCall) → is_route (switching_request c).path ≡ true
unfolding is_route switching_request
switching_request-is_route (switch_organization token org_id) = refl
switching_request-is_route _ = refl

pub lookup_request-is_route : (c : LookupCall) → is_route (lookup_request c).path ≡ true
unfolding is_route lookup_request
lookup_request-is_route (introspect token hint) = refl
lookup_request-is_route _ = refl
