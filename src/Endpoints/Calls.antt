-- ===== src/Endpoints/Calls.antt =====
-- Every method of the client that is one request: the requests of all the files together.
mod FirstRoutes
mod SecondRoutes
pub mod Routed
use auth_sdk_go.Endpoints.{Request}
use auth_sdk_go.Endpoints.Admin.{
  SigningAdminCall, signing_admin_request, ServiceAdminCall, service_admin_request,
}
use auth_sdk_go.Endpoints.ApiKeys.{ApiKeysCall, api_keys_request}
use auth_sdk_go.Endpoints.AuthzModels.{
  ModelWritingCall, model_writing_request, ModelListingCall, model_listing_request,
  ModelAssertionsCall, model_assertions_request, TransactionCall, transaction_request,
  PagedListsCall, paged_lists_request,
}
use auth_sdk_go.Endpoints.Email.{EmailCall, email_request, EmailTestCall, email_test_request}
use auth_sdk_go.Endpoints.Events.{EventsCall, events_request}
use auth_sdk_go.Endpoints.Hosted.{
  HostedLoginCall, hosted_login_request, LoginConfigCall, login_config_request,
}
use auth_sdk_go.Endpoints.Hris.{HrisCall, hris_request}
use auth_sdk_go.Endpoints.Mesh.{MeshCall, mesh_request}
use auth_sdk_go.Endpoints.Network.{
  NetworkPolicyCall, network_policy_request, NetworkAccessCall, network_access_request,
}
use auth_sdk_go.Endpoints.Oauth.{
  OauthAuthorizationCall, oauth_authorization_request, OauthTokenCall, oauth_token_request,
  OauthRegistrationCall, oauth_registration_request, OauthMetadataCall, oauth_metadata_request,
}
use auth_sdk_go.Endpoints.Sessions.{
  SignInCall, sign_in_request, SwitchingCall, switching_request, LookupCall, lookup_request,
}
use auth_sdk_go.Endpoints.Orgs.{OrgsCall, orgs_request, TeamsCall, teams_request}
use auth_sdk_go.Endpoints.Passwordless.{
  PasswordlessCall, passwordless_request, RecoveryCall, recovery_request,
}
use auth_sdk_go.Endpoints.Permissions.{
  PublicCheckCall, public_check_request, ZanzibarCall, zanzibar_request, ZanzibarSetupCall,
  zanzibar_setup_request, ObjectDeletionCall, object_deletion_request,
}
use auth_sdk_go.Endpoints.Providers.{
  ProvidersCall, providers_request, FederationCall, federation_request,
}
use auth_sdk_go.Endpoints.Quotas.{
  QuotaUsageCall, quota_usage_request, QuotaTierCall, quota_tier_request, ReportsCall,
  reports_request,
}
use auth_sdk_go.Endpoints.Roles.{
  GrantsCall, grants_request, RegistryCall, registry_request, RegistryWritingCall,
  registry_writing_request,
}
use auth_sdk_go.Endpoints.Saml.{SamlCall, saml_request, SamlMetadataCall, saml_metadata_request}
use auth_sdk_go.Endpoints.Scim.{ScimCall, scim_request}
use auth_sdk_go.Endpoints.System.{SystemCall, system_request}
use auth_sdk_go.Endpoints.Users.{
  ProfileCall, profile_request, UserAdminCall, user_admin_request, SelfDeletionCall,
  self_deletion_request,
}

pub data Call : Type 0 where
  signing_admin : SigningAdminCall → Call
  service_admin : ServiceAdminCall → Call
  api_keys : ApiKeysCall → Call
  model_writing : ModelWritingCall → Call
  model_listing : ModelListingCall → Call
  model_assertions : ModelAssertionsCall → Call
  transaction : TransactionCall → Call
  paged_lists : PagedListsCall → Call
  email : EmailCall → Call
  email_test : EmailTestCall → Call
  events : EventsCall → Call
  hosted_login : HostedLoginCall → Call
  login_config : LoginConfigCall → Call
  hris : HrisCall → Call
  mesh : MeshCall → Call
  network_policy : NetworkPolicyCall → Call
  network_access : NetworkAccessCall → Call
  oauth_authorization : OauthAuthorizationCall → Call
  oauth_token : OauthTokenCall → Call
  oauth_registration : OauthRegistrationCall → Call
  oauth_metadata : OauthMetadataCall → Call
  sign_in : SignInCall → Call
  switching : SwitchingCall → Call
  lookup : LookupCall → Call
  orgs : OrgsCall → Call
  teams : TeamsCall → Call
  passwordless : PasswordlessCall → Call
  recovery : RecoveryCall → Call
  public_check : PublicCheckCall → Call
  zanzibar : ZanzibarCall → Call
  zanzibar_setup : ZanzibarSetupCall → Call
  object_deletion : ObjectDeletionCall → Call
  providers : ProvidersCall → Call
  federation : FederationCall → Call
  quota_usage : QuotaUsageCall → Call
  quota_tier : QuotaTierCall → Call
  reports : ReportsCall → Call
  grants : GrantsCall → Call
  registry : RegistryCall → Call
  registry_writing : RegistryWritingCall → Call
  saml : SamlCall → Call
  saml_metadata : SamlMetadataCall → Call
  scim : ScimCall → Call
  system : SystemCall → Call
  profile : ProfileCall → Call
  user_admin : UserAdminCall → Call
  self_deletion : SelfDeletionCall → Call

unfoldable pub request : Call → Request
unfolding signing_admin_request service_admin_request api_keys_request model_writing_request
    model_listing_request model_assertions_request transaction_request paged_lists_request
    email_request email_test_request events_request hosted_login_request login_config_request
    hris_request mesh_request network_policy_request network_access_request
    oauth_authorization_request oauth_token_request oauth_registration_request
    oauth_metadata_request sign_in_request switching_request lookup_request orgs_request
    teams_request passwordless_request recovery_request public_check_request zanzibar_request
    zanzibar_setup_request object_deletion_request providers_request federation_request
    quota_usage_request quota_tier_request reports_request grants_request registry_request
    registry_writing_request saml_request saml_metadata_request scim_request system_request
    profile_request user_admin_request self_deletion_request
request (signing_admin c) = signing_admin_request c
request (service_admin c) = service_admin_request c
request (api_keys c) = api_keys_request c
request (model_writing c) = model_writing_request c
request (model_listing c) = model_listing_request c
request (model_assertions c) = model_assertions_request c
request (transaction c) = transaction_request c
request (paged_lists c) = paged_lists_request c
request (email c) = email_request c
request (email_test c) = email_test_request c
request (events c) = events_request c
request (hosted_login c) = hosted_login_request c
request (login_config c) = login_config_request c
request (hris c) = hris_request c
request (mesh c) = mesh_request c
request (network_policy c) = network_policy_request c
request (network_access c) = network_access_request c
request (oauth_authorization c) = oauth_authorization_request c
request (oauth_token c) = oauth_token_request c
request (oauth_registration c) = oauth_registration_request c
request (oauth_metadata c) = oauth_metadata_request c
request (sign_in c) = sign_in_request c
request (switching c) = switching_request c
request (lookup c) = lookup_request c
request (orgs c) = orgs_request c
request (teams c) = teams_request c
request (passwordless c) = passwordless_request c
request (recovery c) = recovery_request c
request (public_check c) = public_check_request c
request (zanzibar c) = zanzibar_request c
request (zanzibar_setup c) = zanzibar_setup_request c
request (object_deletion c) = object_deletion_request c
request (providers c) = providers_request c
request (federation c) = federation_request c
request (quota_usage c) = quota_usage_request c
request (quota_tier c) = quota_tier_request c
request (reports c) = reports_request c
request (grants c) = grants_request c
request (registry c) = registry_request c
request (registry_writing c) = registry_writing_request c
request (saml c) = saml_request c
request (saml_metadata c) = saml_metadata_request c
request (scim c) = scim_request c
request (system c) = system_request c
request (profile c) = profile_request c
request (user_admin c) = user_admin_request c
request (self_deletion c) = self_deletion_request c
