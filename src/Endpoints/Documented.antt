-- ===== src/Endpoints/Documented.antt =====
-- The endpoint that the doc comment of each method of the client names, as "GET /teams/{team_id}" does
-- in orgs.go: the children, one for a file of methods, are taken from those comments, not from the
-- methods' bodies. What a comment says of a query is left out.
pub mod Comment
pub mod Requested
pub mod Admin
pub mod ApiKeys
pub mod AuthzModels
pub mod Email
pub mod Events
pub mod Hosted
pub mod Hris
pub mod Mesh
pub mod Network
pub mod Oauth
pub mod Orgs
pub mod Passwordless
pub mod Permissions
pub mod Providers
pub mod Quotas
pub mod Roles
pub mod Saml
pub mod Scim
pub mod Sessions
pub mod System
pub mod Users
use auth_sdk_go.Endpoints.Documented.Comment.{Endpoint}
use auth_sdk_go.Endpoints.Documented.Admin.{signing_admin_documented, service_admin_documented}
use auth_sdk_go.Endpoints.Documented.ApiKeys.{api_keys_documented}
use auth_sdk_go.Endpoints.Documented.AuthzModels.{
  model_writing_documented, model_listing_documented, model_assertions_documented,
  transaction_documented, paged_lists_documented,
}
use auth_sdk_go.Endpoints.Documented.Email.{email_documented, email_test_documented}
use auth_sdk_go.Endpoints.Documented.Events.{events_documented}
use auth_sdk_go.Endpoints.Documented.Hosted.{hosted_login_documented, login_config_documented}
use auth_sdk_go.Endpoints.Documented.Hris.{hris_documented}
use auth_sdk_go.Endpoints.Documented.Mesh.{mesh_documented}
use auth_sdk_go.Endpoints.Documented.Network.{network_policy_documented, network_access_documented}
use auth_sdk_go.Endpoints.Documented.Oauth.{
  oauth_authorization_documented, oauth_token_documented, oauth_registration_documented,
  oauth_metadata_documented,
}
use auth_sdk_go.Endpoints.Documented.Orgs.{orgs_documented, teams_documented}
use auth_sdk_go.Endpoints.Documented.Passwordless.{passwordless_documented, recovery_documented}
use auth_sdk_go.Endpoints.Documented.Permissions.{
  public_check_documented, zanzibar_documented, zanzibar_setup_documented,
  object_deletion_documented,
}
use auth_sdk_go.Endpoints.Documented.Providers.{providers_documented, federation_documented}
use auth_sdk_go.Endpoints.Documented.Quotas.{
  quota_usage_documented, quota_tier_documented, reports_documented,
}
use auth_sdk_go.Endpoints.Documented.Roles.{
  grants_documented, registry_documented, registry_writing_documented,
}
use auth_sdk_go.Endpoints.Documented.Saml.{saml_documented, saml_metadata_documented}
use auth_sdk_go.Endpoints.Documented.Scim.{scim_documented}
use auth_sdk_go.Endpoints.Documented.Sessions.{
  sign_in_documented, switching_documented, lookup_documented,
}
use auth_sdk_go.Endpoints.Documented.System.{system_documented}
use auth_sdk_go.Endpoints.Documented.Users.{
  profile_documented, user_admin_documented, self_deletion_documented,
}
use auth_sdk_go.Endpoints.Calls.{
  Call, signing_admin, service_admin, api_keys, model_writing, model_listing, model_assertions,
  transaction, paged_lists, email, email_test, events, hosted_login, login_config, hris, mesh,
  network_policy, network_access, oauth_authorization, oauth_token, oauth_registration,
  oauth_metadata, sign_in, switching, lookup, orgs, teams, passwordless, recovery, public_check,
  zanzibar, zanzibar_setup, object_deletion, providers, federation, quota_usage, quota_tier,
  reports, grants, registry, registry_writing, saml, saml_metadata, scim, system, profile,
  user_admin, self_deletion,
}

unfoldable pub documented : Call → Endpoint
unfolding signing_admin_documented service_admin_documented api_keys_documented
    model_writing_documented model_listing_documented model_assertions_documented
    transaction_documented paged_lists_documented email_documented email_test_documented
    events_documented hosted_login_documented login_config_documented hris_documented
    mesh_documented network_policy_documented network_access_documented
    oauth_authorization_documented oauth_token_documented oauth_registration_documented
    oauth_metadata_documented sign_in_documented switching_documented lookup_documented
    orgs_documented teams_documented passwordless_documented recovery_documented
    public_check_documented zanzibar_documented zanzibar_setup_documented object_deletion_documented
    providers_documented federation_documented quota_usage_documented quota_tier_documented
    reports_documented grants_documented registry_documented registry_writing_documented
    saml_documented saml_metadata_documented scim_documented system_documented profile_documented
    user_admin_documented self_deletion_documented
documented (signing_admin c) = signing_admin_documented c
documented (service_admin c) = service_admin_documented c
documented (api_keys c) = api_keys_documented c
documented (model_writing c) = model_writing_documented c
documented (model_listing c) = model_listing_documented c
documented (model_assertions c) = model_assertions_documented c
documented (transaction c) = transaction_documented c
documented (paged_lists c) = paged_lists_documented c
documented (email c) = email_documented c
documented (email_test c) = email_test_documented c
documented (events c) = events_documented c
documented (hosted_login c) = hosted_login_documented c
documented (login_config c) = login_config_documented c
documented (hris c) = hris_documented c
documented (mesh c) = mesh_documented c
documented (network_policy c) = network_policy_documented c
documented (network_access c) = network_access_documented c
documented (oauth_authorization c) = oauth_authorization_documented c
documented (oauth_token c) = oauth_token_documented c
documented (oauth_registration c) = oauth_registration_documented c
documented (oauth_metadata c) = oauth_metadata_documented c
documented (sign_in c) = sign_in_documented c
documented (switching c) = switching_documented c
documented (lookup c) = lookup_documented c
documented (orgs c) = orgs_documented c
documented (teams c) = teams_documented c
documented (passwordless c) = passwordless_documented c
documented (recovery c) = recovery_documented c
documented (public_check c) = public_check_documented c
documented (zanzibar c) = zanzibar_documented c
documented (zanzibar_setup c) = zanzibar_setup_documented c
documented (object_deletion c) = object_deletion_documented c
documented (providers c) = providers_documented c
documented (federation c) = federation_documented c
documented (quota_usage c) = quota_usage_documented c
documented (quota_tier c) = quota_tier_documented c
documented (reports c) = reports_documented c
documented (grants c) = grants_documented c
documented (registry c) = registry_documented c
documented (registry_writing c) = registry_writing_documented c
documented (saml c) = saml_documented c
documented (saml_metadata c) = saml_metadata_documented c
documented (scim c) = scim_documented c
documented (system c) = system_documented c
documented (profile c) = profile_documented c
documented (user_admin c) = user_admin_documented c
documented (self_deletion c) = self_deletion_documented c
