-- ===== src/Endpoints/Calls/SecondRoutes.antt =====
-- Every argument of these requests is a segment of its own.
use auth_sdk_go.Base.{◌≡◌, refl, true}
use auth_sdk_go.Endpoints.Routes.{is_route}
use auth_sdk_go.Endpoints.Orgs.{
  OrgsCall, create_organization, orgs_request, TeamsCall, list_teams, teams_request,
}
use auth_sdk_go.Endpoints.Passwordless.{
  PasswordlessCall, webauthn_config, passwordless_request, RecoveryCall, generate_recovery_codes,
  recovery_request,
}
use auth_sdk_go.Endpoints.Permissions.{
  PublicCheckCall, check_permission_public, public_check_request, ZanzibarCall,
  zanzibar_check_wildcard, zanzibar_request, ZanzibarSetupCall, setup_team_membership,
  zanzibar_setup_request, ObjectDeletionCall, delete_relationship_by_object,
  object_deletion_request,
}
use auth_sdk_go.Endpoints.Providers.{
  ProvidersCall, create_provider, providers_request, FederationCall, update_sso_config,
  federation_request,
}
use auth_sdk_go.Endpoints.Quotas.{
  QuotaUsageCall, my_quota_usage, quota_usage_request, QuotaTierCall, quota_tiers,
  quota_tier_request, ReportsCall, submit_report, reports_request,
}
use auth_sdk_go.Endpoints.Roles.{
  GrantsCall, grant_permission, grants_request, RegistryCall, list_registered_services,
  registry_request, RegistryWritingCall, registry_stats, registry_writing_request,
}
use auth_sdk_go.Endpoints.Saml.{
  SamlCall, saml_metadata, saml_request, SamlMetadataCall, saml_analytics, saml_metadata_request,
}
use auth_sdk_go.Endpoints.Scim.{ScimCall, list_scim_users, scim_request}
use auth_sdk_go.Endpoints.System.{SystemCall, jwks_metrics, system_request}
use auth_sdk_go.Endpoints.Users.{
  ProfileCall, get_my_profile, profile_request, UserAdminCall, update_user, user_admin_request,
  SelfDeletionCall, delete_current_user, self_deletion_request,
}

pub orgs_request-is_route : (c : OrgsCall) → is_route (orgs_request c).path ≡ true
unfolding is_route orgs_request
orgs_request-is_route (create_organization req token) = refl
orgs_request-is_route _ = refl

pub teams_request-is_route : (c : TeamsCall) → is_route (teams_request c).path ≡ true
unfolding is_route teams_request
teams_request-is_route (list_teams org_id caller_token) = refl
teams_request-is_route _ = refl

pub passwordless_request-is_route :
    (c : PasswordlessCall) → is_route (passwordless_request c).path ≡ true
unfolding is_route passwordless_request
passwordless_request-is_route webauthn_config = refl
passwordless_request-is_route _ = refl

pub recovery_request-is_route : (c : RecoveryCall) → is_route (recovery_request c).path ≡ true
unfolding is_route recovery_request
recovery_request-is_route (generate_recovery_codes token) = refl
recovery_request-is_route _ = refl

pub public_check_request-is_route :
    (c : PublicCheckCall) → is_route (public_check_request c).path ≡ true
unfolding is_route public_check_request
public_check_request-is_route (check_permission_public req) = refl

pub zanzibar_request-is_route : (c : ZanzibarCall) → is_route (zanzibar_request c).path ≡ true
unfolding is_route zanzibar_request
zanzibar_request-is_route (zanzibar_check_wildcard store_id q caller_token) = refl
zanzibar_request-is_route _ = refl

pub zanzibar_setup_request-is_route :
    (c : ZanzibarSetupCall) → is_route (zanzibar_setup_request c).path ≡ true
unfolding is_route zanzibar_setup_request
zanzibar_setup_request-is_route (setup_team_membership store_id req caller_token) = refl
zanzibar_setup_request-is_route _ = refl

pub object_deletion_request-is_route :
    (c : ObjectDeletionCall) → is_route (object_deletion_request c).path ≡ true
unfolding is_route object_deletion_request
object_deletion_request-is_route
      (delete_relationship_by_object store_id object_type object_id relation subject caller_token) =
    refl

pub providers_request-is_route : (c : ProvidersCall) → is_route (providers_request c).path ≡ true
unfolding is_route providers_request
providers_request-is_route (create_provider req caller_token) = refl
providers_request-is_route _ = refl

pub federation_request-is_route : (c : FederationCall) → is_route (federation_request c).path ≡ true
unfolding is_route federation_request
federation_request-is_route (update_sso_config config caller_token) = refl
federation_request-is_route _ = refl

pub quota_usage_request-is_route :
    (c : QuotaUsageCall) → is_route (quota_usage_request c).path ≡ true
unfolding is_route quota_usage_request
quota_usage_request-is_route (my_quota_usage token) = refl

pub quota_tier_request-is_route : (c : QuotaTierCall) → is_route (quota_tier_request c).path ≡ true
unfolding is_route quota_tier_request
quota_tier_request-is_route quota_tiers = refl

pub reports_request-is_route : (c : ReportsCall) → is_route (reports_request c).path ≡ true
unfolding is_route reports_request
reports_request-is_route (submit_report req) = refl
reports_request-is_route _ = refl

pub grants_request-is_route : (c : GrantsCall) → is_route (grants_request c).path ≡ true
unfolding is_route grants_request
grants_request-is_route (grant_permission user_id org_id permission caller_token) = refl
grants_request-is_route _ = refl

pub registry_request-is_route : (c : RegistryCall) → is_route (registry_request c).path ≡ true
unfolding is_route registry_request
registry_request-is_route (list_registered_services caller_token) = refl
registry_request-is_route _ = refl

pub registry_writing_request-is_route :
    (c : RegistryWritingCall) → is_route (registry_writing_request c).path ≡ true
unfolding is_route registry_writing_request
registry_writing_request-is_route registry_stats = refl
registry_writing_request-is_route _ = refl

pub saml_request-is_route : (c : SamlCall) → is_route (saml_request c).path ≡ true
unfolding is_route saml_request
saml_request-is_route saml_metadata = refl
saml_request-is_route _ = refl

pub saml_metadata_request-is_route :
    (c : SamlMetadataCall) → is_route (saml_metadata_request c).path ≡ true
unfolding is_route saml_metadata_request
saml_metadata_request-is_route (saml_analytics caller_token) = refl
saml_metadata_request-is_route _ = refl

pub scim_request-is_route : (c : ScimCall) → is_route (scim_request c).path ≡ true
unfolding is_route scim_request
scim_request-is_route (list_scim_users caller_token) = refl
scim_request-is_route _ = refl

pub system_request-is_route : (c : SystemCall) → is_route (system_request c).path ≡ true
unfolding is_route system_request
system_request-is_route (jwks_metrics caller_token) = refl
system_request-is_route _ = refl

pub profile_request-is_route : (c : ProfileCall) → is_route (profile_request c).path ≡ true
unfolding is_route profile_request
profile_request-is_route (get_my_profile token) = refl
profile_request-is_route _ = refl

pub user_admin_request-is_route : (c : UserAdminCall) → is_route (user_admin_request c).path ≡ true
unfolding is_route user_admin_request
user_admin_request-is_route (update_user user_id upd caller_token) = refl
user_admin_request-is_route _ = refl

pub self_deletion_request-is_route :
    (c : SelfDeletionCall) → is_route (self_deletion_request c).path ≡ true
unfolding is_route self_deletion_request
self_deletion_request-is_route (delete_current_user confirm_email caller_token) = refl
