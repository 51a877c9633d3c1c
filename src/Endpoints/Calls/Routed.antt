-- ===== src/Endpoints/Calls/Routed.antt =====
-- The paths of all requests: where the arguments go, and that they can be told from the path.
use auth_sdk_go.Base.{◌≡◌, sym, ap, ◌∙◌, true, map, Option, some}
use auth_sdk_go.Base.Text.{Bytes}
use auth_sdk_go.Credential.{split}
use auth_sdk_go.Transport.{strip_query}
use auth_sdk_go.Endpoints.{Values, path_text}
use auth_sdk_go.Endpoints.Routes.{is_route, route, show, fixed_part, arguments}
use auth_sdk_go.Endpoints.Routes.Cut.{NoSlash, NoQuery, split-path_text, arguments_unique}
use auth_sdk_go.Endpoints.Calls.{Call, request}
use auth_sdk_go.Endpoints.Calls.{
  signing_admin, service_admin, api_keys, model_writing, model_listing, model_assertions,
  transaction, paged_lists, email, email_test, events, hosted_login, login_config, hris, mesh,
  network_policy, network_access, oauth_authorization, oauth_token, oauth_registration,
  oauth_metadata, sign_in, switching, lookup, orgs, teams, passwordless, recovery, public_check,
  zanzibar, zanzibar_setup, object_deletion, providers, federation, quota_usage, quota_tier,
  reports, grants, registry, registry_writing, saml, saml_metadata, scim, system, profile,
  user_admin, self_deletion,
}
use auth_sdk_go.Endpoints.Calls.FirstRoutes.{
  signing_admin_request-is_route, service_admin_request-is_route, api_keys_request-is_route,
  model_writing_request-is_route, model_listing_request-is_route, model_assertions_request-is_route,
  transaction_request-is_route, paged_lists_request-is_route, email_request-is_route,
  email_test_request-is_route, events_request-is_route, hosted_login_request-is_route,
  login_config_request-is_route, hris_request-is_route, mesh_request-is_route,
  network_policy_request-is_route, network_access_request-is_route,
  oauth_authorization_request-is_route, oauth_token_request-is_route,
  oauth_registration_request-is_route, oauth_metadata_request-is_route, sign_in_request-is_route,
  switching_request-is_route, lookup_request-is_route,
}
use auth_sdk_go.Endpoints.Calls.SecondRoutes.{
  orgs_request-is_route, teams_request-is_route, passwordless_request-is_route,
  recovery_request-is_route, public_check_request-is_route, zanzibar_request-is_route,
  zanzibar_setup_request-is_route, object_deletion_request-is_route, providers_request-is_route,
  federation_request-is_route, quota_usage_request-is_route, quota_tier_request-is_route,
  reports_request-is_route, grants_request-is_route, registry_request-is_route,
  registry_writing_request-is_route, saml_request-is_route, saml_metadata_request-is_route,
  scim_request-is_route, system_request-is_route, profile_request-is_route,
  user_admin_request-is_route, self_deletion_request-is_route,
}

request-is_route : (c : Call) → is_route (request c).path ≡ true
unfolding request
request-is_route (signing_admin c) = signing_admin_request-is_route c
request-is_route (service_admin c) = service_admin_request-is_route c
request-is_route (api_keys c) = api_keys_request-is_route c
request-is_route (model_writing c) = model_writing_request-is_route c
request-is_route (model_listing c) = model_listing_request-is_route c
request-is_route (model_assertions c) = model_assertions_request-is_route c
request-is_route (transaction c) = transaction_request-is_route c
request-is_route (paged_lists c) = paged_lists_request-is_route c
request-is_route (email c) = email_request-is_route c
request-is_route (email_test c) = email_test_request-is_route c
request-is_route (events c) = events_request-is_route c
request-is_route (hosted_login c) = hosted_login_request-is_route c
request-is_route (login_config c) = login_config_request-is_route c
request-is_route (hris c) = hris_request-is_route c
request-is_route (mesh c) = mesh_request-is_route c
request-is_route (network_policy c) = network_policy_request-is_route c
request-is_route (network_access c) = network_access_request-is_route c
request-is_route (oauth_authorization c) = oauth_authorization_request-is_route c
request-is_route (oauth_token c) = oauth_token_request-is_route c
request-is_route (oauth_registration c) = oauth_registration_request-is_route c
request-is_route (oauth_metadata c) = oauth_metadata_request-is_route c
request-is_route (sign_in c) = sign_in_request-is_route c
request-is_route (switching c) = switching_request-is_route c
request-is_route (lookup c) = lookup_request-is_route c
request-is_route (orgs c) = orgs_request-is_route c
request-is_route (teams c) = teams_request-is_route c
request-is_route (passwordless c) = passwordless_request-is_route c
request-is_route (recovery c) = recovery_request-is_route c
request-is_route (public_check c) = public_check_request-is_route c
request-is_route (zanzibar c) = zanzibar_request-is_route c
request-is_route (zanzibar_setup c) = zanzibar_setup_request-is_route c
request-is_route (object_deletion c) = object_deletion_request-is_route c
request-is_route (providers c) = providers_request-is_route c
request-is_route (federation c) = federation_request-is_route c
request-is_route (quota_usage c) = quota_usage_request-is_route c
request-is_route (quota_tier c) = quota_tier_request-is_route c
request-is_route (reports c) = reports_request-is_route c
request-is_route (grants c) = grants_request-is_route c
request-is_route (registry c) = registry_request-is_route c
request-is_route (registry_writing c) = registry_writing_request-is_route c
request-is_route (saml c) = saml_request-is_route c
request-is_route (saml_metadata c) = saml_metadata_request-is_route c
request-is_route (scim c) = scim_request-is_route c
request-is_route (system c) = system_request-is_route c
request-is_route (profile c) = profile_request-is_route c
request-is_route (user_admin c) = user_admin_request-is_route c
request-is_route (self_deletion c) = self_deletion_request-is_route c

-- The path of a call, as it is sent: what an observer and an error name as the endpoint.
abbrev pub endpoint : (Bytes → Bytes) → (Values → Bytes) → Call → Bytes
endpoint path_escape encode c = strip_query (path_text path_escape encode (request c).path)

module _ (path_escape : Bytes → Bytes) (encode : Values → Bytes)
    (escape_safe : (s : Bytes) → NoSlash (path_escape s) × NoQuery (path_escape s)) where
  -- Let no escaped text have a slash or a question mark. The path of every call, up to its query, cut
  -- at its slashes, has the segments of the call's route: every argument is the whole of one
  -- segment, whatever bytes it has, and nothing of the query is among them.
  pub split-endpoint :
      (c : Call)
      → split b'/' (endpoint path_escape encode c) ≡ map (show path_escape) (route (request c).path)
  split-endpoint c = split-path_text path_escape encode escape_safe _ (request-is_route c)

  module _ (unescape : Bytes → Option Bytes)
      (unescape_escape : (s : Bytes) → unescape (path_escape s) ≡ some s) where
    -- Let escaped text, besides, have an inverse. Two calls whose routes agree but for their
    -- arguments have the same path, up to the query, only if all their arguments are the same.
    pub endpoint-injective :
        (c d : Call)
        → map fixed_part (route (request c).path) ≡ map fixed_part (route (request d).path)
        → endpoint path_escape encode c ≡ endpoint path_escape encode d
        → arguments (route (request c).path) ≡ arguments (route (request d).path)
    endpoint-injective c d form same_path =
        arguments_unique unescape unescape_escape _ _ form
          (sym (split-endpoint c) ∙ ap (split b'/') same_path ∙ split-endpoint d)
