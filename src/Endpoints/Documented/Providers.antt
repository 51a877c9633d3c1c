-- ===== src/Endpoints/Documented/Providers.antt =====
-- The method and the path that the doc comments of providers.go name for each method of the client.
use auth_sdk_go.Base.{refl, [], ◌∷◌}
use auth_sdk_go.Base.Text.{bytes}
use auth_sdk_go.Endpoints.Routes.{fixed, argument, route}
use auth_sdk_go.Endpoints.Documented.Comment.{Endpoint, at, Documents}
use auth_sdk_go.Endpoints.Providers.{
  ProvidersCall, create_provider, list_providers, get_provider, update_provider, delete_provider,
  test_provider, supported_provider_types, list_sso_sessions, create_sso_session,
  create_domain_token, get_sso_session, delete_sso_session, propagate_sso, propagate_logout,
  get_sso_config, providers_request, FederationCall, update_sso_config, list_sso_domains,
  get_sso_domain, create_sso_domain, update_sso_domain, delete_sso_domain, list_attribute_mappings,
  create_attribute_mapping, get_jit_config, update_jit_config, federation_stats, federation_request,
}

unfoldable pub providers_documented : ProvidersCall → Endpoint
providers_documented (create_provider req caller_token) =
    at (bytes "POST") (fixed (bytes "providers") ∷ fixed [] ∷ [])
providers_documented (list_providers caller_token) =
    at (bytes "GET") (fixed (bytes "providers") ∷ fixed [] ∷ [])
providers_documented (get_provider provider_id caller_token) =
    at (bytes "GET") (fixed (bytes "providers") ∷ argument provider_id ∷ [])
providers_documented (update_provider provider_id req caller_token) =
    at (bytes "PUT") (fixed (bytes "providers") ∷ argument provider_id ∷ [])
providers_documented (delete_provider provider_id caller_token) =
    at (bytes "DELETE") (fixed (bytes "providers") ∷ argument provider_id ∷ [])
providers_documented (test_provider req caller_token) =
    at (bytes "POST") (fixed (bytes "providers") ∷ fixed (bytes "test") ∷ [])
providers_documented (supported_provider_types) =
    at (bytes "GET")
      (fixed (bytes "providers") ∷ fixed (bytes "types") ∷ fixed (bytes "supported") ∷ [])
providers_documented (list_sso_sessions token) =
    at (bytes "GET")
      (fixed (bytes "federation") ∷ fixed (bytes "sso") ∷ fixed (bytes "sessions") ∷ [])
providers_documented (create_sso_session token) =
    at (bytes "POST")
      (fixed (bytes "federation") ∷ fixed (bytes "sso") ∷ fixed (bytes "sessions") ∷ [])
providers_documented (create_domain_token token) =
    at (bytes "POST")
      (fixed (bytes "federation") ∷ fixed (bytes "sso") ∷ fixed (bytes "create-token") ∷ [])
providers_documented (get_sso_session session_id token) = at (bytes "GET") (
    fixed (bytes "federation")
    ∷ fixed (bytes "sso")
    ∷ fixed (bytes "sessions")
    ∷ argument session_id
    ∷ [])
providers_documented (delete_sso_session session_id token) = at (bytes "DELETE") (
    fixed (bytes "federation")
    ∷ fixed (bytes "sso")
    ∷ fixed (bytes "sessions")
    ∷ argument session_id
    ∷ [])
providers_documented (propagate_sso caller_token) =
    at (bytes "POST")
      (fixed (bytes "federation") ∷ fixed (bytes "sso") ∷ fixed (bytes "propagate") ∷ [])
providers_documented (propagate_logout token) =
    at (bytes "POST")
      (fixed (bytes "federation") ∷ fixed (bytes "sso") ∷ fixed (bytes "propagate-logout") ∷ [])
providers_documented (get_sso_config caller_token) =
    at (bytes "GET")
      (fixed (bytes "federation") ∷ fixed (bytes "sso") ∷ fixed (bytes "config") ∷ [])

pub providers_request-Documents :
    (c : ProvidersCall) → Documents (providers_request c) (providers_documented c)
unfolding providers_request providers_documented route
providers_request-Documents (create_provider req caller_token) = (refl, refl)
providers_request-Documents _ = (refl, refl)

unfoldable pub federation_documented : FederationCall → Endpoint
federation_documented (update_sso_config config caller_token) =
    at (bytes "PUT")
      (fixed (bytes "federation") ∷ fixed (bytes "sso") ∷ fixed (bytes "config") ∷ [])
federation_documented (list_sso_domains caller_token) =
    at (bytes "GET")
      (fixed (bytes "federation") ∷ fixed (bytes "sso") ∷ fixed (bytes "domains") ∷ [])
federation_documented (get_sso_domain domain caller_token) = at (bytes "GET") (
    fixed (bytes "federation")
    ∷ fixed (bytes "sso")
    ∷ fixed (bytes "domains")
    ∷ argument domain
    ∷ [])
federation_documented (create_sso_domain domain req caller_token) = at (bytes "POST") (
    fixed (bytes "federation")
    ∷ fixed (bytes "sso")
    ∷ fixed (bytes "domains")
    ∷ argument domain
    ∷ [])
federation_documented (update_sso_domain domain req caller_token) = at (bytes "PUT") (
    fixed (bytes "federation")
    ∷ fixed (bytes "sso")
    ∷ fixed (bytes "domains")
    ∷ argument domain
    ∷ [])
federation_documented (delete_sso_domain domain caller_token) = at (bytes "DELETE") (
    fixed (bytes "federation")
    ∷ fixed (bytes "sso")
    ∷ fixed (bytes "domains")
    ∷ argument domain
    ∷ [])
federation_documented (list_attribute_mappings caller_token) =
    at (bytes "GET") (fixed (bytes "federation") ∷ fixed (bytes "attribute-mappings") ∷ [])
federation_documented (create_attribute_mapping req caller_token) =
    at (bytes "POST") (fixed (bytes "federation") ∷ fixed (bytes "attribute-mappings") ∷ [])
federation_documented (get_jit_config caller_token) =
    at (bytes "GET")
      (fixed (bytes "federation") ∷ fixed (bytes "jit") ∷ fixed (bytes "config") ∷ [])
federation_documented (update_jit_config config caller_token) =
    at (bytes "PUT")
      (fixed (bytes "federation") ∷ fixed (bytes "jit") ∷ fixed (bytes "config") ∷ [])
federation_documented (federation_stats caller_token) =
    at (bytes "GET") (fixed (bytes "federation") ∷ fixed (bytes "stats") ∷ [])

pub federation_request-Documents :
    (c : FederationCall) → Documents (federation_request c) (federation_documented c)
unfolding federation_request federation_documented route
federation_request-Documents (update_sso_config config caller_token) = (refl, refl)
federation_request-Documents _ = (refl, refl)
