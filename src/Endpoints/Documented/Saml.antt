-- ===== src/Endpoints/Documented/Saml.antt =====
-- The method and the path that the doc comments of saml.go name for each method of the client.
use auth_sdk_go.Base.{refl, [], ◌∷◌}
use auth_sdk_go.Base.Text.{bytes}
use auth_sdk_go.Endpoints.Routes.{fixed, argument, route}
use auth_sdk_go.Endpoints.Documented.Comment.{Endpoint, at, Documents}
use auth_sdk_go.Endpoints.Saml.{
  SamlCall, saml_metadata, saml_sso_redirect, saml_sso_post, saml_assertion_consumer,
  saml_single_logout, saml_sp_metadata, register_saml_sp, list_saml_sessions, list_saml_sps,
  get_saml_sp, update_saml_sp, delete_saml_sp, get_saml_attribute_mappings,
  update_saml_attribute_mappings, get_saml_certificates, generate_saml_certificate, saml_request,
  SamlMetadataCall, saml_analytics, saml_service_provider_metadata, saml_metadata_request,
}

unfoldable pub saml_documented : SamlCall → Endpoint
saml_documented (saml_metadata) =
    at (bytes "GET") (fixed (bytes "saml") ∷ fixed (bytes "metadata") ∷ [])
saml_documented (saml_sso_redirect params) =
    at (bytes "GET") (fixed (bytes "saml") ∷ fixed (bytes "sso") ∷ [])
saml_documented (saml_sso_post form) =
    at (bytes "POST") (fixed (bytes "saml") ∷ fixed (bytes "sso") ∷ [])
saml_documented (saml_assertion_consumer form) =
    at (bytes "POST") (fixed (bytes "saml") ∷ fixed (bytes "acs") ∷ [])
saml_documented (saml_single_logout form) =
    at (bytes "POST") (fixed (bytes "saml") ∷ fixed (bytes "slo") ∷ [])
saml_documented (saml_sp_metadata sp_id) =
    at (bytes "GET")
      (fixed (bytes "saml") ∷ fixed (bytes "sp") ∷ argument sp_id ∷ fixed (bytes "metadata") ∷ [])
saml_documented (register_saml_sp req caller_token) =
    at (bytes "POST") (fixed (bytes "saml") ∷ fixed (bytes "sp") ∷ fixed (bytes "register") ∷ [])
saml_documented (list_saml_sessions token) =
    at (bytes "GET") (fixed (bytes "saml") ∷ fixed (bytes "sessions") ∷ [])
saml_documented (list_saml_sps caller_token) =
    at (bytes "GET") (fixed (bytes "saml") ∷ fixed (bytes "sp") ∷ fixed (bytes "list") ∷ [])
saml_documented (get_saml_sp sp_id caller_token) =
    at (bytes "GET") (fixed (bytes "saml") ∷ fixed (bytes "sp") ∷ argument sp_id ∷ [])
saml_documented (update_saml_sp sp_id req caller_token) =
    at (bytes "PUT") (fixed (bytes "saml") ∷ fixed (bytes "sp") ∷ argument sp_id ∷ [])
saml_documented (delete_saml_sp sp_id caller_token) =
    at (bytes "DELETE") (fixed (bytes "saml") ∷ fixed (bytes "sp") ∷ argument sp_id ∷ [])
saml_documented (get_saml_attribute_mappings caller_token) =
    at (bytes "GET")
      (fixed (bytes "saml") ∷ fixed (bytes "attributes") ∷ fixed (bytes "mappings") ∷ [])
saml_documented (update_saml_attribute_mappings req caller_token) =
    at (bytes "PUT")
      (fixed (bytes "saml") ∷ fixed (bytes "attributes") ∷ fixed (bytes "mappings") ∷ [])
saml_documented (get_saml_certificates caller_token) =
    at (bytes "GET") (fixed (bytes "saml") ∷ fixed (bytes "certificates") ∷ [])
saml_documented (generate_saml_certificate caller_token) =
    at (bytes "POST")
      (fixed (bytes "saml") ∷ fixed (bytes "certificates") ∷ fixed (bytes "generate") ∷ [])

pub saml_request-Documents : (c : SamlCall) → Documents (saml_request c) (saml_documented c)
unfolding saml_request saml_documented route
saml_request-Documents (saml_metadata) = (refl, refl)
saml_request-Documents _ = (refl, refl)

unfoldable pub saml_metadata_documented : SamlMetadataCall → Endpoint
saml_metadata_documented (saml_analytics caller_token) =
    at (bytes "GET") (fixed (bytes "saml") ∷ fixed (bytes "analytics") ∷ [])
saml_metadata_documented (saml_service_provider_metadata) =
    at (bytes "GET") (fixed (bytes "saml") ∷ fixed (bytes "sp") ∷ fixed (bytes "metadata") ∷ [])

pub saml_metadata_request-Documents :
    (c : SamlMetadataCall) → Documents (saml_metadata_request c) (saml_metadata_documented c)
unfolding saml_metadata_request saml_metadata_documented route
saml_metadata_request-Documents (saml_analytics caller_token) = (refl, refl)
saml_metadata_request-Documents _ = (refl, refl)
