-- ===== src/Endpoints/Providers.antt =====
-- providers.go: identity providers and federation.
use auth_sdk_go.Base.{[], ◌∷◌}
use auth_sdk_go.Base.Text.{Bytes, bytes}
use auth_sdk_go.Endpoints.{Request, text, escaped, nothing, json, do_json, do_get, empty_object}

pub data ProvidersCall : Type 0 where
  create_provider : (req caller_token : Bytes) → ProvidersCall
  list_providers : (caller_token : Bytes) → ProvidersCall
  get_provider : (provider_id caller_token : Bytes) → ProvidersCall
  update_provider : (provider_id req caller_token : Bytes) → ProvidersCall
  delete_provider : (provider_id caller_token : Bytes) → ProvidersCall
  test_provider : (req caller_token : Bytes) → ProvidersCall
  supported_provider_types : ProvidersCall
  list_sso_sessions : (token : Bytes) → ProvidersCall
  create_sso_session : (token : Bytes) → ProvidersCall
  create_domain_token : (token : Bytes) → ProvidersCall
  get_sso_session : (session_id token : Bytes) → ProvidersCall
  delete_sso_session : (session_id token : Bytes) → ProvidersCall
  propagate_sso : (caller_token : Bytes) → ProvidersCall
  propagate_logout : (token : Bytes) → ProvidersCall
  get_sso_config : (caller_token : Bytes) → ProvidersCall

unfoldable pub providers_request : ProvidersCall → Request
providers_request (create_provider req caller_token) =
    do_json (bytes "POST") (text (bytes "/providers/") ∷ []) (json req) caller_token
providers_request (list_providers caller_token) =
    do_get (text (bytes "/providers/") ∷ []) caller_token
providers_request (get_provider provider_id caller_token) =
    do_get (text (bytes "/providers/") ∷ escaped provider_id ∷ []) caller_token
providers_request (update_provider provider_id req caller_token) =
    do_json (bytes "PUT") (text (bytes "/providers/") ∷ escaped provider_id ∷ []) (json req)
      caller_token
providers_request (delete_provider provider_id caller_token) =
    do_json (bytes "DELETE") (text (bytes "/providers/") ∷ escaped provider_id ∷ []) nothing
      caller_token
providers_request (test_provider req caller_token) =
    do_json (bytes "POST") (text (bytes "/providers/test") ∷ []) (json req) caller_token
providers_request supported_provider_types =
    do_get (text (bytes "/providers/types/supported") ∷ []) []
providers_request (list_sso_sessions token) =
    do_get (text (bytes "/federation/sso/sessions") ∷ []) token
providers_request (create_sso_session token) =
    do_json (bytes "POST") (text (bytes "/federation/sso/sessions") ∷ []) empty_object token
providers_request (create_domain_token token) =
    do_json (bytes "POST") (text (bytes "/federation/sso/create-token") ∷ []) empty_object token
providers_request (get_sso_session session_id token) =
    do_get (text (bytes "/federation/sso/sessions/") ∷ escaped session_id ∷ []) token
providers_request (delete_sso_session session_id token) =
    do_json (bytes "DELETE") (text (bytes "/federation/sso/sessions/") ∷ escaped session_id ∷ [])
      nothing token
providers_request (propagate_sso caller_token) =
    do_json (bytes "POST") (text (bytes "/federation/sso/propagate") ∷ []) empty_object caller_token
providers_request (propagate_logout token) =
    do_json (bytes "POST") (text (bytes "/federation/sso/propagate-logout") ∷ []) empty_object token
providers_request (get_sso_config caller_token) =
    do_get (text (bytes "/federation/sso/config") ∷ []) caller_token

pub data FederationCall : Type 0 where
  update_sso_config : (config caller_token : Bytes) → FederationCall
  list_sso_domains : (caller_token : Bytes) → FederationCall
  get_sso_domain : (domain caller_token : Bytes) → FederationCall
  create_sso_domain : (domain req caller_token : Bytes) → FederationCall
  update_sso_domain : (domain req caller_token : Bytes) → FederationCall
  delete_sso_domain : (domain caller_token : Bytes) → FederationCall
  list_attribute_mappings : (caller_token : Bytes) → FederationCall
  create_attribute_mapping : (req caller_token : Bytes) → FederationCall
  get_jit_config : (caller_token : Bytes) → FederationCall
  update_jit_config : (config caller_token : Bytes) → FederationCall
  federation_stats : (caller_token : Bytes) → FederationCall

unfoldable pub federation_request : FederationCall → Request
federation_request (update_sso_config config caller_token) =
    do_json (bytes "PUT") (text (bytes "/federation/sso/config") ∷ []) (json config) caller_token
federation_request (list_sso_domains caller_token) =
    do_get (text (bytes "/federation/sso/domains") ∷ []) caller_token
federation_request (get_sso_domain domain caller_token) =
    do_get (text (bytes "/federation/sso/domains/") ∷ escaped domain ∷ []) caller_token
federation_request (create_sso_domain domain req caller_token) =
    do_json (bytes "POST") (text (bytes "/federation/sso/domains/") ∷ escaped domain ∷ [])
      (json req) caller_token
federation_request (update_sso_domain domain req caller_token) =
    do_json (bytes "PUT") (text (bytes "/federation/sso/domains/") ∷ escaped domain ∷ []) (json req)
      caller_token
federation_request (delete_sso_domain domain caller_token) =
    do_json (bytes "DELETE") (text (bytes "/federation/sso/domains/") ∷ escaped domain ∷ []) nothing
      caller_token
federation_request (list_attribute_mappings caller_token) =
    do_get (text (bytes "/federation/attribute-mappings") ∷ []) caller_token
federation_request (create_attribute_mapping req caller_token) =
    do_json (bytes "POST") (text (bytes "/federation/attribute-mappings") ∷ []) (json req)
      caller_token
federation_request (get_jit_config caller_token) =
    do_get (text (bytes "/federation/jit/config") ∷ []) caller_token
federation_request (update_jit_config config caller_token) =
    do_json (bytes "PUT") (text (bytes "/federation/jit/config") ∷ []) (json config) caller_token
federation_request (federation_stats caller_token) =
    do_get (text (bytes "/federation/stats") ∷ []) caller_token
