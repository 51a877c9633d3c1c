-- ===== src/Endpoints/Saml.antt =====
-- saml.go: SAML.
use auth_sdk_go.Base.{[], ◌∷◌}
use auth_sdk_go.Base.Text.{Bytes, bytes}
use auth_sdk_go.Endpoints.{
  Values, Request, text, escaped, query, nothing, json, do_json, do_get, do_form, get_string,
  post_form_string, empty_object,
}

pub data SamlCall : Type 0 where
  saml_metadata : SamlCall
  saml_sso_redirect : (params : Values) → SamlCall
  saml_sso_post : (form : Values) → SamlCall
  saml_assertion_consumer : (form : Values) → SamlCall
  saml_single_logout : (form : Values) → SamlCall
  saml_sp_metadata : (sp_id : Bytes) → SamlCall
  register_saml_sp : (req caller_token : Bytes) → SamlCall
  list_saml_sessions : (token : Bytes) → SamlCall
  list_saml_sps : (caller_token : Bytes) → SamlCall
  get_saml_sp : (sp_id caller_token : Bytes) → SamlCall
  update_saml_sp : (sp_id req caller_token : Bytes) → SamlCall
  delete_saml_sp : (sp_id caller_token : Bytes) → SamlCall
  get_saml_attribute_mappings : (caller_token : Bytes) → SamlCall
  update_saml_attribute_mappings : (req caller_token : Bytes) → SamlCall
  get_saml_certificates : (caller_token : Bytes) → SamlCall
  generate_saml_certificate : (caller_token : Bytes) → SamlCall

unfoldable pub saml_request : SamlCall → Request
saml_request saml_metadata = get_string (text (bytes "/saml/metadata") ∷ []) []
saml_request (saml_sso_redirect params) =
    get_string (text (bytes "/saml/sso") ∷ query params ∷ []) []
saml_request (saml_sso_post form) = post_form_string (text (bytes "/saml/sso") ∷ []) form
saml_request (saml_assertion_consumer form) = do_form (text (bytes "/saml/acs") ∷ []) form []
saml_request (saml_single_logout form) = do_form (text (bytes "/saml/slo") ∷ []) form []
saml_request (saml_sp_metadata sp_id) =
    get_string (text (bytes "/saml/sp/") ∷ escaped sp_id ∷ text (bytes "/metadata") ∷ []) []
saml_request (register_saml_sp req caller_token) =
    do_json (bytes "POST") (text (bytes "/saml/sp/register") ∷ []) (json req) caller_token
saml_request (list_saml_sessions token) = do_get (text (bytes "/saml/sessions") ∷ []) token
saml_request (list_saml_sps caller_token) = do_get (text (bytes "/saml/sp/list") ∷ []) caller_token
saml_request (get_saml_sp sp_id caller_token) =
    do_get (text (bytes "/saml/sp/") ∷ escaped sp_id ∷ []) caller_token
saml_request (update_saml_sp sp_id req caller_token) =
    do_json (bytes "PUT") (text (bytes "/saml/sp/") ∷ escaped sp_id ∷ []) (json req) caller_token
saml_request (delete_saml_sp sp_id caller_token) =
    do_json (bytes "DELETE") (text (bytes "/saml/sp/") ∷ escaped sp_id ∷ []) nothing caller_token
saml_request (get_saml_attribute_mappings caller_token) =
    do_get (text (bytes "/saml/attributes/mappings") ∷ []) caller_token
saml_request (update_saml_attribute_mappings req caller_token) =
    do_json (bytes "PUT") (text (bytes "/saml/attributes/mappings") ∷ []) (json req) caller_token
saml_request (get_saml_certificates caller_token) =
    do_get (text (bytes "/saml/certificates") ∷ []) caller_token
saml_request (generate_saml_certificate caller_token) =
    do_json (bytes "POST") (text (bytes "/saml/certificates/generate") ∷ []) empty_object
      caller_token

pub data SamlMetadataCall : Type 0 where
  saml_analytics : (caller_token : Bytes) → SamlMetadataCall
  saml_service_provider_metadata : SamlMetadataCall

unfoldable pub saml_metadata_request : SamlMetadataCall → Request
saml_metadata_request (saml_analytics caller_token) =
    do_get (text (bytes "/saml/analytics") ∷ []) caller_token
saml_metadata_request saml_service_provider_metadata =
    get_string (text (bytes "/saml/sp/metadata") ∷ []) []
