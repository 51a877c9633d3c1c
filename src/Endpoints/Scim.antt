-- ===== src/Endpoints/Scim.antt =====
-- scim.go: SCIM.
use auth_sdk_go.Base.{[], ◌∷◌}
use auth_sdk_go.Base.Text.{Bytes, bytes}
use auth_sdk_go.Endpoints.{Request, text, escaped, nothing, json, do_json, do_get}

pub data ScimCall : Type 0 where
  list_scim_users : (caller_token : Bytes) → ScimCall
  create_scim_user : (u caller_token : Bytes) → ScimCall
  get_scim_user : (id_ caller_token : Bytes) → ScimCall
  replace_scim_user : (id_ u caller_token : Bytes) → ScimCall
  patch_scim_user : (id_ req caller_token : Bytes) → ScimCall
  delete_scim_user : (id_ caller_token : Bytes) → ScimCall
  list_scim_groups : (caller_token : Bytes) → ScimCall
  create_scim_group : (g caller_token : Bytes) → ScimCall
  get_scim_group : (id_ caller_token : Bytes) → ScimCall
  replace_scim_group : (id_ g caller_token : Bytes) → ScimCall
  patch_scim_group : (id_ req caller_token : Bytes) → ScimCall
  delete_scim_group : (id_ caller_token : Bytes) → ScimCall
  scim_schemas : (caller_token : Bytes) → ScimCall
  scim_resource_types : (caller_token : Bytes) → ScimCall
  scim_service_provider_config : (caller_token : Bytes) → ScimCall

unfoldable pub scim_request : ScimCall → Request
scim_request (list_scim_users caller_token) =
    do_get (text (bytes "/scim/v2/Users") ∷ []) caller_token
scim_request (create_scim_user u caller_token) =
    do_json (bytes "POST") (text (bytes "/scim/v2/Users") ∷ []) (json u) caller_token
scim_request (get_scim_user id_ caller_token) =
    do_get (text (bytes "/scim/v2/Users/") ∷ escaped id_ ∷ []) caller_token
scim_request (replace_scim_user id_ u caller_token) =
    do_json (bytes "PUT") (text (bytes "/scim/v2/Users/") ∷ escaped id_ ∷ []) (json u) caller_token
scim_request (patch_scim_user id_ req caller_token) =
    do_json (bytes "PATCH") (text (bytes "/scim/v2/Users/") ∷ escaped id_ ∷ []) (json req)
      caller_token
scim_request (delete_scim_user id_ caller_token) =
    do_json (bytes "DELETE") (text (bytes "/scim/v2/Users/") ∷ escaped id_ ∷ []) nothing
      caller_token
scim_request (list_scim_groups caller_token) =
    do_get (text (bytes "/scim/v2/Groups") ∷ []) caller_token
scim_request (create_scim_group g caller_token) =
    do_json (bytes "POST") (text (bytes "/scim/v2/Groups") ∷ []) (json g) caller_token
scim_request (get_scim_group id_ caller_token) =
    do_get (text (bytes "/scim/v2/Groups/") ∷ escaped id_ ∷ []) caller_token
scim_request (replace_scim_group id_ g caller_token) =
    do_json (bytes "PUT") (text (bytes "/scim/v2/Groups/") ∷ escaped id_ ∷ []) (json g) caller_token
scim_request (patch_scim_group id_ req caller_token) =
    do_json (bytes "PATCH") (text (bytes "/scim/v2/Groups/") ∷ escaped id_ ∷ []) (json req)
      caller_token
scim_request (delete_scim_group id_ caller_token) =
    do_json (bytes "DELETE") (text (bytes "/scim/v2/Groups/") ∷ escaped id_ ∷ []) nothing
      caller_token
scim_request (scim_schemas caller_token) =
    do_get (text (bytes "/scim/v2/Schemas") ∷ []) caller_token
scim_request (scim_resource_types caller_token) =
    do_get (text (bytes "/scim/v2/ResourceTypes") ∷ []) caller_token
scim_request (scim_service_provider_config caller_token) =
    do_get (text (bytes "/scim/v2/ServiceProviderConfig") ∷ []) caller_token
