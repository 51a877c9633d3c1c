-- ===== src/Endpoints/Documented/Scim.antt =====
-- The method and the path that the doc comments of scim.go name for each method of the client.
use auth_sdk_go.Base.{refl, [], ◌∷◌}
use auth_sdk_go.Base.Text.{bytes}
use auth_sdk_go.Endpoints.Routes.{fixed, argument, route}
use auth_sdk_go.Endpoints.Documented.Comment.{Endpoint, at, Documents}
use auth_sdk_go.Endpoints.Scim.{
  ScimCall, list_scim_users, create_scim_user, get_scim_user, replace_scim_user, patch_scim_user,
  delete_scim_user, list_scim_groups, create_scim_group, get_scim_group, replace_scim_group,
  patch_scim_group, delete_scim_group, scim_schemas, scim_resource_types,
  scim_service_provider_config, scim_request,
}

unfoldable pub scim_documented : ScimCall → Endpoint
scim_documented (list_scim_users caller_token) =
    at (bytes "GET") (fixed (bytes "scim") ∷ fixed (bytes "v2") ∷ fixed (bytes "Users") ∷ [])
scim_documented (create_scim_user u caller_token) =
    at (bytes "POST") (fixed (bytes "scim") ∷ fixed (bytes "v2") ∷ fixed (bytes "Users") ∷ [])
scim_documented (get_scim_user id_ caller_token) =
    at (bytes "GET")
      (fixed (bytes "scim") ∷ fixed (bytes "v2") ∷ fixed (bytes "Users") ∷ argument id_ ∷ [])
scim_documented (replace_scim_user id_ u caller_token) =
    at (bytes "PUT")
      (fixed (bytes "scim") ∷ fixed (bytes "v2") ∷ fixed (bytes "Users") ∷ argument id_ ∷ [])
scim_documented (patch_scim_user id_ req caller_token) =
    at (bytes "PATCH")
      (fixed (bytes "scim") ∷ fixed (bytes "v2") ∷ fixed (bytes "Users") ∷ argument id_ ∷ [])
scim_documented (delete_scim_user id_ caller_token) =
    at (bytes "DELETE")
      (fixed (bytes "scim") ∷ fixed (bytes "v2") ∷ fixed (bytes "Users") ∷ argument id_ ∷ [])
scim_documented (list_scim_groups caller_token) =
    at (bytes "GET") (fixed (bytes "scim") ∷ fixed (bytes "v2") ∷ fixed (bytes "Groups") ∷ [])
scim_documented (create_scim_group g caller_token) =
    at (bytes "POST") (fixed (bytes "scim") ∷ fixed (bytes "v2") ∷ fixed (bytes "Groups") ∷ [])
scim_documented (get_scim_group id_ caller_token) =
    at (bytes "GET")
      (fixed (bytes "scim") ∷ fixed (bytes "v2") ∷ fixed (bytes "Groups") ∷ argument id_ ∷ [])
scim_documented (replace_scim_group id_ g caller_token) =
    at (bytes "PUT")
      (fixed (bytes "scim") ∷ fixed (bytes "v2") ∷ fixed (bytes "Groups") ∷ argument id_ ∷ [])
scim_documented (patch_scim_group id_ req caller_token) =
    at (bytes "PATCH")
      (fixed (bytes "scim") ∷ fixed (bytes "v2") ∷ fixed (bytes "Groups") ∷ argument id_ ∷ [])
scim_documented (delete_scim_group id_ caller_token) =
    at (bytes "DELETE")
      (fixed (bytes "scim") ∷ fixed (bytes "v2") ∷ fixed (bytes "Groups") ∷ argument id_ ∷ [])
scim_documented (scim_schemas caller_token) =
    at (bytes "GET") (fixed (bytes "scim") ∷ fixed (bytes "v2") ∷ fixed (bytes "Schemas") ∷ [])
scim_documented (scim_resource_types caller_token) =
    at (bytes "GET")
      (fixed (bytes "scim") ∷ fixed (bytes "v2") ∷ fixed (bytes "ResourceTypes") ∷ [])
scim_documented (scim_service_provider_config caller_token) =
    at (bytes "GET")
      (fixed (bytes "scim") ∷ fixed (bytes "v2") ∷ fixed (bytes "ServiceProviderConfig") ∷ [])

pub scim_request-Documents : (c : ScimCall) → Documents (scim_request c) (scim_documented c)
unfolding scim_request scim_documented route
scim_request-Documents (list_scim_users caller_token) = (refl, refl)
scim_request-Documents _ = (refl, refl)
