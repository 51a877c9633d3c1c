-- ===== src/Endpoints/Documented/Roles.antt =====
-- The method and the path that the doc comments of roles.go name for each method of the client.
use auth_sdk_go.Base.{refl, [], ◌∷◌}
use auth_sdk_go.Base.Text.{bytes}
use auth_sdk_go.Endpoints.Routes.{fixed, route}
use auth_sdk_go.Endpoints.Documented.Comment.{Endpoint, at, Documents}
use auth_sdk_go.Endpoints.Roles.{
  GrantsCall, grant_permission, revoke_permission, grants_request, RegistryCall,
  list_registered_services, list_valid_permissions, registry_request, RegistryWritingCall,
  registry_stats, register_service_permissions, registry_writing_request,
}

unfoldable pub grants_documented : GrantsCall → Endpoint
grants_documented (grant_permission user_id org_id permission caller_token) =
    at (bytes "POST") (fixed (bytes "permissions") ∷ fixed (bytes "grant") ∷ [])
grants_documented (revoke_permission user_id org_id permission caller_token) =
    at (bytes "POST") (fixed (bytes "permissions") ∷ fixed (bytes "revoke") ∷ [])

pub grants_request-Documents : (c : GrantsCall) → Documents (grants_request c) (grants_documented c)
unfolding grants_request grants_documented route
grants_request-Documents (grant_permission user_id org_id permission caller_token) = (refl, refl)
grants_request-Documents _ = (refl, refl)

unfoldable pub registry_documented : RegistryCall → Endpoint
registry_documented (list_registered_services caller_token) =
    at (bytes "GET")
      (fixed (bytes "permissions") ∷ fixed (bytes "registry") ∷ fixed (bytes "services") ∷ [])
registry_documented (list_valid_permissions) = at (bytes "GET") (
    fixed (bytes "permissions") ∷ fixed (bytes "registry") ∷ fixed (bytes "valid-permissions") ∷ [])

pub registry_request-Documents :
    (c : RegistryCall) → Documents (registry_request c) (registry_documented c)
unfolding registry_request registry_documented route
registry_request-Documents (list_registered_services caller_token) = (refl, refl)
registry_request-Documents _ = (refl, refl)

unfoldable pub registry_writing_documented : RegistryWritingCall → Endpoint
registry_writing_documented (registry_stats) =
    at (bytes "GET")
      (fixed (bytes "permissions") ∷ fixed (bytes "registry") ∷ fixed (bytes "stats") ∷ [])
registry_writing_documented (register_service_permissions req caller_token) =
    at (bytes "POST")
      (fixed (bytes "permissions") ∷ fixed (bytes "registry") ∷ fixed (bytes "register") ∷ [])

pub registry_writing_request-Documents :
    (c : RegistryWritingCall)
    → Documents (registry_writing_request c) (registry_writing_documented c)
unfolding registry_writing_request registry_writing_documented route
registry_writing_request-Documents (registry_stats) = (refl, refl)
registry_writing_request-Documents _ = (refl, refl)
