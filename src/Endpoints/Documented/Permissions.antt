-- ===== src/Endpoints/Documented/Permissions.antt =====
-- The method and the path that the doc comments of permissions.go name for each method of the client.
use auth_sdk_go.Base.{refl, [], ◌∷◌}
use auth_sdk_go.Base.Text.{bytes}
use auth_sdk_go.Endpoints.Routes.{fixed, argument, route}
use auth_sdk_go.Endpoints.Documented.Comment.{Endpoint, at, Documents}
use auth_sdk_go.Endpoints.Permissions.{
  PublicCheckCall, check_permission_public, public_check_request, ZanzibarCall,
  zanzibar_check_wildcard, zanzibar_expand, zanzibar_list_objects, zanzibar_list_users,
  write_relationships, delete_relationships, list_relationships, create_namespace, list_namespaces,
  get_namespace, zanzibar_grant, zanzibar_revoke, setup_org_hierarchy, zanzibar_request,
  ZanzibarSetupCall, setup_team_membership, visualize_hierarchy, visualize_permissions,
  migrate_setup_defaults, migrate_permissions, watch_status, zanzibar_setup_request,
  ObjectDeletionCall, delete_relationship_by_object, object_deletion_request,
}

unfoldable pub public_check_documented : PublicCheckCall → Endpoint
public_check_documented (check_permission_public req) =
    at (bytes "POST") (fixed (bytes "auth") ∷ fixed (bytes "check-permission") ∷ [])

pub public_check_request-Documents :
    (c : PublicCheckCall) → Documents (public_check_request c) (public_check_documented c)
unfolding public_check_request public_check_documented route
public_check_request-Documents (check_permission_public req) = (refl, refl)

unfoldable pub zanzibar_documented : ZanzibarCall → Endpoint
zanzibar_documented (zanzibar_check_wildcard store_id q caller_token) = at (bytes "GET") (
    fixed (bytes "zanzibar")
    ∷ fixed (bytes "stores")
    ∷ argument store_id
    ∷ fixed (bytes "check")
    ∷ fixed (bytes "wildcard")
    ∷ [])
zanzibar_documented (zanzibar_expand store_id req caller_token) = at (bytes "POST") (
    fixed (bytes "zanzibar")
    ∷ fixed (bytes "stores")
    ∷ argument store_id
    ∷ fixed (bytes "expand")
    ∷ [])
zanzibar_documented (zanzibar_list_objects store_id req caller_token) = at (bytes "POST") (
    fixed (bytes "zanzibar")
    ∷ fixed (bytes "stores")
    ∷ argument store_id
    ∷ fixed (bytes "list-objects")
    ∷ [])
zanzibar_documented (zanzibar_list_users store_id req caller_token) = at (bytes "POST") (
    fixed (bytes "zanzibar")
    ∷ fixed (bytes "stores")
    ∷ argument store_id
    ∷ fixed (bytes "list-users")
    ∷ [])
zanzibar_documented (write_relationships store_id req token) = at (bytes "POST") (
    fixed (bytes "zanzibar")
    ∷ fixed (bytes "stores")
    ∷ argument store_id
    ∷ fixed (bytes "relationships")
    ∷ [])
zanzibar_documented (delete_relationships store_id req token) = at (bytes "DELETE") (
    fixed (bytes "zanzibar")
    ∷ fixed (bytes "stores")
    ∷ argument store_id
    ∷ fixed (bytes "relationships")
    ∷ [])
zanzibar_documented (list_relationships store_id object_type object_id relation caller_token) =
    at (bytes "GET") (
      fixed (bytes "zanzibar")
      ∷ fixed (bytes "stores")
      ∷ argument store_id
      ∷ fixed (bytes "relationships")
      ∷ argument object_type
      ∷ argument object_id
      ∷ [])
zanzibar_documented (create_namespace store_id req caller_token) = at (bytes "POST") (
    fixed (bytes "zanzibar")
    ∷ fixed (bytes "stores")
    ∷ argument store_id
    ∷ fixed (bytes "namespaces")
    ∷ [])
zanzibar_documented (list_namespaces store_id caller_token) = at (bytes "GET") (
    fixed (bytes "zanzibar")
    ∷ fixed (bytes "stores")
    ∷ argument store_id
    ∷ fixed (bytes "namespaces")
    ∷ [])
zanzibar_documented (get_namespace store_id name caller_token) = at (bytes "GET") (
    fixed (bytes "zanzibar")
    ∷ fixed (bytes "stores")
    ∷ argument store_id
    ∷ fixed (bytes "namespaces")
    ∷ argument name
    ∷ [])
zanzibar_documented (zanzibar_grant store_id req caller_token) = at (bytes "POST") (
    fixed (bytes "zanzibar")
    ∷ fixed (bytes "stores")
    ∷ argument store_id
    ∷ fixed (bytes "permissions")
    ∷ fixed (bytes "grant")
    ∷ [])
zanzibar_documented (zanzibar_revoke store_id req caller_token) = at (bytes "DELETE") (
    fixed (bytes "zanzibar")
    ∷ fixed (bytes "stores")
    ∷ argument store_id
    ∷ fixed (bytes "permissions")
    ∷ fixed (bytes "revoke")
    ∷ [])
zanzibar_documented (setup_org_hierarchy store_id req caller_token) = at (bytes "POST") (
    fixed (bytes "zanzibar")
    ∷ fixed (bytes "stores")
    ∷ argument store_id
    ∷ fixed (bytes "hierarchy")
    ∷ fixed (bytes "setup")
    ∷ [])

pub zanzibar_request-Documents :
    (c : ZanzibarCall) → Documents (zanzibar_request c) (zanzibar_documented c)
unfolding zanzibar_request zanzibar_documented route
zanzibar_request-Documents (zanzibar_check_wildcard store_id q caller_token) = (refl, refl)
zanzibar_request-Documents _ = (refl, refl)

unfoldable pub zanzibar_setup_documented : ZanzibarSetupCall → Endpoint
zanzibar_setup_documented (setup_team_membership store_id req caller_token) = at (bytes "POST") (
    fixed (bytes "zanzibar")
    ∷ fixed (bytes "stores")
    ∷ argument store_id
    ∷ fixed (bytes "teams")
    ∷ fixed (bytes "membership")
    ∷ [])
zanzibar_setup_documented (visualize_hierarchy store_id req caller_token) = at (bytes "POST") (
    fixed (bytes "zanzibar")
    ∷ fixed (bytes "stores")
    ∷ argument store_id
    ∷ fixed (bytes "visualize")
    ∷ fixed (bytes "hierarchy")
    ∷ [])
zanzibar_setup_documented (visualize_permissions store_id user_id caller_token) =
    at (bytes "POST") (
      fixed (bytes "zanzibar")
      ∷ fixed (bytes "stores")
      ∷ argument store_id
      ∷ fixed (bytes "visualize")
      ∷ fixed (bytes "permissions")
      ∷ [])
zanzibar_setup_documented (migrate_setup_defaults store_id caller_token) = at (bytes "POST") (
    fixed (bytes "zanzibar")
    ∷ fixed (bytes "stores")
    ∷ argument store_id
    ∷ fixed (bytes "migrate")
    ∷ fixed (bytes "setup-defaults")
    ∷ [])
zanzibar_setup_documented (migrate_permissions store_id user_id permissions caller_token) =
    at (bytes "POST") (
      fixed (bytes "zanzibar")
      ∷ fixed (bytes "stores")
      ∷ argument store_id
      ∷ fixed (bytes "migrate")
      ∷ fixed (bytes "permissions")
      ∷ [])
zanzibar_setup_documented (watch_status store_id caller_token) = at (bytes "GET") (
    fixed (bytes "zanzibar")
    ∷ fixed (bytes "stores")
    ∷ argument store_id
    ∷ fixed (bytes "watch")
    ∷ fixed (bytes "status")
    ∷ [])

pub zanzibar_setup_request-Documents :
    (c : ZanzibarSetupCall) → Documents (zanzibar_setup_request c) (zanzibar_setup_documented c)
unfolding zanzibar_setup_request zanzibar_setup_documented route
zanzibar_setup_request-Documents (setup_team_membership store_id req caller_token) = (refl, refl)
zanzibar_setup_request-Documents _ = (refl, refl)

unfoldable pub object_deletion_documented : ObjectDeletionCall → Endpoint
object_deletion_documented
      (delete_relationship_by_object store_id object_type object_id relation subject caller_token) =
    at (bytes "DELETE") (
      fixed (bytes "zanzibar")
      ∷ fixed (bytes "stores")
      ∷ argument store_id
      ∷ fixed (bytes "relationships")
      ∷ argument object_type
      ∷ argument object_id
      ∷ [])

pub object_deletion_request-Documents :
    (c : ObjectDeletionCall) → Documents (object_deletion_request c) (object_deletion_documented c)
unfolding object_deletion_request object_deletion_documented route
object_deletion_request-Documents
      (delete_relationship_by_object store_id object_type object_id relation subject caller_token) =
    (refl, refl)
