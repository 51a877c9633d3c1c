-- ===== src/Endpoints/Documented/Hris.antt =====
-- The method and the path that the doc comments of hris.go name for each method of the client.
use auth_sdk_go.Base.{refl, [], ◌∷◌}
use auth_sdk_go.Base.Text.{bytes}
use auth_sdk_go.Endpoints.Routes.{fixed, argument, route}
use auth_sdk_go.Endpoints.Documented.Comment.{Endpoint, at, Documents}
use auth_sdk_go.Endpoints.Hris.{
  HrisCall, get_hris_connection, configure_hris_connection, delete_hris_connection, sync_hris,
  get_scim_connection, enable_scim_connection, delete_scim_connection, hris_request,
}

unfoldable pub hris_documented : HrisCall → Endpoint
hris_documented (get_hris_connection org_id caller_token) = at (bytes "GET") (
    fixed (bytes "organizations")
    ∷ argument org_id
    ∷ fixed (bytes "hris")
    ∷ fixed (bytes "connection")
    ∷ [])
hris_documented (configure_hris_connection org_id req caller_token) = at (bytes "POST") (
    fixed (bytes "organizations")
    ∷ argument org_id
    ∷ fixed (bytes "hris")
    ∷ fixed (bytes "connection")
    ∷ [])
hris_documented (delete_hris_connection org_id caller_token) = at (bytes "DELETE") (
    fixed (bytes "organizations")
    ∷ argument org_id
    ∷ fixed (bytes "hris")
    ∷ fixed (bytes "connection")
    ∷ [])
hris_documented (sync_hris org_id caller_token) = at (bytes "POST") (
    fixed (bytes "organizations")
    ∷ argument org_id
    ∷ fixed (bytes "hris")
    ∷ fixed (bytes "sync")
    ∷ [])
hris_documented (get_scim_connection org_id caller_token) = at (bytes "GET") (
    fixed (bytes "organizations")
    ∷ argument org_id
    ∷ fixed (bytes "scim")
    ∷ fixed (bytes "connection")
    ∷ [])
hris_documented (enable_scim_connection org_id caller_token) = at (bytes "POST") (
    fixed (bytes "organizations")
    ∷ argument org_id
    ∷ fixed (bytes "scim")
    ∷ fixed (bytes "connection")
    ∷ [])
hris_documented (delete_scim_connection org_id caller_token) = at (bytes "DELETE") (
    fixed (bytes "organizations")
    ∷ argument org_id
    ∷ fixed (bytes "scim")
    ∷ fixed (bytes "connection")
    ∷ [])

pub hris_request-Documents : (c : HrisCall) → Documents (hris_request c) (hris_documented c)
unfolding hris_request hris_documented route
hris_request-Documents (get_hris_connection org_id caller_token) = (refl, refl)
hris_request-Documents _ = (refl, refl)
