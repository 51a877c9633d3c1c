-- ===== src/Endpoints/Documented/Mesh.antt =====
-- The method and the path that the doc comments of mesh.go name for each method of the client.
use auth_sdk_go.Base.{refl, [], ◌∷◌}
use auth_sdk_go.Base.Text.{bytes}
use auth_sdk_go.Endpoints.Routes.{fixed, argument, route}
use auth_sdk_go.Endpoints.Documented.Comment.{Endpoint, at, Documents}
use auth_sdk_go.Endpoints.Mesh.{
  MeshCall, list_mesh_providers, get_mesh_provider, publish_mesh_provider, mesh_request,
}

unfoldable pub mesh_documented : MeshCall → Endpoint
mesh_documented (list_mesh_providers q caller_token) =
    at (bytes "GET") (fixed (bytes "mesh") ∷ fixed (bytes "providers") ∷ [])
mesh_documented (get_mesh_provider service_id caller_token) =
    at (bytes "GET") (fixed (bytes "mesh") ∷ fixed (bytes "providers") ∷ argument service_id ∷ [])
mesh_documented (publish_mesh_provider req caller_token) =
    at (bytes "POST") (fixed (bytes "mesh") ∷ fixed (bytes "providers") ∷ [])

pub mesh_request-Documents : (c : MeshCall) → Documents (mesh_request c) (mesh_documented c)
unfolding mesh_request mesh_documented route
mesh_request-Documents (list_mesh_providers q caller_token) = (refl, refl)
mesh_request-Documents _ = (refl, refl)
