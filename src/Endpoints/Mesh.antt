-- ===== src/Endpoints/Mesh.antt =====
-- mesh.go: the mesh directory.
use auth_sdk_go.Base.{[], ◌∷◌}
use auth_sdk_go.Base.Text.{Bytes, bytes}
use auth_sdk_go.Endpoints.{Values, Request, text, escaped, query, json, do_json, do_get}

pub data MeshCall : Type 0 where
  list_mesh_providers : (q : Values) (caller_token : Bytes) → MeshCall
  get_mesh_provider : (service_id caller_token : Bytes) → MeshCall
  publish_mesh_provider : (req caller_token : Bytes) → MeshCall

unfoldable pub mesh_request : MeshCall → Request
mesh_request (list_mesh_providers q caller_token) =
    do_get (text (bytes "/mesh/providers") ∷ query q ∷ []) caller_token
mesh_request (get_mesh_provider service_id caller_token) =
    do_get (text (bytes "/mesh/providers/") ∷ escaped service_id ∷ []) caller_token
mesh_request (publish_mesh_provider req caller_token) =
    do_json (bytes "POST") (text (bytes "/mesh/providers") ∷ []) (json req) caller_token
