-- ===== src/Endpoints/Documented/Comment.antt =====
-- What a doc comment says of a method of the client: the HTTP method and the segments of the path.
use auth_sdk_go.Base.{◌≡◌, List, [], ◌∷◌}
use auth_sdk_go.Base.Text.{Bytes}
use auth_sdk_go.Endpoints.{Request}
use auth_sdk_go.Endpoints.Routes.{Segment, fixed, route}

pub record Endpoint : Type 0 where
  pub method : Bytes
  pub segments : List Segment

-- The segments of a path that starts with a slash.
abbrev pub at : Bytes → List Segment → Endpoint
at method segments = record { method = method; segments = fixed [] ∷ segments }

-- The request is for the endpoint.
abbrev pub Documents : Request → Endpoint → Type 0
Documents r e = (r.method ≡ e.method) × (route r.path ≡ e.segments)
