-- ===== src/Endpoints/Documented/System.antt =====
-- The method and the path that the doc comments of system.go name for each method of the client.
use auth_sdk_go.Base.{refl, [], ◌∷◌}
use auth_sdk_go.Base.Text.{bytes}
use auth_sdk_go.Endpoints.Routes.{fixed, route}
use auth_sdk_go.Endpoints.Documented.Comment.{Endpoint, at, Documents}
use auth_sdk_go.Endpoints.System.{
  SystemCall, jwks_metrics, recent_alerts, health, status, jwks_health_detail, recover_jwks,
  enterprise_license, help, enterprise_help, metrics, discover, system_request,
}

unfoldable pub system_documented : SystemCall → Endpoint
system_documented (jwks_metrics caller_token) =
    at (bytes "GET") (fixed (bytes "metrics") ∷ fixed (bytes "jwks") ∷ [])
system_documented (recent_alerts caller_token) =
    at (bytes "GET")
      (fixed (bytes "metrics") ∷ fixed (bytes "alerts") ∷ fixed (bytes "recent") ∷ [])
system_documented (health) = at (bytes "GET") (fixed (bytes "health") ∷ [])
system_documented (status) = at (bytes "GET") (fixed (bytes "status") ∷ [])
system_documented (jwks_health_detail) =
    at (bytes "GET") (fixed (bytes "health") ∷ fixed (bytes "jwks") ∷ [])
system_documented (recover_jwks) =
    at (bytes "POST") (fixed (bytes "health") ∷ fixed (bytes "jwks") ∷ fixed (bytes "recover") ∷ [])
system_documented (enterprise_license) =
    at (bytes "GET") (fixed (bytes "enterprise") ∷ fixed (bytes "license") ∷ [])
system_documented (help) = at (bytes "GET") (fixed (bytes "help") ∷ [])
system_documented (enterprise_help) =
    at (bytes "GET") (fixed (bytes "help") ∷ fixed (bytes "enterprise") ∷ [])
system_documented (metrics caller_token) = at (bytes "GET") (fixed (bytes "metrics") ∷ [])
system_documented (discover) = at (bytes "GET") (fixed [] ∷ [])

pub system_request-Documents : (c : SystemCall) → Documents (system_request c) (system_documented c)
unfolding system_request system_documented route
system_request-Documents (jwks_metrics caller_token) = (refl, refl)
system_request-Documents _ = (refl, refl)
