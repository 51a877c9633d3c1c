-- ===== src/Endpoints/System.antt =====
-- system.go: metrics, health and help.
use auth_sdk_go.Base.{[], ◌∷◌}
use auth_sdk_go.Base.Text.{Bytes, bytes}
use auth_sdk_go.Endpoints.{Request, text, do_json, do_get, empty_object}

pub data SystemCall : Type 0 where
  jwks_metrics : (caller_token : Bytes) → SystemCall
  recent_alerts : (caller_token : Bytes) → SystemCall
  health : SystemCall
  status : SystemCall
  jwks_health_detail : SystemCall
  recover_jwks : SystemCall
  enterprise_license : SystemCall
  help : SystemCall
  enterprise_help : SystemCall
  metrics : (caller_token : Bytes) → SystemCall
  discover : SystemCall

unfoldable pub system_request : SystemCall → Request
system_request (jwks_metrics caller_token) = do_get (text (bytes "/metrics/jwks") ∷ []) caller_token
system_request (recent_alerts caller_token) =
    do_get (text (bytes "/metrics/alerts/recent") ∷ []) caller_token
system_request health = do_get (text (bytes "/health") ∷ []) []
system_request status = do_get (text (bytes "/status") ∷ []) []
system_request jwks_health_detail = do_get (text (bytes "/health/jwks") ∷ []) []
system_request recover_jwks =
    do_json (bytes "POST") (text (bytes "/health/jwks/recover") ∷ []) empty_object []
system_request enterprise_license = do_get (text (bytes "/enterprise/license") ∷ []) []
system_request help = do_get (text (bytes "/help") ∷ []) []
system_request enterprise_help = do_get (text (bytes "/help/enterprise") ∷ []) []
system_request (metrics caller_token) = do_get (text (bytes "/metrics") ∷ []) caller_token
system_request discover = do_get (text (bytes "/") ∷ []) []
