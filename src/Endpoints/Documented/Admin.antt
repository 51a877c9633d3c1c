-- ===== src/Endpoints/Documented/Admin.antt =====
-- The method and the path that the doc comments of admin.go name for each method of the client.
use auth_sdk_go.Base.{refl, [], ◌∷◌}
use auth_sdk_go.Base.Text.{bytes}
use auth_sdk_go.Endpoints.Routes.{fixed, argument, route}
use auth_sdk_go.Endpoints.Documented.Comment.{Endpoint, at, Documents}
use auth_sdk_go.Endpoints.Admin.{
  SigningAdminCall, set_password_policy, get_password_policy, force_password_reset,
  password_compliance_report, update_password_age, password_audit_events, revoke_signing_key,
  list_revoked_keys, rotate_signing_keys, jwks_rotation_status, jwks_next_rotation,
  generate_signing_key, activate_signing_key, cleanup_signing_keys, create_service_account,
  signing_admin_request, ServiceAdminCall, elevate_privileges, circuit_breaker_status,
  reset_circuit_breaker, reset_all_circuit_breakers, revocation_audit_log,
  emergency_revoke_api_keys, update_provider_status, super_admin_grant, super_admin_revoke,
  super_admin_extend, super_admin_active_grants, super_admin_approve, super_admin_cleanup_expired,
  super_admin_audit_log, service_admin_request,
}

unfoldable pub signing_admin_documented : SigningAdminCall → Endpoint
signing_admin_documented (set_password_policy req caller_token) =
    at (bytes "POST") (fixed (bytes "admin") ∷ fixed (bytes "password-policy") ∷ [])
signing_admin_documented (get_password_policy org_id caller_token) =
    at (bytes "GET")
      (fixed (bytes "admin") ∷ fixed (bytes "password-policy") ∷ argument org_id ∷ [])
signing_admin_documented (force_password_reset req caller_token) =
    at (bytes "POST")
      (fixed (bytes "admin") ∷ fixed (bytes "password-policy") ∷ fixed (bytes "force-reset") ∷ [])
signing_admin_documented (password_compliance_report caller_token) =
    at (bytes "GET")
      (fixed (bytes "admin") ∷ fixed (bytes "reports") ∷ fixed (bytes "password-compliance") ∷ [])
signing_admin_documented (update_password_age req caller_token) =
    at (bytes "POST")
      (fixed (bytes "admin") ∷ fixed (bytes "users") ∷ fixed (bytes "password-age") ∷ [])
signing_admin_documented (password_audit_events caller_token) =
    at (bytes "GET")
      (fixed (bytes "admin") ∷ fixed (bytes "audit") ∷ fixed (bytes "password-events") ∷ [])
signing_admin_documented (revoke_signing_key kid req caller_token) =
    at (bytes "POST")
      (fixed (bytes "admin") ∷ fixed (bytes "jwks") ∷ fixed (bytes "revoke") ∷ argument kid ∷ [])
signing_admin_documented (list_revoked_keys caller_token) =
    at (bytes "GET") (fixed (bytes "admin") ∷ fixed (bytes "jwks") ∷ fixed (bytes "revoked") ∷ [])
signing_admin_documented (rotate_signing_keys req caller_token) =
    at (bytes "POST") (fixed (bytes "admin") ∷ fixed (bytes "jwks") ∷ fixed (bytes "rotate") ∷ [])
signing_admin_documented (jwks_rotation_status caller_token) =
    at (bytes "GET")
      (fixed (bytes "admin") ∷ fixed (bytes "jwks") ∷ fixed (bytes "rotation-status") ∷ [])
signing_admin_documented (jwks_next_rotation caller_token) =
    at (bytes "GET")
      (fixed (bytes "admin") ∷ fixed (bytes "jwks") ∷ fixed (bytes "next-rotation") ∷ [])
signing_admin_documented (generate_signing_key req caller_token) =
    at (bytes "POST") (fixed (bytes "admin") ∷ fixed (bytes "jwks") ∷ fixed (bytes "generate") ∷ [])
signing_admin_documented (activate_signing_key kid caller_token) =
    at (bytes "POST")
      (fixed (bytes "admin") ∷ fixed (bytes "jwks") ∷ fixed (bytes "activate") ∷ argument kid ∷ [])
signing_admin_documented (cleanup_signing_keys req caller_token) =
    at (bytes "POST") (fixed (bytes "admin") ∷ fixed (bytes "jwks") ∷ fixed (bytes "cleanup") ∷ [])
signing_admin_documented (create_service_account req caller_token) =
    at (bytes "POST")
      (fixed (bytes "admin") ∷ fixed (bytes "users") ∷ fixed (bytes "create-service-account") ∷ [])

pub signing_admin_request-Documents :
    (c : SigningAdminCall) → Documents (signing_admin_request c) (signing_admin_documented c)
unfolding signing_admin_request signing_admin_documented route
signing_admin_request-Documents (set_password_policy req caller_token) = (refl, refl)
signing_admin_request-Documents _ = (refl, refl)

unfoldable pub service_admin_documented : ServiceAdminCall → Endpoint
service_admin_documented (elevate_privileges req caller_token) =
    at (bytes "POST")
      (fixed (bytes "admin") ∷ fixed (bytes "users") ∷ fixed (bytes "elevate-privileges") ∷ [])
service_admin_documented (circuit_breaker_status caller_token) =
    at (bytes "GET")
      (fixed (bytes "admin") ∷ fixed (bytes "circuit-breakers") ∷ fixed (bytes "status") ∷ [])
service_admin_documented (reset_circuit_breaker name caller_token) = at (bytes "POST") (
    fixed (bytes "admin")
    ∷ fixed (bytes "circuit-breakers")
    ∷ argument name
    ∷ fixed (bytes "reset")
    ∷ [])
service_admin_documented (reset_all_circuit_breakers caller_token) =
    at (bytes "POST")
      (fixed (bytes "admin") ∷ fixed (bytes "circuit-breakers") ∷ fixed (bytes "reset-all") ∷ [])
service_admin_documented (revocation_audit_log caller_token) =
    at (bytes "GET")
      (fixed (bytes "admin") ∷ fixed (bytes "audit") ∷ fixed (bytes "revocations") ∷ [])
service_admin_documented (emergency_revoke_api_keys req caller_token) =
    at (bytes "POST")
      (fixed (bytes "admin") ∷ fixed (bytes "api-keys") ∷ fixed (bytes "emergency-revoke") ∷ [])
service_admin_documented (update_provider_status req caller_token) =
    at (bytes "POST")
      (fixed (bytes "admin") ∷ fixed (bytes "providers") ∷ fixed (bytes "status") ∷ [])
service_admin_documented (super_admin_grant req caller_token) =
    at (bytes "POST") (fixed (bytes "super-admin") ∷ fixed (bytes "grant") ∷ [])
service_admin_documented (super_admin_revoke req caller_token) =
    at (bytes "POST") (fixed (bytes "super-admin") ∷ fixed (bytes "revoke") ∷ [])
service_admin_documented (super_admin_extend req caller_token) =
    at (bytes "POST") (fixed (bytes "super-admin") ∷ fixed (bytes "extend") ∷ [])
service_admin_documented (super_admin_active_grants caller_token) =
    at (bytes "GET") (fixed (bytes "super-admin") ∷ fixed (bytes "active-grants") ∷ [])
service_admin_documented (super_admin_approve req caller_token) =
    at (bytes "POST") (fixed (bytes "super-admin") ∷ fixed (bytes "approve") ∷ [])
service_admin_documented (super_admin_cleanup_expired caller_token) =
    at (bytes "POST") (fixed (bytes "super-admin") ∷ fixed (bytes "cleanup-expired") ∷ [])
service_admin_documented (super_admin_audit_log caller_token) =
    at (bytes "GET") (fixed (bytes "super-admin") ∷ fixed (bytes "audit-log") ∷ [])

pub service_admin_request-Documents :
    (c : ServiceAdminCall) → Documents (service_admin_request c) (service_admin_documented c)
unfolding service_admin_request service_admin_documented route
service_admin_request-Documents (elevate_privileges req caller_token) = (refl, refl)
service_admin_request-Documents _ = (refl, refl)
