-- ===== src/Endpoints/Admin.antt =====
-- admin.go: the administration of passwords, signing keys, accounts, circuit breakers and grants.
use auth_sdk_go.Base.{[], ◌∷◌}
use auth_sdk_go.Base.Text.{Bytes, bytes}
use auth_sdk_go.Endpoints.{Request, text, escaped, json, do_json, do_get, empty_object}

pub data SigningAdminCall : Type 0 where
  set_password_policy : (req caller_token : Bytes) → SigningAdminCall
  get_password_policy : (org_id caller_token : Bytes) → SigningAdminCall
  force_password_reset : (req caller_token : Bytes) → SigningAdminCall
  password_compliance_report : (caller_token : Bytes) → SigningAdminCall
  update_password_age : (req caller_token : Bytes) → SigningAdminCall
  password_audit_events : (caller_token : Bytes) → SigningAdminCall
  revoke_signing_key : (kid req caller_token : Bytes) → SigningAdminCall
  list_revoked_keys : (caller_token : Bytes) → SigningAdminCall
  rotate_signing_keys : (req caller_token : Bytes) → SigningAdminCall
  jwks_rotation_status : (caller_token : Bytes) → SigningAdminCall
  jwks_next_rotation : (caller_token : Bytes) → SigningAdminCall
  generate_signing_key : (req caller_token : Bytes) → SigningAdminCall
  activate_signing_key : (kid caller_token : Bytes) → SigningAdminCall
  cleanup_signing_keys : (req caller_token : Bytes) → SigningAdminCall
  create_service_account : (req caller_token : Bytes) → SigningAdminCall

unfoldable pub signing_admin_request : SigningAdminCall → Request
signing_admin_request (set_password_policy req caller_token) =
    do_json (bytes "POST") (text (bytes "/admin/password-policy") ∷ []) (json req) caller_token
signing_admin_request (get_password_policy org_id caller_token) =
    do_get (text (bytes "/admin/password-policy/") ∷ escaped org_id ∷ []) caller_token
signing_admin_request (force_password_reset req caller_token) =
    do_json (bytes "POST") (text (bytes "/admin/password-policy/force-reset") ∷ []) (json req)
      caller_token
signing_admin_request (password_compliance_report caller_token) =
    do_get (text (bytes "/admin/reports/password-compliance") ∷ []) caller_token
signing_admin_request (update_password_age req caller_token) =
    do_json (bytes "POST") (text (bytes "/admin/users/password-age") ∷ []) (json req) caller_token
signing_admin_request (password_audit_events caller_token) =
    do_get (text (bytes "/admin/audit/password-events") ∷ []) caller_token
signing_admin_request (revoke_signing_key kid req caller_token) =
    do_json (bytes "POST") (text (bytes "/admin/jwks/revoke/") ∷ escaped kid ∷ []) (json req)
      caller_token
signing_admin_request (list_revoked_keys caller_token) =
    do_get (text (bytes "/admin/jwks/revoked") ∷ []) caller_token
signing_admin_request (rotate_signing_keys req caller_token) =
    do_json (bytes "POST") (text (bytes "/admin/jwks/rotate") ∷ []) (json req) caller_token
signing_admin_request (jwks_rotation_status caller_token) =
    do_get (text (bytes "/admin/jwks/rotation-status") ∷ []) caller_token
signing_admin_request (jwks_next_rotation caller_token) =
    do_get (text (bytes "/admin/jwks/next-rotation") ∷ []) caller_token
signing_admin_request (generate_signing_key req caller_token) =
    do_json (bytes "POST") (text (bytes "/admin/jwks/generate") ∷ []) (json req) caller_token
signing_admin_request (activate_signing_key kid caller_token) =
    do_json (bytes "POST") (text (bytes "/admin/jwks/activate/") ∷ escaped kid ∷ []) empty_object
      caller_token
signing_admin_request (cleanup_signing_keys req caller_token) =
    do_json (bytes "POST") (text (bytes "/admin/jwks/cleanup") ∷ []) (json req) caller_token
signing_admin_request (create_service_account req caller_token) =
    do_json (bytes "POST") (text (bytes "/admin/users/create-service-account") ∷ []) (json req)
      caller_token

pub data ServiceAdminCall : Type 0 where
  elevate_privileges : (req caller_token : Bytes) → ServiceAdminCall
  circuit_breaker_status : (caller_token : Bytes) → ServiceAdminCall
  reset_circuit_breaker : (name caller_token : Bytes) → ServiceAdminCall
  reset_all_circuit_breakers : (caller_token : Bytes) → ServiceAdminCall
  revocation_audit_log : (caller_token : Bytes) → ServiceAdminCall
  emergency_revoke_api_keys : (req caller_token : Bytes) → ServiceAdminCall
  update_provider_status : (req caller_token : Bytes) → ServiceAdminCall
  super_admin_grant : (req caller_token : Bytes) → ServiceAdminCall
  super_admin_revoke : (req caller_token : Bytes) → ServiceAdminCall
  super_admin_extend : (req caller_token : Bytes) → ServiceAdminCall
  super_admin_active_grants : (caller_token : Bytes) → ServiceAdminCall
  super_admin_approve : (req caller_token : Bytes) → ServiceAdminCall
  super_admin_cleanup_expired : (caller_token : Bytes) → ServiceAdminCall
  super_admin_audit_log : (caller_token : Bytes) → ServiceAdminCall

unfoldable pub service_admin_request : ServiceAdminCall → Request
service_admin_request (elevate_privileges req caller_token) =
    do_json (bytes "POST") (text (bytes "/admin/users/elevate-privileges") ∷ []) (json req)
      caller_token
service_admin_request (circuit_breaker_status caller_token) =
    do_get (text (bytes "/admin/circuit-breakers/status") ∷ []) caller_token
service_admin_request (reset_circuit_breaker name caller_token) =
    do_json (bytes "POST")
      (text (bytes "/admin/circuit-breakers/") ∷ escaped name ∷ text (bytes "/reset") ∷ [])
      empty_object caller_token
service_admin_request (reset_all_circuit_breakers caller_token) =
    do_json (bytes "POST") (text (bytes "/admin/circuit-breakers/reset-all") ∷ []) empty_object
      caller_token
service_admin_request (revocation_audit_log caller_token) =
    do_get (text (bytes "/admin/audit/revocations") ∷ []) caller_token
service_admin_request (emergency_revoke_api_keys req caller_token) =
    do_json (bytes "POST") (text (bytes "/admin/api-keys/emergency-revoke") ∷ []) (json req)
      caller_token
service_admin_request (update_provider_status req caller_token) =
    do_json (bytes "POST") (text (bytes "/admin/providers/status") ∷ []) (json req) caller_token
service_admin_request (super_admin_grant req caller_token) =
    do_json (bytes "POST") (text (bytes "/super-admin/grant") ∷ []) (json req) caller_token
service_admin_request (super_admin_revoke req caller_token) =
    do_json (bytes "POST") (text (bytes "/super-admin/revoke") ∷ []) (json req) caller_token
service_admin_request (super_admin_extend req caller_token) =
    do_json (bytes "POST") (text (bytes "/super-admin/extend") ∷ []) (json req) caller_token
service_admin_request (super_admin_active_grants caller_token) =
    do_get (text (bytes "/super-admin/active-grants") ∷ []) caller_token
service_admin_request (super_admin_approve req caller_token) =
    do_json (bytes "POST") (text (bytes "/super-admin/approve") ∷ []) (json req) caller_token
service_admin_request (super_admin_cleanup_expired caller_token) =
    do_json (bytes "POST") (text (bytes "/super-admin/cleanup-expired") ∷ []) empty_object
      caller_token
service_admin_request (super_admin_audit_log caller_token) =
    do_get (text (bytes "/super-admin/audit-log") ∷ []) caller_token
