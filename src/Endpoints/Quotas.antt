-- ===== src/Endpoints/Quotas.antt =====
-- quotas.go: quotas and reports.
use auth_sdk_go.Base.{[], ◌∷◌}
use auth_sdk_go.Base.Text.{Bytes, bytes}
use auth_sdk_go.Endpoints.{Request, text, escaped, json, do_json, do_get, empty_object}

pub data QuotaUsageCall : Type 0 where
  my_quota_usage : (token : Bytes) → QuotaUsageCall

unfoldable pub quota_usage_request : QuotaUsageCall → Request
quota_usage_request (my_quota_usage token) = do_get (text (bytes "/quotas/my-usage") ∷ []) token

pub data QuotaTierCall : Type 0 where
  quota_tiers : QuotaTierCall

unfoldable pub quota_tier_request : QuotaTierCall → Request
quota_tier_request quota_tiers = do_get (text (bytes "/quotas/tiers") ∷ []) []

pub data ReportsCall : Type 0 where
  submit_report : (req : Bytes) → ReportsCall
  list_reports : (caller_token : Bytes) → ReportsCall
  dismiss_report : (report_id caller_token : Bytes) → ReportsCall
  resolve_report : (report_id caller_token : Bytes) → ReportsCall

unfoldable pub reports_request : ReportsCall → Request
reports_request (submit_report req) =
    do_json (bytes "POST") (text (bytes "/reports") ∷ []) (json req) []
reports_request (list_reports caller_token) = do_get (text (bytes "/reports") ∷ []) caller_token
reports_request (dismiss_report report_id caller_token) =
    do_json (bytes "POST")
      (text (bytes "/reports/") ∷ escaped report_id ∷ text (bytes "/dismiss") ∷ []) empty_object
      caller_token
reports_request (resolve_report report_id caller_token) =
    do_json (bytes "POST")
      (text (bytes "/reports/") ∷ escaped report_id ∷ text (bytes "/resolve") ∷ []) empty_object
      caller_token
