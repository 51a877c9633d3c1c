-- ===== src/Endpoints/Documented/Quotas.antt =====
-- The method and the path that the doc comments of quotas.go name for each method of the client.
use auth_sdk_go.Base.{refl, [], ◌∷◌}
use auth_sdk_go.Base.Text.{bytes}
use auth_sdk_go.Endpoints.Routes.{fixed, argument, route}
use auth_sdk_go.Endpoints.Documented.Comment.{Endpoint, at, Documents}
use auth_sdk_go.Endpoints.Quotas.{
  QuotaUsageCall, my_quota_usage, quota_usage_request, QuotaTierCall, quota_tiers,
  quota_tier_request, ReportsCall, submit_report, list_reports, dismiss_report, resolve_report,
  reports_request,
}

unfoldable pub quota_usage_documented : QuotaUsageCall → Endpoint
quota_usage_documented (my_quota_usage token) =
    at (bytes "GET") (fixed (bytes "quotas") ∷ fixed (bytes "my-usage") ∷ [])

pub quota_usage_request-Documents :
    (c : QuotaUsageCall) → Documents (quota_usage_request c) (quota_usage_documented c)
unfolding quota_usage_request quota_usage_documented route
quota_usage_request-Documents (my_quota_usage token) = (refl, refl)

unfoldable pub quota_tier_documented : QuotaTierCall → Endpoint
quota_tier_documented (quota_tiers) =
    at (bytes "GET") (fixed (bytes "quotas") ∷ fixed (bytes "tiers") ∷ [])

pub quota_tier_request-Documents :
    (c : QuotaTierCall) → Documents (quota_tier_request c) (quota_tier_documented c)
unfolding quota_tier_request quota_tier_documented route
quota_tier_request-Documents (quota_tiers) = (refl, refl)

unfoldable pub reports_documented : ReportsCall → Endpoint
reports_documented (submit_report req) = at (bytes "POST") (fixed (bytes "reports") ∷ [])
reports_documented (list_reports caller_token) = at (bytes "GET") (fixed (bytes "reports") ∷ [])
reports_documented (dismiss_report report_id caller_token) =
    at (bytes "POST") (fixed (bytes "reports") ∷ argument report_id ∷ fixed (bytes "dismiss") ∷ [])
reports_documented (resolve_report report_id caller_token) =
    at (bytes "POST") (fixed (bytes "reports") ∷ argument report_id ∷ fixed (bytes "resolve") ∷ [])

pub reports_request-Documents :
    (c : ReportsCall) → Documents (reports_request c) (reports_documented c)
unfolding reports_request reports_documented route
reports_request-Documents (submit_report req) = (refl, refl)
reports_request-Documents _ = (refl, refl)
