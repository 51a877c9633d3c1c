-- ===== src/Endpoints/Documented/Email.antt =====
-- The method and the path that the doc comments of email.go name for each method of the client.
use auth_sdk_go.Base.{refl, [], ◌∷◌}
use auth_sdk_go.Base.Text.{bytes}
use auth_sdk_go.Endpoints.Routes.{fixed, argument, route}
use auth_sdk_go.Endpoints.Documented.Comment.{Endpoint, at, Documents}
use auth_sdk_go.Endpoints.Email.{
  EmailCall, email_history, email_stats, global_email_config, email_template_types,
  org_email_history, get_org_email_config, update_org_email_config, delete_org_email_config,
  list_org_email_templates, get_org_email_template, update_org_email_template,
  delete_org_email_template, email_request, EmailTestCall, send_test_email, email_test_request,
}

unfoldable pub email_documented : EmailCall → Endpoint
email_documented (email_history caller_token) =
    at (bytes "GET") (fixed (bytes "admin") ∷ fixed (bytes "emails") ∷ fixed (bytes "history") ∷ [])
email_documented (email_stats caller_token) =
    at (bytes "GET") (fixed (bytes "admin") ∷ fixed (bytes "emails") ∷ fixed (bytes "stats") ∷ [])
email_documented (global_email_config caller_token) =
    at (bytes "GET") (fixed (bytes "admin") ∷ fixed (bytes "emails") ∷ fixed (bytes "config") ∷ [])
email_documented (email_template_types caller_token) =
    at (bytes "GET")
      (fixed (bytes "admin") ∷ fixed (bytes "emails") ∷ fixed (bytes "template-types") ∷ [])
email_documented (org_email_history org_id caller_token) = at (bytes "GET") (
    fixed (bytes "organizations")
    ∷ argument org_id
    ∷ fixed (bytes "emails")
    ∷ fixed (bytes "history")
    ∷ [])
email_documented (get_org_email_config org_id caller_token) = at (bytes "GET") (
    fixed (bytes "organizations")
    ∷ argument org_id
    ∷ fixed (bytes "emails")
    ∷ fixed (bytes "config")
    ∷ [])
email_documented (update_org_email_config org_id req caller_token) = at (bytes "PUT") (
    fixed (bytes "organizations")
    ∷ argument org_id
    ∷ fixed (bytes "emails")
    ∷ fixed (bytes "config")
    ∷ [])
email_documented (delete_org_email_config org_id caller_token) = at (bytes "DELETE") (
    fixed (bytes "organizations")
    ∷ argument org_id
    ∷ fixed (bytes "emails")
    ∷ fixed (bytes "config")
    ∷ [])
email_documented (list_org_email_templates org_id caller_token) = at (bytes "GET") (
    fixed (bytes "organizations")
    ∷ argument org_id
    ∷ fixed (bytes "emails")
    ∷ fixed (bytes "templates")
    ∷ [])
email_documented (get_org_email_template org_id template_type caller_token) = at (bytes "GET") (
    fixed (bytes "organizations")
    ∷ argument org_id
    ∷ fixed (bytes "emails")
    ∷ fixed (bytes "templates")
    ∷ argument template_type
    ∷ [])
email_documented (update_org_email_template org_id template_type req caller_token) =
    at (bytes "PUT") (
      fixed (bytes "organizations")
      ∷ argument org_id
      ∷ fixed (bytes "emails")
      ∷ fixed (bytes "templates")
      ∷ argument template_type
      ∷ [])
email_documented (delete_org_email_template org_id template_type caller_token) =
    at (bytes "DELETE") (
      fixed (bytes "organizations")
      ∷ argument org_id
      ∷ fixed (bytes "emails")
      ∷ fixed (bytes "templates")
      ∷ argument template_type
      ∷ [])

pub email_request-Documents : (c : EmailCall) → Documents (email_request c) (email_documented c)
unfolding email_request email_documented route
email_request-Documents (email_history caller_token) = (refl, refl)
email_request-Documents _ = (refl, refl)

unfoldable pub email_test_documented : EmailTestCall → Endpoint
email_test_documented (send_test_email org_id req caller_token) = at (bytes "POST") (
    fixed (bytes "organizations")
    ∷ argument org_id
    ∷ fixed (bytes "emails")
    ∷ fixed (bytes "test")
    ∷ [])

pub email_test_request-Documents :
    (c : EmailTestCall) → Documents (email_test_request c) (email_test_documented c)
unfolding email_test_request email_test_documented route
email_test_request-Documents (send_test_email org_id req caller_token) = (refl, refl)
