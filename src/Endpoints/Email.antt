-- ===== src/Endpoints/Email.antt =====
-- email.go: e-mail settings and templates.
use auth_sdk_go.Base.{[], ◌∷◌}
use auth_sdk_go.Base.Text.{Bytes, bytes}
use auth_sdk_go.Endpoints.{Request, text, escaped, nothing, json, do_json, do_get}

pub data EmailCall : Type 0 where
  email_history : (caller_token : Bytes) → EmailCall
  email_stats : (caller_token : Bytes) → EmailCall
  global_email_config : (caller_token : Bytes) → EmailCall
  email_template_types : (caller_token : Bytes) → EmailCall
  org_email_history : (org_id caller_token : Bytes) → EmailCall
  get_org_email_config : (org_id caller_token : Bytes) → EmailCall
  update_org_email_config : (org_id req caller_token : Bytes) → EmailCall
  delete_org_email_config : (org_id caller_token : Bytes) → EmailCall
  list_org_email_templates : (org_id caller_token : Bytes) → EmailCall
  get_org_email_template : (org_id template_type caller_token : Bytes) → EmailCall
  update_org_email_template : (org_id template_type req caller_token : Bytes) → EmailCall
  delete_org_email_template : (org_id template_type caller_token : Bytes) → EmailCall

unfoldable pub email_request : EmailCall → Request
email_request (email_history caller_token) =
    do_get (text (bytes "/admin/emails/history") ∷ []) caller_token
email_request (email_stats caller_token) =
    do_get (text (bytes "/admin/emails/stats") ∷ []) caller_token
email_request (global_email_config caller_token) =
    do_get (text (bytes "/admin/emails/config") ∷ []) caller_token
email_request (email_template_types caller_token) =
    do_get (text (bytes "/admin/emails/template-types") ∷ []) caller_token
email_request (org_email_history org_id caller_token) =
    do_get (text (bytes "/organizations/") ∷ escaped org_id ∷ text (bytes "/emails/history") ∷ [])
      caller_token
email_request (get_org_email_config org_id caller_token) =
    do_get (text (bytes "/organizations/") ∷ escaped org_id ∷ text (bytes "/emails/config") ∷ [])
      caller_token
email_request (update_org_email_config org_id req caller_token) =
    do_json (bytes "PUT")
      (text (bytes "/organizations/") ∷ escaped org_id ∷ text (bytes "/emails/config") ∷ [])
      (json req) caller_token
email_request (delete_org_email_config org_id caller_token) =
    do_json (bytes "DELETE")
      (text (bytes "/organizations/") ∷ escaped org_id ∷ text (bytes "/emails/config") ∷ []) nothing
      caller_token
email_request (list_org_email_templates org_id caller_token) =
    do_get (text (bytes "/organizations/") ∷ escaped org_id ∷ text (bytes "/emails/templates") ∷ [])
      caller_token
email_request (get_org_email_template org_id template_type caller_token) =
    do_get
      (text (bytes "/organizations/")
        ∷ escaped org_id
        ∷ text (bytes "/emails/templates/")
        ∷ escaped template_type
        ∷ [])
      caller_token
email_request (update_org_email_template org_id template_type req caller_token) =
    do_json (bytes "PUT")
      (text (bytes "/organizations/")
        ∷ escaped org_id
        ∷ text (bytes "/emails/templates/")
        ∷ escaped template_type
        ∷ [])
      (json req) caller_token
email_request (delete_org_email_template org_id template_type caller_token) =
    do_json (bytes "DELETE")
      (text (bytes "/organizations/")
        ∷ escaped org_id
        ∷ text (bytes "/emails/templates/")
        ∷ escaped template_type
        ∷ [])
      nothing caller_token

pub data EmailTestCall : Type 0 where
  send_test_email : (org_id req caller_token : Bytes) → EmailTestCall

unfoldable pub email_test_request : EmailTestCall → Request
email_test_request (send_test_email org_id req caller_token) =
    do_json (bytes "POST")
      (text (bytes "/organizations/") ∷ escaped org_id ∷ text (bytes "/emails/test") ∷ [])
      (json req) caller_token
