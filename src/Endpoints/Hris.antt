-- ===== src/Endpoints/Hris.antt =====
-- hris.go: HRIS and SCIM connections of an organization.
use auth_sdk_go.Base.{}
use auth_sdk_go.Base.Text.{Bytes, bytes}
use auth_sdk_go.Endpoints.{Request, nothing, json, do_json, do_get, org_path}

pub data HrisCall : Type 0 where
  get_hris_connection : (org_id caller_token : Bytes) → HrisCall
  configure_hris_connection : (org_id req caller_token : Bytes) → HrisCall
  delete_hris_connection : (org_id caller_token : Bytes) → HrisCall
  sync_hris : (org_id caller_token : Bytes) → HrisCall
  get_scim_connection : (org_id caller_token : Bytes) → HrisCall
  enable_scim_connection : (org_id caller_token : Bytes) → HrisCall
  delete_scim_connection : (org_id caller_token : Bytes) → HrisCall

unfoldable pub hris_request : HrisCall → Request
unfolding org_path
hris_request (get_hris_connection org_id caller_token) =
    do_get (org_path org_id (bytes "/hris/connection")) caller_token
hris_request (configure_hris_connection org_id req caller_token) =
    do_json (bytes "POST") (org_path org_id (bytes "/hris/connection")) (json req) caller_token
hris_request (delete_hris_connection org_id caller_token) =
    do_json (bytes "DELETE") (org_path org_id (bytes "/hris/connection")) nothing caller_token
hris_request (sync_hris org_id caller_token) =
    do_json (bytes "POST") (org_path org_id (bytes "/hris/sync")) nothing caller_token
hris_request (get_scim_connection org_id caller_token) =
    do_get (org_path org_id (bytes "/scim/connection")) caller_token
hris_request (enable_scim_connection org_id caller_token) =
    do_json (bytes "POST") (org_path org_id (bytes "/scim/connection")) nothing caller_token
hris_request (delete_scim_connection org_id caller_token) =
    do_json (bytes "DELETE") (org_path org_id (bytes "/scim/connection")) nothing caller_token
