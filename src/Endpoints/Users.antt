-- ===== src/Endpoints/Users.antt =====
-- users.go: profiles and accounts.
use auth_sdk_go.Base.{[], ◌∷◌}
use auth_sdk_go.Base.Text.{Bytes, bytes}
use auth_sdk_go.Endpoints.{Request, text, escaped, json, json_object, do_json, do_get, empty_object}

pub data ProfileCall : Type 0 where
  get_my_profile : (token : Bytes) → ProfileCall
  update_my_profile : (token upd : Bytes) → ProfileCall
  change_my_password : (token req : Bytes) → ProfileCall

unfoldable pub profile_request : ProfileCall → Request
profile_request (get_my_profile token) = do_get (text (bytes "/users/me") ∷ []) token
profile_request (update_my_profile token upd) =
    do_json (bytes "PUT") (text (bytes "/users/me") ∷ []) (json upd) token
profile_request (change_my_password token req) =
    do_json (bytes "POST") (text (bytes "/users/me/change-password") ∷ []) (json req) token

pub data UserAdminCall : Type 0 where
  update_user : (user_id upd caller_token : Bytes) → UserAdminCall
  verify_user_email : (user_id caller_token : Bytes) → UserAdminCall
  deactivate_user : (user_id caller_token : Bytes) → UserAdminCall
  activate_user : (user_id caller_token : Bytes) → UserAdminCall
  request_password_reset : (req : Bytes) → UserAdminCall
  reset_password : (req : Bytes) → UserAdminCall

unfoldable pub user_admin_request : UserAdminCall → Request
user_admin_request (update_user user_id upd caller_token) =
    do_json (bytes "PUT") (text (bytes "/users/") ∷ escaped user_id ∷ []) (json upd) caller_token
user_admin_request (verify_user_email user_id caller_token) =
    do_json (bytes "POST")
      (text (bytes "/users/") ∷ escaped user_id ∷ text (bytes "/verify-email") ∷ []) empty_object
      caller_token
user_admin_request (deactivate_user user_id caller_token) =
    do_json (bytes "POST")
      (text (bytes "/users/") ∷ escaped user_id ∷ text (bytes "/deactivate") ∷ []) empty_object
      caller_token
user_admin_request (activate_user user_id caller_token) =
    do_json (bytes "POST")
      (text (bytes "/users/") ∷ escaped user_id ∷ text (bytes "/activate") ∷ []) empty_object
      caller_token
user_admin_request (request_password_reset req) =
    do_json (bytes "POST") (text (bytes "/users/request-password-reset") ∷ []) (json req) []
user_admin_request (reset_password req) =
    do_json (bytes "POST") (text (bytes "/users/reset-password") ∷ []) (json req) []

pub data SelfDeletionCall : Type 0 where
  delete_current_user : (confirm_email caller_token : Bytes) → SelfDeletionCall

unfoldable pub self_deletion_request : SelfDeletionCall → Request
self_deletion_request (delete_current_user confirm_email caller_token) =
    do_json (bytes "DELETE") (text (bytes "/users/me") ∷ [])
      (json_object ((bytes "confirm_email", confirm_email) ∷ [])) caller_token
