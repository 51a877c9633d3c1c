-- ===== src/Endpoints/Documented/Users.antt =====
-- The method and the path that the doc comments of users.go name for each method of the client.
use auth_sdk_go.Base.{refl, [], ◌∷◌}
use auth_sdk_go.Base.Text.{bytes}
use auth_sdk_go.Endpoints.Routes.{fixed, argument, route}
use auth_sdk_go.Endpoints.Documented.Comment.{Endpoint, at, Documents}
use auth_sdk_go.Endpoints.Users.{
  ProfileCall, get_my_profile, update_my_profile, change_my_password, profile_request,
  UserAdminCall, update_user, verify_user_email, deactivate_user, activate_user,
  request_password_reset, reset_password, user_admin_request, SelfDeletionCall, delete_current_user,
  self_deletion_request,
}

unfoldable pub profile_documented : ProfileCall → Endpoint
profile_documented (get_my_profile token) =
    at (bytes "GET") (fixed (bytes "users") ∷ fixed (bytes "me") ∷ [])
profile_documented (update_my_profile token upd) =
    at (bytes "PUT") (fixed (bytes "users") ∷ fixed (bytes "me") ∷ [])
profile_documented (change_my_password token req) =
    at (bytes "POST")
      (fixed (bytes "users") ∷ fixed (bytes "me") ∷ fixed (bytes "change-password") ∷ [])

pub profile_request-Documents :
    (c : ProfileCall) → Documents (profile_request c) (profile_documented c)
unfolding profile_request profile_documented route
profile_request-Documents (get_my_profile token) = (refl, refl)
profile_request-Documents _ = (refl, refl)

unfoldable pub user_admin_documented : UserAdminCall → Endpoint
user_admin_documented (update_user user_id upd caller_token) =
    at (bytes "PUT") (fixed (bytes "users") ∷ argument user_id ∷ [])
user_admin_documented (verify_user_email user_id caller_token) =
    at (bytes "POST") (fixed (bytes "users") ∷ argument user_id ∷ fixed (bytes "verify-email") ∷ [])
user_admin_documented (deactivate_user user_id caller_token) =
    at (bytes "POST") (fixed (bytes "users") ∷ argument user_id ∷ fixed (bytes "deactivate") ∷ [])
user_admin_documented (activate_user user_id caller_token) =
    at (bytes "POST") (fixed (bytes "users") ∷ argument user_id ∷ fixed (bytes "activate") ∷ [])
user_admin_documented (request_password_reset req) =
    at (bytes "POST") (fixed (bytes "users") ∷ fixed (bytes "request-password-reset") ∷ [])
user_admin_documented (reset_password req) =
    at (bytes "POST") (fixed (bytes "users") ∷ fixed (bytes "reset-password") ∷ [])

pub user_admin_request-Documents :
    (c : UserAdminCall) → Documents (user_admin_request c) (user_admin_documented c)
unfolding user_admin_request user_admin_documented route
user_admin_request-Documents (update_user user_id upd caller_token) = (refl, refl)
user_admin_request-Documents _ = (refl, refl)

unfoldable pub self_deletion_documented : SelfDeletionCall → Endpoint
self_deletion_documented (delete_current_user confirm_email caller_token) =
    at (bytes "DELETE") (fixed (bytes "users") ∷ fixed (bytes "me") ∷ [])

pub self_deletion_request-Documents :
    (c : SelfDeletionCall) → Documents (self_deletion_request c) (self_deletion_documented c)
unfolding self_deletion_request self_deletion_documented route
self_deletion_request-Documents (delete_current_user confirm_email caller_token) = (refl, refl)
