-- ===== src/Endpoints/Documented/Sessions.antt =====
-- The method and the path that the doc comments of operations.go name for each method of the client.
use auth_sdk_go.Base.{refl, [], ◌∷◌}
use auth_sdk_go.Base.Text.{bytes}
use auth_sdk_go.Endpoints.Routes.{fixed, argument, route}
use auth_sdk_go.Endpoints.Documented.Comment.{Endpoint, at, Documents}
use auth_sdk_go.Endpoints.Sessions.{
  SignInCall, login, refresh, register, logout, revoke_token, revoke_token_public, sign_in_request,
  SwitchingCall, switch_organization, me, switching_request, LookupCall, introspect,
  check_permission, get_user_permissions, get_roles, get_user, get_my_organizations,
  get_organization, lookup_request,
}

unfoldable pub sign_in_documented : SignInCall → Endpoint
sign_in_documented (login req) =
    at (bytes "POST") (fixed (bytes "auth") ∷ fixed (bytes "login") ∷ [])
sign_in_documented (refresh refresh_token) =
    at (bytes "POST") (fixed (bytes "auth") ∷ fixed (bytes "refresh") ∷ [])
sign_in_documented (register req) =
    at (bytes "POST") (fixed (bytes "auth") ∷ fixed (bytes "register") ∷ [])
sign_in_documented (logout token) =
    at (bytes "POST") (fixed (bytes "auth") ∷ fixed (bytes "logout") ∷ [])
sign_in_documented (revoke_token caller_token token_to_revoke hint) =
    at (bytes "POST") (fixed (bytes "auth") ∷ fixed (bytes "revoke") ∷ [])
sign_in_documented (revoke_token_public token hint) =
    at (bytes "POST") (fixed (bytes "token") ∷ fixed (bytes "revoke") ∷ [])

pub sign_in_request-Documents :
    (c : SignInCall) → Documents (sign_in_request c) (sign_in_documented c)
unfolding sign_in_request sign_in_documented route
sign_in_request-Documents (login req) = (refl, refl)
sign_in_request-Documents _ = (refl, refl)

unfoldable pub switching_documented : SwitchingCall → Endpoint
switching_documented (switch_organization token org_id) =
    at (bytes "POST") (fixed (bytes "auth") ∷ fixed (bytes "switch-organization") ∷ [])
switching_documented (me token) = at (bytes "GET") (fixed (bytes "auth") ∷ fixed (bytes "me") ∷ [])

pub switching_request-Documents :
    (c : SwitchingCall) → Documents (switching_request c) (switching_documented c)
unfolding switching_request switching_documented route
switching_request-Documents (switch_organization token org_id) = (refl, refl)
switching_request-Documents _ = (refl, refl)

unfoldable pub lookup_documented : LookupCall → Endpoint
lookup_documented (introspect token hint) =
    at (bytes "POST") (fixed (bytes "token") ∷ fixed (bytes "introspect") ∷ [])
lookup_documented (check_permission req caller_token) =
    at (bytes "POST") (fixed (bytes "permissions") ∷ fixed (bytes "check") ∷ [])
lookup_documented (get_user_permissions user_id caller_token) =
    at (bytes "GET") (fixed (bytes "permissions") ∷ fixed (bytes "user") ∷ argument user_id ∷ [])
lookup_documented (get_roles caller_token) =
    at (bytes "GET") (fixed (bytes "permissions") ∷ fixed (bytes "roles") ∷ [])
lookup_documented (get_user user_id caller_token) =
    at (bytes "GET") (fixed (bytes "users") ∷ argument user_id ∷ [])
lookup_documented (get_my_organizations token) =
    at (bytes "GET")
      (fixed (bytes "users") ∷ fixed (bytes "me") ∷ fixed (bytes "organizations") ∷ [])
lookup_documented (get_organization org_id caller_token) =
    at (bytes "GET") (fixed (bytes "organizations") ∷ argument org_id ∷ [])

pub lookup_request-Documents : (c : LookupCall) → Documents (lookup_request c) (lookup_documented c)
unfolding lookup_request lookup_documented route
lookup_request-Documents (introspect token hint) = (refl, refl)
lookup_request-Documents _ = (refl, refl)
