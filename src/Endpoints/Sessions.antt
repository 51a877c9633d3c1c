-- ===== src/Endpoints/Sessions.antt =====
-- operations.go: sessions and lookups of the client.
use auth_sdk_go.Base.{List, [], ◌∷◌, if◌then◌else◌}
use auth_sdk_go.Base.Text.{Bytes, bytes, is_empty}
use auth_sdk_go.Base.Assoc.{insert}
use auth_sdk_go.Endpoints.{
  Request, text, escaped, json, json_object, do_json, do_get, do_form, empty_object, set,
  set_unless_empty,
}

pub data SignInCall : Type 0 where
  login : (req : Bytes) → SignInCall
  refresh : (refresh_token : Bytes) → SignInCall
  register : (req : Bytes) → SignInCall
  logout : (token : Bytes) → SignInCall
  revoke_token : (caller_token token_to_revoke hint : Bytes) → SignInCall
  revoke_token_public : (token hint : Bytes) → SignInCall

abbrev unless_empty : Bytes → Bytes → List (Bytes × Bytes)
unless_empty k v = if is_empty v then [] else (k, v) ∷ []

unfoldable pub sign_in_request : SignInCall → Request
unfolding insert
sign_in_request (login req) = do_json (bytes "POST") (text (bytes "/auth/login") ∷ []) (json req) []
sign_in_request (refresh refresh_token) =
    do_json (bytes "POST") (text (bytes "/auth/refresh") ∷ [])
      (json_object ((bytes "refresh_token", refresh_token) ∷ [])) []
sign_in_request (register req) =
    do_json (bytes "POST") (text (bytes "/auth/register") ∷ []) (json req) []
sign_in_request (logout token) =
    do_json (bytes "POST") (text (bytes "/auth/logout") ∷ []) empty_object token
sign_in_request (revoke_token caller_token token_to_revoke hint) =
    do_json (bytes "POST") (text (bytes "/auth/revoke") ∷ [])
      (json_object ((bytes "token", token_to_revoke) ∷ unless_empty (bytes "token_type_hint") hint))
      caller_token
sign_in_request (revoke_token_public token hint) =
    do_form (text (bytes "/token/revoke") ∷ [])
      (set_unless_empty (bytes "token_type_hint") hint (set (bytes "token") token [])) []

pub data SwitchingCall : Type 0 where
  switch_organization : (token org_id : Bytes) → SwitchingCall
  me : (token : Bytes) → SwitchingCall

unfoldable pub switching_request : SwitchingCall → Request
switching_request (switch_organization token org_id) =
    do_json (bytes "POST") (text (bytes "/auth/switch-organization") ∷ [])
      (json_object ((bytes "org_id", org_id) ∷ [])) token
switching_request (me token) = do_get (text (bytes "/auth/me") ∷ []) token

pub data LookupCall : Type 0 where
  introspect : (token hint : Bytes) → LookupCall
  check_permission : (req caller_token : Bytes) → LookupCall
  get_user_permissions : (user_id caller_token : Bytes) → LookupCall
  get_roles : (caller_token : Bytes) → LookupCall
  get_user : (user_id caller_token : Bytes) → LookupCall
  get_my_organizations : (token : Bytes) → LookupCall
  get_organization : (org_id caller_token : Bytes) → LookupCall

unfoldable pub lookup_request : LookupCall → Request
unfolding insert
lookup_request (introspect token hint) =
    do_form (text (bytes "/token/introspect") ∷ [])
      (set_unless_empty (bytes "token_type_hint") hint (set (bytes "token") token [])) []
lookup_request (check_permission req caller_token) =
    do_json (bytes "POST") (text (bytes "/permissions/check") ∷ []) (json req) caller_token
lookup_request (get_user_permissions user_id caller_token) =
    do_get (text (bytes "/permissions/user/") ∷ escaped user_id ∷ []) caller_token
lookup_request (get_roles caller_token) =
    do_get (text (bytes "/permissions/roles") ∷ []) caller_token
lookup_request (get_user user_id caller_token) =
    do_get (text (bytes "/users/") ∷ escaped user_id ∷ []) caller_token
lookup_request (get_my_organizations token) =
    do_get (text (bytes "/users/me/organizations") ∷ []) token
lookup_request (get_organization org_id caller_token) =
    do_get (text (bytes "/organizations/") ∷ escaped org_id ∷ []) caller_token
