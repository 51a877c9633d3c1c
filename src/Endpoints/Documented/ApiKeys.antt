-- ===== src/Endpoints/Documented/ApiKeys.antt =====
-- The method and the path that the doc comments of apikeys.go name for each method of the client.
use auth_sdk_go.Base.{refl, [], ◌∷◌}
use auth_sdk_go.Base.Text.{bytes}
use auth_sdk_go.Endpoints.Routes.{fixed, argument, route}
use auth_sdk_go.Endpoints.Documented.Comment.{Endpoint, at, Documents}
use auth_sdk_go.Endpoints.ApiKeys.{
  ApiKeysCall, list_api_keys, create_api_key, get_api_key, update_api_key, delete_api_key,
  grant_delegation, revoke_delegation, check_delegation, list_delegations, delegate,
  api_keys_request,
}

unfoldable pub api_keys_documented : ApiKeysCall → Endpoint
api_keys_documented (list_api_keys caller_token) =
    at (bytes "GET") (fixed (bytes "api-keys") ∷ fixed [] ∷ [])
api_keys_documented (create_api_key req token) =
    at (bytes "POST") (fixed (bytes "api-keys") ∷ fixed [] ∷ [])
api_keys_documented (get_api_key key_id token) =
    at (bytes "GET") (fixed (bytes "api-keys") ∷ argument key_id ∷ [])
api_keys_documented (update_api_key key_id req caller_token) =
    at (bytes "PUT") (fixed (bytes "api-keys") ∷ argument key_id ∷ [])
api_keys_documented (delete_api_key key_id caller_token) =
    at (bytes "DELETE") (fixed (bytes "api-keys") ∷ argument key_id ∷ [])
api_keys_documented (grant_delegation req token) =
    at (bytes "POST") (fixed (bytes "delegation") ∷ fixed (bytes "grant") ∷ [])
api_keys_documented (revoke_delegation actor_id token) =
    at (bytes "DELETE")
      (fixed (bytes "delegation") ∷ fixed (bytes "revoke") ∷ argument actor_id ∷ [])
api_keys_documented (check_delegation target_user_id token) =
    at (bytes "GET")
      (fixed (bytes "delegation") ∷ fixed (bytes "check") ∷ argument target_user_id ∷ [])
api_keys_documented (list_delegations user_id token) =
    at (bytes "GET") (fixed (bytes "delegation") ∷ fixed (bytes "list") ∷ argument user_id ∷ [])
api_keys_documented (delegate req token) =
    at (bytes "POST") (fixed (bytes "auth") ∷ fixed (bytes "delegate") ∷ [])

pub api_keys_request-Documents :
    (c : ApiKeysCall) → Documents (api_keys_request c) (api_keys_documented c)
unfolding api_keys_request api_keys_documented route
api_keys_request-Documents (list_api_keys caller_token) = (refl, refl)
api_keys_request-Documents _ = (refl, refl)
