-- ===== src/Endpoints/ApiKeys.antt =====
-- apikeys.go: API keys and delegations.
use auth_sdk_go.Base.{[], ◌∷◌}
use auth_sdk_go.Base.Text.{Bytes, bytes}
use auth_sdk_go.Endpoints.{Request, text, escaped, nothing, json, do_json, do_get}

pub data ApiKeysCall : Type 0 where
  list_api_keys : (caller_token : Bytes) → ApiKeysCall
  create_api_key : (req token : Bytes) → ApiKeysCall
  get_api_key : (key_id token : Bytes) → ApiKeysCall
  update_api_key : (key_id req caller_token : Bytes) → ApiKeysCall
  delete_api_key : (key_id caller_token : Bytes) → ApiKeysCall
  grant_delegation : (req token : Bytes) → ApiKeysCall
  revoke_delegation : (actor_id token : Bytes) → ApiKeysCall
  check_delegation : (target_user_id token : Bytes) → ApiKeysCall
  list_delegations : (user_id token : Bytes) → ApiKeysCall
  delegate : (req token : Bytes) → ApiKeysCall

unfoldable pub api_keys_request : ApiKeysCall → Request
api_keys_request (list_api_keys caller_token) = do_get (text (bytes "/api-keys/") ∷ []) caller_token
api_keys_request (create_api_key req token) =
    do_json (bytes "POST") (text (bytes "/api-keys/") ∷ []) (json req) token
api_keys_request (get_api_key key_id token) =
    do_get (text (bytes "/api-keys/") ∷ escaped key_id ∷ []) token
api_keys_request (update_api_key key_id req caller_token) =
    do_json (bytes "PUT") (text (bytes "/api-keys/") ∷ escaped key_id ∷ []) (json req) caller_token
api_keys_request (delete_api_key key_id caller_token) =
    do_json (bytes "DELETE") (text (bytes "/api-keys/") ∷ escaped key_id ∷ []) nothing caller_token
api_keys_request (grant_delegation req token) =
    do_json (bytes "POST") (text (bytes "/delegation/grant") ∷ []) (json req) token
api_keys_request (revoke_delegation actor_id token) =
    do_json (bytes "DELETE") (text (bytes "/delegation/revoke/") ∷ escaped actor_id ∷ []) nothing
      token
api_keys_request (check_delegation target_user_id token) =
    do_get (text (bytes "/delegation/check/") ∷ escaped target_user_id ∷ []) token
api_keys_request (list_delegations user_id token) =
    do_get (text (bytes "/delegation/list/") ∷ escaped user_id ∷ []) token
api_keys_request (delegate req token) =
    do_json (bytes "POST") (text (bytes "/auth/delegate") ∷ []) (json req) token
