-- ===== src/Endpoints/Roles.antt =====
-- roles.go: permission grants and the registry.
use auth_sdk_go.Base.{[], ◌∷◌}
use auth_sdk_go.Base.Text.{Bytes, bytes}
use auth_sdk_go.Base.Assoc.{insert}
use auth_sdk_go.Endpoints.{Request, text, always_query, json, do_json, do_get, empty_object, set}

pub data GrantsCall : Type 0 where
  grant_permission : (user_id org_id permission caller_token : Bytes) → GrantsCall
  revoke_permission : (user_id org_id permission caller_token : Bytes) → GrantsCall

unfoldable grant_or_revoke : (path user_id org_id permission caller_token : Bytes) → Request
unfolding insert
grant_or_revoke path user_id org_id permission caller_token =
    do_json (bytes "POST")
      (text path
        ∷ always_query (
            set (bytes "user_id") user_id
              (set (bytes "org_id") org_id (set (bytes "permission") permission [])))
        ∷ [])
      empty_object caller_token

unfoldable pub grants_request : GrantsCall → Request
unfolding grant_or_revoke
grants_request (grant_permission user_id org_id permission caller_token) =
    grant_or_revoke (bytes "/permissions/grant") user_id org_id permission caller_token
grants_request (revoke_permission user_id org_id permission caller_token) =
    grant_or_revoke (bytes "/permissions/revoke") user_id org_id permission caller_token

pub data RegistryCall : Type 0 where
  list_registered_services : (caller_token : Bytes) → RegistryCall
  list_valid_permissions : RegistryCall

unfoldable pub registry_request : RegistryCall → Request
registry_request (list_registered_services caller_token) =
    do_get (text (bytes "/permissions/registry/services") ∷ []) caller_token
registry_request list_valid_permissions =
    do_get (text (bytes "/permissions/registry/valid-permissions") ∷ []) []

pub data RegistryWritingCall : Type 0 where
  registry_stats : RegistryWritingCall
  register_service_permissions : (req caller_token : Bytes) → RegistryWritingCall

unfoldable pub registry_writing_request : RegistryWritingCall → Request
registry_writing_request registry_stats =
    do_get (text (bytes "/permissions/registry/stats") ∷ []) []
registry_writing_request (register_service_permissions req caller_token) =
    do_json (bytes "POST") (text (bytes "/permissions/registry/register") ∷ []) (json req)
      caller_token
