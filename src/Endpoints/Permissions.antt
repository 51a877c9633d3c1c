-- ===== src/Endpoints/Permissions.antt =====
-- permissions.go: the Zanzibar endpoints.
use auth_sdk_go.Base.{List, [], ◌∷◌, ◌++◌}
use auth_sdk_go.Base.Text.{Bytes, bytes}
use auth_sdk_go.Base.Assoc.{insert}
use auth_sdk_go.Endpoints.{
  Values, Request, text, escaped, query, json, json_object, do_json, do_get, empty_object, only_set,
  add_all, zanzibar_base,
}

pub data PublicCheckCall : Type 0 where
  check_permission_public : (req : Bytes) → PublicCheckCall

unfoldable pub public_check_request : PublicCheckCall → Request
public_check_request (check_permission_public req) =
    do_json (bytes "POST") (text (bytes "/auth/check-permission") ∷ []) (json req) []

pub data ZanzibarCall : Type 0 where
  zanzibar_check_wildcard : (store_id : Bytes) (q : Values) (caller_token : Bytes) → ZanzibarCall
  zanzibar_expand : (store_id req caller_token : Bytes) → ZanzibarCall
  zanzibar_list_objects : (store_id req caller_token : Bytes) → ZanzibarCall
  zanzibar_list_users : (store_id req caller_token : Bytes) → ZanzibarCall
  write_relationships : (store_id req token : Bytes) → ZanzibarCall
  delete_relationships : (store_id req token : Bytes) → ZanzibarCall
  list_relationships : (store_id object_type object_id relation caller_token : Bytes) → ZanzibarCall
  create_namespace : (store_id req caller_token : Bytes) → ZanzibarCall
  list_namespaces : (store_id caller_token : Bytes) → ZanzibarCall
  get_namespace : (store_id name caller_token : Bytes) → ZanzibarCall
  zanzibar_grant : (store_id req caller_token : Bytes) → ZanzibarCall
  zanzibar_revoke : (store_id req caller_token : Bytes) → ZanzibarCall
  setup_org_hierarchy : (store_id req caller_token : Bytes) → ZanzibarCall

unfoldable pub zanzibar_request : ZanzibarCall → Request
unfolding zanzibar_base insert
zanzibar_request (zanzibar_check_wildcard store_id q caller_token) =
    do_get (zanzibar_base store_id ++ text (bytes "/check/wildcard") ∷ query q ∷ []) caller_token
zanzibar_request (zanzibar_expand store_id req caller_token) =
    do_json (bytes "POST") (zanzibar_base store_id ++ text (bytes "/expand") ∷ []) (json req)
      caller_token
zanzibar_request (zanzibar_list_objects store_id req caller_token) =
    do_json (bytes "POST") (zanzibar_base store_id ++ text (bytes "/list-objects") ∷ []) (json req)
      caller_token
zanzibar_request (zanzibar_list_users store_id req caller_token) =
    do_json (bytes "POST") (zanzibar_base store_id ++ text (bytes "/list-users") ∷ []) (json req)
      caller_token
zanzibar_request (write_relationships store_id req token) =
    do_json (bytes "POST") (zanzibar_base store_id ++ text (bytes "/relationships") ∷ []) (json req)
      token
zanzibar_request (delete_relationships store_id req token) =
    do_json (bytes "DELETE") (zanzibar_base store_id ++ text (bytes "/relationships") ∷ [])
      (json req) token
zanzibar_request (list_relationships store_id object_type object_id relation caller_token) =
    do_get
      (zanzibar_base store_id
        ++ text (bytes "/relationships/")
          ∷ escaped object_type
          ∷ text (bytes "/")
          ∷ escaped object_id
          ∷ query (only_set (bytes "relation") relation)
          ∷ [])
      caller_token
zanzibar_request (create_namespace store_id req caller_token) =
    do_json (bytes "POST") (zanzibar_base store_id ++ text (bytes "/namespaces") ∷ []) (json req)
      caller_token
zanzibar_request (list_namespaces store_id caller_token) =
    do_get (zanzibar_base store_id ++ text (bytes "/namespaces") ∷ []) caller_token
zanzibar_request (get_namespace store_id name caller_token) =
    do_get (zanzibar_base store_id ++ text (bytes "/namespaces/") ∷ escaped name ∷ []) caller_token
zanzibar_request (zanzibar_grant store_id req caller_token) =
    do_json (bytes "POST") (zanzibar_base store_id ++ text (bytes "/permissions/grant") ∷ [])
      (json req) caller_token
zanzibar_request (zanzibar_revoke store_id req caller_token) =
    do_json (bytes "DELETE") (zanzibar_base store_id ++ text (bytes "/permissions/revoke") ∷ [])
      (json req) caller_token
zanzibar_request (setup_org_hierarchy store_id req caller_token) =
    do_json (bytes "POST") (zanzibar_base store_id ++ text (bytes "/hierarchy/setup") ∷ [])
      (json req) caller_token

pub data ZanzibarSetupCall : Type 0 where
  setup_team_membership : (store_id req caller_token : Bytes) → ZanzibarSetupCall
  visualize_hierarchy : (store_id req caller_token : Bytes) → ZanzibarSetupCall
  visualize_permissions : (store_id user_id caller_token : Bytes) → ZanzibarSetupCall
  migrate_setup_defaults : (store_id caller_token : Bytes) → ZanzibarSetupCall
  migrate_permissions :
      (store_id user_id : Bytes) (permissions : List Bytes) (caller_token : Bytes)
      → ZanzibarSetupCall
  watch_status : (store_id caller_token : Bytes) → ZanzibarSetupCall

unfoldable pub zanzibar_setup_request : ZanzibarSetupCall → Request
unfolding zanzibar_base insert
zanzibar_setup_request (setup_team_membership store_id req caller_token) =
    do_json (bytes "POST") (zanzibar_base store_id ++ text (bytes "/teams/membership") ∷ [])
      (json req) caller_token
zanzibar_setup_request (visualize_hierarchy store_id req caller_token) =
    do_json (bytes "POST") (zanzibar_base store_id ++ text (bytes "/visualize/hierarchy") ∷ [])
      (json req) caller_token
zanzibar_setup_request (visualize_permissions store_id user_id caller_token) =
    do_json (bytes "POST")
      (zanzibar_base store_id
        ++ text (bytes "/visualize/permissions") ∷ query (only_set (bytes "user_id") user_id) ∷ [])
      empty_object caller_token
zanzibar_setup_request (migrate_setup_defaults store_id caller_token) =
    do_json (bytes "POST") (zanzibar_base store_id ++ text (bytes "/migrate/setup-defaults") ∷ [])
      empty_object caller_token
zanzibar_setup_request (migrate_permissions store_id user_id permissions caller_token) =
    do_json (bytes "POST")
      (zanzibar_base store_id
        ++ (text (bytes "/migrate/permissions")
            ∷ query (add_all (bytes "permissions") permissions (only_set (bytes "user_id") user_id))
            ∷ []))
      empty_object caller_token
zanzibar_setup_request (watch_status store_id caller_token) =
    do_get (zanzibar_base store_id ++ text (bytes "/watch/status") ∷ []) caller_token

pub data ObjectDeletionCall : Type 0 where
  delete_relationship_by_object :
      (store_id object_type object_id relation subject caller_token : Bytes) → ObjectDeletionCall

unfoldable pub object_deletion_request : ObjectDeletionCall → Request
unfolding zanzibar_base
object_deletion_request
      (delete_relationship_by_object store_id object_type object_id relation subject caller_token) =
    do_json (bytes "DELETE")
      (zanzibar_base store_id
        ++ (text (bytes "/relationships/")
            ∷ escaped object_type
            ∷ text (bytes "/")
            ∷ escaped object_id
            ∷ []))
      (json_object ((bytes "relation", relation) ∷ (bytes "subject", subject) ∷ [])) caller_token
