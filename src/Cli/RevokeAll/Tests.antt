-- ===== src/Cli/RevokeAll/Tests.antt =====
-- The command at concrete lines.
use auth_sdk_go.Base.{◌≡◌, refl, true, false, not, ◌⊎◌, inl, List, [], ◌∷◌, none, some, map, keep}
use auth_sdk_go.Base.Text.{Bytes, bytes, same}
use auth_sdk_go.Errors.{Err}
use auth_sdk_go.Relations.{typed_id, cut_colon, valid_typed_id, Tuple, WriteResponse}
use auth_sdk_go.Relations.Cleanup.{RelationshipEntry, delete_all_for_object}
use auth_sdk_go.Relations.Cleanup.Batch.{same_tuple, entry_of, of_object, of_others}
use auth_sdk_go.Cli.Commands.{bad_usage, no_credential, Env, emit}
use auth_sdk_go.Cli.RevokeAll.{cmd_revoke_all}
use auth_sdk_go.Cli.RevokeAll.Removed.{cmd_revoke_all-removes}

-- A service that keeps tuples in a list and does what it is asked.
abbrev list_tuples :
    (object_type object_id : Bytes) → List Tuple → List Tuple × (List RelationshipEntry ⊎ Err)
list_tuples object_type object_id s =
    (s, inl (map entry_of (of_object (typed_id object_type object_id) s)))

abbrev delete_tuple : Tuple → List Tuple → List Tuple × (WriteResponse ⊎ Err)
delete_tuple t s =
    (keep (λ u. not (same_tuple t u)) s, inl (record { success = true; message = [] }))

abbrev reader_of : Bytes → Tuple
reader_of object = record { object = object; relation = bytes "reader"; subject = bytes "user:al" }

abbrev stored : List Tuple
stored = reader_of (bytes "doc:1:2") ∷ reader_of (bytes "doc:2") ∷ []

abbrev env : Env
env = record {
  store = bytes "s";
  credential = bytes "t";
  dry_run = false;
  expires = [];
  output_fails = false;
}

-- The id is what follows the first colon.
removed :
    cmd_revoke_all list_tuples delete_tuple 2 env (bytes "doc:1:2" ∷ []) stored
    ≡ some (reader_of (bytes "doc:2") ∷ [], none)
unfolding cmd_revoke_all cut_colon delete_all_for_object same_tuple same
removed = refl

rehearsed :
    cmd_revoke_all list_tuples delete_tuple 0
      (record env { dry_run = true })
      (bytes "doc:2" ∷ [])
      stored
    ≡ some (stored, none)
unfolding cmd_revoke_all cut_colon
rehearsed = refl

untyped :
    cmd_revoke_all list_tuples delete_tuple 2 env (bytes "doc:" ∷ []) stored
    ≡ some (stored, some bad_usage)
unfolding cmd_revoke_all cut_colon
untyped = refl

anonymous :
    cmd_revoke_all list_tuples delete_tuple 2
      (record env { credential = [] })
      (bytes "doc" ∷ [])
      stored
    ≡ some (stored, some no_credential)
unfolding cmd_revoke_all cut_colon
anonymous = refl

cmd_revoke_all-removes_example :
    (s' : List Tuple) × (cmd_revoke_all list_tuples delete_tuple 2 env (bytes "doc:1:2" ∷ []) stored
      ≡ some (s', emit env none))
    × (s' ≡ of_others (bytes "doc:1:2") stored)
unfolding valid_typed_id
cmd_revoke_all-removes_example =
    cmd_revoke_all-removes (λ s. s) list_tuples delete_tuple (λ object_type object_id s. refl)
      (λ t s. ((record { success = true; message = [] }, refl, refl), refl)) 0 env (bytes "doc:1:2")
      [] stored refl refl refl
