-- ===== src/Cli/RevokeAll.antt =====
-- cmd/ab0t-auth/commands.go: revoke-all, over the cleanup by object of authzmodel.go. The service is
-- a state with what its endpoints do to it, as it is for the cleanup; `none` says that the loop's
-- fuel ran out.
pub mod Removed
pub mod Tests
use auth_sdk_go.Base.{ℕ, ◌||◌, ◌⊎◌, inl, inr, List, [], ◌∷◌, Option, none, some, if◌then◌else◌}
use auth_sdk_go.Base.Text.{Bytes, is_empty}
use auth_sdk_go.Errors.{Err}
use auth_sdk_go.Relations.{service, cut_colon, Tuple, WriteResponse}
use auth_sdk_go.Relations.Cleanup.{RelationshipEntry, Deleted, delete_all_for_object}
use auth_sdk_go.Cli.Commands.{CommandError, bad_usage, no_credential, failed, Env, emit}

-- What a command leaves, with what it returns.
abbrev Ended : Type 0 → Type 0
Ended S = S × Option CommandError

module _ {S : Type 0} where
  -- After the list of a dry run.
  unfoldable pub after_rehearsal : Env → S × (List RelationshipEntry ⊎ Err) → Ended S
  after_rehearsal e (s, inr err) = (s, some (failed (service err)))
  after_rehearsal e (s, inl entries) = (s, emit e none)

  -- After the cleanup.
  unfoldable pub after_cleanup : Env → Option (Deleted S) → Option (Ended S)
  after_cleanup e none = none
  after_cleanup e (some (s, total, some err)) = some (s, some (failed (service err)))
  after_cleanup e (some (s, total, none)) = some (s, emit e none)

module _ {S : Type 0}
    (list : (object_type object_id : Bytes) → S → S × (List RelationshipEntry ⊎ Err))
    (delete : Tuple → S → S × (WriteResponse ⊎ Err)) where
  -- What follows `strings.Cut`.
  unfoldable pub revoke_object : (fuel : ℕ) → Env → Option (Bytes × Bytes) → S → Option (Ended S)
  unfolding after_rehearsal after_cleanup
  revoke_object fuel e none s = some (s, some bad_usage)
  revoke_object fuel e (some (object_type, object_id)) s =
      if is_empty object_type || is_empty object_id
      then some (s, some bad_usage)
      else if e.dry_run
      then some (after_rehearsal e (list object_type object_id s))
      else after_cleanup e (delete_all_for_object list delete fuel object_type object_id 0 s)

  unfoldable pub cmd_revoke_all : (fuel : ℕ) → Env → List Bytes → S → Option (Ended S)
  unfolding revoke_object
  cmd_revoke_all fuel e [] s = some (s, some bad_usage)
  cmd_revoke_all fuel e (object ∷ rest) s =
      if is_empty e.store
      then some (s, some bad_usage)
      else if is_empty e.credential
      then some (s, some no_credential)
      else revoke_object fuel e (cut_colon object) s
