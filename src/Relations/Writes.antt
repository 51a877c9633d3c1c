-- ===== src/Relations/Writes.antt =====
-- store.go: RelateID, RelateUntil and UnrelateID. A write is refused in the body of a 200 as well as
-- by an error; the expiry of a tuple is the service's to read.
use auth_sdk_go.Base.{ℕ, not, ◌⊎◌, inl, inr, Option, none, some, if◌then◌else◌}
use auth_sdk_go.Base.Text.{Bytes}
use auth_sdk_go.Errors.{Err}
use auth_sdk_go.Relations.{typed_id, Failure, service, refused, Tuple, WriteResponse}

-- The error of a write, from what the service answers.
unfoldable pub write_error : WriteResponse ⊎ Err → Option Failure
write_error (inr e) = some (service e)
write_error (inl res) = if not res.success then some (refused res.message) else none

module _ (write : Tuple → (expires_at : Option ℕ) → WriteResponse ⊎ Err) where
  unfoldable pub relate_id : (subject relation object : Bytes) → Option Failure
  unfolding write_error
  relate_id subject relation object =
      write_error (write (record { object = object; relation = relation; subject = subject }) none)

  unfoldable pub relate :
      (subject_type subject_id relation object_type object_id : Bytes) → Option Failure
  unfolding relate_id typed_id
  relate subject_type subject_id relation object_type object_id =
      relate_id (typed_id subject_type subject_id) relation (typed_id object_type object_id)

  unfoldable pub relate_until : (subject relation object : Bytes) → (expires : ℕ) → Option Failure
  unfolding write_error
  relate_until subject relation object expires =
      write_error
        (write (record { object = object; relation = relation; subject = subject }) (some expires))

module _ {S : Type 0} (delete : Tuple → S → S × (WriteResponse ⊎ Err)) where
  unfoldable pub unrelate_id : (subject relation object : Bytes) → S → S × Option Failure
  unfolding write_error
  unrelate_id subject relation object s =
      let (s', reply) =
        delete (record { object = object; relation = relation; subject = subject }) s in
      (s', write_error reply)

  unfoldable pub unrelate :
      (subject_type subject_id relation object_type object_id : Bytes) → S → S × Option Failure
  unfolding unrelate_id typed_id
  unrelate subject_type subject_id relation object_type object_id =
      unrelate_id (typed_id subject_type subject_id) relation (typed_id object_type object_id)
