-- ===== src/Relations/Cleanup.antt =====
-- authzmodel.go: DeleteAllRelationshipsForObject, readAllTuplesForSubject and
-- DeleteAllRelationshipsForSubject. The service is a state `S` with what its endpoints do to it. The
-- loops run on fuel, one unit a round; `none` says that it ran out.
pub mod Batch
pub mod Object
pub mod Subject
pub mod Refused
use auth_sdk_go.Base.{
  ℕ, zero, suc, ◌⊎◌, inl, inr, List, [], ◌∷◌, ◌++◌, Option, none, some, map, if◌then◌else◌,
}
use auth_sdk_go.Base.Text.{Bytes, is_empty}
use auth_sdk_go.Errors.{Err}
use auth_sdk_go.Relations.{typed_id, Tuple, WriteResponse}

-- The parts of RelationshipEntry that a deletion reads.
pub record RelationshipEntry : Type 0 where
  pub relation : Bytes
  pub subject : Bytes

-- `(int, error)` with the state: how many were deleted, and the error, if any.
abbrev pub Deleted : Type 0 → Type 0
Deleted S = S × ℕ × Option Err

module _ {S : Type 0} where
  -- After a deletion: stop at an error, else go on.
  unfoldable pub after_delete : (next : S → Deleted S) → ℕ → S × (WriteResponse ⊎ Err) → Deleted S
  after_delete next total (s, inr e) = (s, total, some e)
  after_delete next total (s, inl res) = next s

  -- After a batch: stop at an error, else list again.
  unfoldable pub after_batch : (next : ℕ → S → Option (Deleted S)) → Deleted S → Option (Deleted S)
  after_batch next (s, total, some e) = some (s, total, some e)
  after_batch next (s, total, none) = next total s

module _ {S : Type 0} (delete : Tuple → S → S × (WriteResponse ⊎ Err)) where
  -- The loop over one batch: delete each tuple and count it.
  unfoldable pub delete_each : List Tuple → (total : ℕ) → S → Deleted S
  unfolding after_delete
  delete_each [] total s = (s, total, none)
  delete_each (t ∷ ts) total s = after_delete (delete_each ts (suc total)) total (delete t s)

  -- What both cleanups do with what they have read: an empty batch ends them.
  unfoldable pub drain :
      (next : ℕ → S → Option (Deleted S)) → List Tuple → ℕ → S → Option (Deleted S)
  unfolding delete_each after_batch
  drain next [] total s = some (s, total, none)
  drain next (t ∷ ts) total s = after_batch next (delete_each (t ∷ ts) total s)

-- A listed entry, as the tuple to delete.
abbrev pub tuple_on : Bytes → RelationshipEntry → Tuple
tuple_on object e = record { object = object; relation = e.relation; subject = e.subject }

module _ {S : Type 0}
    (list : (object_type object_id : Bytes) → S → S × (List RelationshipEntry ⊎ Err))
    (delete : Tuple → S → S × (WriteResponse ⊎ Err)) where
  unfoldable pub after_list :
      (next : ℕ → S → Option (Deleted S))
      → (object : Bytes) → ℕ
      → S × (List RelationshipEntry ⊎ Err)
      → Option (Deleted S)
  unfolding drain
  after_list next object total (s, inr e) = some (s, total, some e)
  after_list next object total (s, inl entries) =
      drain delete next (map (tuple_on object) entries) total s

  unfoldable pub delete_all_for_object :
      (fuel : ℕ) → (object_type object_id : Bytes) → (total : ℕ) → S → Option (Deleted S)
  unfolding after_list typed_id
  delete_all_for_object zero object_type object_id total s = none
  delete_all_for_object (suc fuel) object_type object_id total s =
      after_list (delete_all_for_object fuel object_type object_id) (typed_id object_type object_id)
        total (list object_type object_id s)

-- A page of `POST …/read`, its timestamps left out, and the continuation token.
abbrev pub Page : Type 0
Page = List Tuple × Bytes

-- `([]subjectTuple, error)` with the state.
abbrev ReadAll : Type 0 → Type 0
ReadAll S = S × List Tuple × Option Err

unfoldable pub after_page :
    {S : Type 0}
    → (next : Bytes → List Tuple → S → Option (ReadAll S)) → (all : List Tuple) → S × (Page ⊎ Err)
    → Option (ReadAll S)
after_page next all (s, inr e) = some (s, all, some e)
after_page next all (s, inl (tuples, token)) =
    if is_empty token then some (s, all ++ tuples, none) else next token (all ++ tuples) s

module _ {S : Type 0} (read : (subject cursor : Bytes) → S → S × (Page ⊎ Err)) where
  unfoldable pub read_all_for_subject :
      (fuel : ℕ) → (subject cursor : Bytes) → (all : List Tuple) → S → Option (ReadAll S)
  unfolding after_page
  read_all_for_subject zero subject cursor all s = none
  read_all_for_subject (suc fuel) subject cursor all s =
      after_page (read_all_for_subject fuel subject) all (read subject cursor s)

module _ {S : Type 0} (read : (subject cursor : Bytes) → S → S × (Page ⊎ Err))
    (delete : Tuple → S → S × (WriteResponse ⊎ Err)) where
  unfoldable pub after_read :
      (next : ℕ → S → Option (Deleted S)) → ℕ → Option (ReadAll S) → Option (Deleted S)
  unfolding drain
  after_read next total none = none
  after_read next total (some (s, tuples, some e)) = some (s, total, some e)
  after_read next total (some (s, tuples, none)) = drain delete next tuples total s

  -- `pages` is the fuel of each read.
  unfoldable pub delete_all_for_subject :
      (fuel pages : ℕ) → (subject_type subject_id : Bytes) → (total : ℕ) → S → Option (Deleted S)
  unfolding read_all_for_subject after_read typed_id
  delete_all_for_subject zero pages subject_type subject_id total s = none
  delete_all_for_subject (suc fuel) pages subject_type subject_id total s =
      after_read (delete_all_for_subject fuel pages subject_type subject_id) total
        (read_all_for_subject read pages (typed_id subject_type subject_id) [] [] s)
