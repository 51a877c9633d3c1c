-- ===== src/Relations/Cleanup/Refused.antt =====
-- A service that refuses deletions in the body of a 200, as store.go says that it may.
use auth_sdk_go.Base.{
  ℕ, zero, suc, ◌≡◌, refl, ap, ◌∙◌, false, ◌⊎◌, inl, List, [], ◌∷◌, Option, none, some, map,
}
use auth_sdk_go.Base.Text.{Bytes}
use auth_sdk_go.Errors.{Err}
use auth_sdk_go.Relations.{typed_id, Failure, refused, Tuple, WriteResponse}
use auth_sdk_go.Relations.Writes.{write_error, unrelate_id}
use auth_sdk_go.Relations.Cleanup.{
  RelationshipEntry, after_delete, delete_each, after_batch, after_list, tuple_on,
  delete_all_for_object,
}

abbrev pub refusal : Bytes → WriteResponse
refusal message = record { success = false; message = message }

module _ {S : Type 0}
    (list : (object_type object_id : Bytes) → S → S × (List RelationshipEntry ⊎ Err))
    (delete : Tuple → S → S × (WriteResponse ⊎ Err)) (s : S) (message : Bytes)
    (refuses : (t : Tuple) → delete t s ≡ (s, inl (refusal message))) where
  -- The loop over a batch counts every refused deletion.
  delete_each_refused :
      (ts : List Tuple) (total : ℕ) → (n : ℕ) × (delete_each delete ts total s ≡ (s, n, none))
  unfolding delete_each
  delete_each_refused [] total = (total, refl)
  delete_each_refused (t ∷ ts) total =
      let (n, rest) = delete_each_refused ts (suc total) in
      (n, ap (after_delete (delete_each delete ts (suc total)) total) (refuses t) ∙ rest)

  never_returns :
      (object_type object_id : Bytes) (e : RelationshipEntry) (es : List RelationshipEntry)
      → list object_type object_id s ≡ (s, inl (e ∷ es))
      → (fuel total : ℕ)
      → delete_all_for_object list delete fuel object_type object_id total s ≡ none
  unfolding delete_all_for_object
  never_returns object_type object_id e es listed zero total = refl
  never_returns object_type object_id e es listed (suc fuel) total =
      let object = typed_id object_type object_id in
      let next = delete_all_for_object list delete fuel object_type object_id in
      let (n, counted) = delete_each_refused (map (tuple_on object) (e ∷ es)) total in
      ap (after_list list delete next object total) listed
      ∙ ap (after_batch next) counted
      ∙ never_returns object_type object_id e es listed fuel n

  abbrev reported : S × (WriteResponse ⊎ Err) → S × Option Failure
  reported r = (r.0, write_error r.1)

  -- Where the service lists a tuple of the object and refuses every deletion in the body of a 200,
  -- DeleteAllRelationshipsForObject never returns, whatever its fuel; UnrelateID reports the refusal.
  pub delete_all_for_object_stuck :
      (object_type object_id : Bytes) (e : RelationshipEntry) (es : List RelationshipEntry)
      → list object_type object_id s ≡ (s, inl (e ∷ es))
      → (fuel total : ℕ) (subject relation object : Bytes)
      → (delete_all_for_object list delete fuel object_type object_id total s ≡ none)
        × (unrelate_id delete subject relation object s ≡ (s, some (refused message)))
  unfolding unrelate_id write_error
  delete_all_for_object_stuck object_type object_id e es listed fuel total subject relation object =
      (
        never_returns object_type object_id e es listed fuel total,
        ap reported (refuses (record { object = object; relation = relation; subject = subject })),
      )
