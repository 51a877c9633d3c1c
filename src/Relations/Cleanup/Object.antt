-- ===== src/Relations/Cleanup/Object.antt =====
-- DeleteAllRelationshipsForObject against a service that does what it documents and that nobody else
-- writes to meanwhile: listing gives all tuples of the object, and deleting a tuple, there or not,
-- succeeds and takes it away.
use auth_sdk_go.Base.{
  ℕ, suc, ◌+◌, ◌≡◌, refl, sym, ap, ◌∙◌, not, ◌⊎◌, inl, List, [], ◌∷◌, none, some, map, arith,
  length, keep,
}
use auth_sdk_go.Base.Text.{Bytes}
use auth_sdk_go.Errors.{Err}
use auth_sdk_go.Relations.{typed_id, Tuple, WriteResponse}
use auth_sdk_go.Relations.Cleanup.{
  RelationshipEntry, after_batch, after_list, tuple_on, delete_all_for_object,
}
use auth_sdk_go.Relations.Cleanup.Batch.{
  DeletesOne, delete_each_lem, counted, has_tuple, entry_of, of_object, of_others, batch,
  of_object-of_others, length-mapped, without_batch, of_others-none,
}

module _ {S : Type 0} (held : S → List Tuple)
    (list : (object_type object_id : Bytes) → S → S × (List RelationshipEntry ⊎ Err))
    (delete : Tuple → S → S × (WriteResponse ⊎ Err)) where
  -- Listing gives all tuples of the object, and changes nothing.
  abbrev pub ListsAll : Type 0
  ListsAll =
      (object_type object_id : Bytes) (s : S)
      → list object_type object_id s
        ≡ (s, inl (map entry_of (of_object (typed_id object_type object_id) (held s))))

  module _ (lists_all : ListsAll) (deletes_one : DeletesOne held delete) where
    -- A round with nothing listed ends the loop.
    delete_all-done :
        (fuel : ℕ) (object_type object_id : Bytes) (total : ℕ) (s : S)
        → of_object (typed_id object_type object_id) (held s) ≡ []
        → delete_all_for_object list delete (suc fuel) object_type object_id total s
          ≡ some (s, total, none)
    unfolding delete_all_for_object
    delete_all-done fuel object_type object_id total s h =
        let object = typed_id object_type object_id in
        let next = delete_all_for_object list delete fuel object_type object_id in
        ap (after_list list delete next object total)
          (lists_all object_type object_id s ∙ ap (λ us. (s, inl (map entry_of us))) h)

    -- A round with a batch deletes it, and the loop goes on.
    delete_all-batch :
        (fuel : ℕ) (object_type object_id : Bytes) (total : ℕ) (s : S) (t : Tuple) (ts : List Tuple)
        → of_object (typed_id object_type object_id) (held s) ≡ t ∷ ts
        → (s' : S) × (delete_all_for_object list delete (suc fuel) object_type object_id total s
            ≡ delete_all_for_object list delete fuel object_type object_id
                (total + length (t ∷ ts))
                s')
          × (held s' ≡ of_others (typed_id object_type object_id) (held s))
    unfolding delete_all_for_object
    delete_all-batch fuel object_type object_id total s t ts h =
        let object = typed_id object_type object_id in
        let b = map (tuple_on object) (map entry_of (t ∷ ts)) in
        let next = delete_all_for_object list delete fuel object_type object_id in
        let (s', done, left) = delete_each_lem held delete deletes_one b total s in
        let all : b ≡ batch object (held s) =
          ap (λ us. map (tuple_on object) (map entry_of us)) (sym h) in
        (
          s',
          ap (after_list list delete next object total)
                (lists_all object_type object_id s ∙ ap (λ us. (s, inl (map entry_of us))) h)
              ∙ ap (after_batch next) done
              ∙ ap (λ n. next n s') (ap (λ k. total + k) (length-mapped object (t ∷ ts))),
          left
              ∙ ap (λ us. keep (λ u. not (has_tuple u us)) (held s)) all
              ∙ without_batch object (held s),
        )

    cleans_from :
        (fuel : ℕ) (object_type object_id : Bytes) (s : S) (ts : List Tuple)
        → of_object (typed_id object_type object_id) (held s) ≡ ts
        → (s' : S) × (delete_all_for_object list delete (suc (suc fuel)) object_type object_id 0 s
            ≡ some (s', length (of_object (typed_id object_type object_id) (held s)), none))
          × (held s' ≡ of_others (typed_id object_type object_id) (held s))
    cleans_from fuel object_type object_id s [] h = (
      s,
      delete_all-done (suc fuel) object_type object_id 0 s h
          ∙ ap some (counted s _ _ (sym (ap length h))),
      sym (of_others-none (typed_id object_type object_id) (held s) h),
    )
    cleans_from fuel object_type object_id s (t ∷ ts) h =
        let object = typed_id object_type object_id in
        let (s', again, left) = delete_all-batch (suc fuel) object_type object_id 0 s t ts h in
        let gone = ap (of_object object) left ∙ of_object-of_others object (held s) in
        (
          s',
          again
              ∙ delete_all-done fuel object_type object_id _ s' gone
              ∙ ap some (counted s' _ _ (omega (arith, ap length h))),
          left,
        )

    -- Against a service that lists all tuples of an object and that deletes what it is asked to,
    -- DeleteAllRelationshipsForObject returns with no error within two rounds, with the number of
    -- tuples that the object had; no tuple of the object is left, and every other tuple is.
    pub delete_all_for_object_cleans :
        (fuel : ℕ) (object_type object_id : Bytes) (s : S)
        → let object = typed_id object_type object_id in
          (s' : S) × (delete_all_for_object list delete (suc (suc fuel)) object_type object_id 0 s
            ≡ some (s', length (of_object object (held s)), none))
          × (held s' ≡ of_others object (held s))
    delete_all_for_object_cleans fuel object_type object_id s =
        cleans_from fuel object_type object_id s
          (of_object (typed_id object_type object_id) (held s)) refl
