-- ===== src/Cli/RevokeAll/Removed.antt =====
-- What revoke-all removes from a service that does what it documents.
use auth_sdk_go.Base.{
  ℕ, suc, ◌≡◌, ap, ◌∙◌, Bool-cases, true, false, ◌⊎◌, inl, inr, List, [], ◌∷◌, ◌||◌, none, some,
  Option-cases, arith, if◌then◌else◌,
}
use auth_sdk_go.Base.Text.{Bytes, is_empty}
use auth_sdk_go.Errors.{Err}
use auth_sdk_go.Relations.{typed_id, cut_colon, valid_typed_id, Tuple, WriteResponse}
use auth_sdk_go.Relations.Cleanup.{RelationshipEntry}
use auth_sdk_go.Relations.Cleanup.Object.{ListsAll, delete_all_for_object_cleans}
use auth_sdk_go.Relations.Cleanup.Batch.{DeletesOne, of_others}
use auth_sdk_go.Cli.Commands.{Env, emit}
use auth_sdk_go.Cli.RevokeAll.{revoke_object, cmd_revoke_all}

-- What is cut at a colon is put together again by `Object`.
typed_id-cut_colon :
    (s : Bytes) (kind id : Bytes) → cut_colon s ≡ some (kind, id) → typed_id kind id ≡ s
unfolding cut_colon typed_id
typed_id-cut_colon [] kind id h = cc
typed_id-cut_colon (c ∷ s) kind id h = elim (Option-cases (cut_colon s)) [
  | inl q ↦ ground (arith, q)
  | inr ((kind', id'), q) ↦ ground (arith, q, typed_id-cut_colon s kind' id' q)
]

-- A typed id is cut into two parts, neither of them empty.
cut_colon-typed :
    (s : Bytes)
    → valid_typed_id s ≡ true
    → (kind : Bytes) × (id : Bytes) × (cut_colon s ≡ some (kind, id))
      × (is_empty kind || is_empty id ≡ false)
unfolding valid_typed_id
cut_colon-typed s h = elim (Option-cases (cut_colon s)) [
  | inl q ↦ absurd (ground (arith, q))
  | inr ((kind, id), q) ↦ (kind, id, q, ground (arith, q))
]

module _ {S : Type 0} (held : S → List Tuple)
    (list : (object_type object_id : Bytes) → S → S × (List RelationshipEntry ⊎ Err))
    (delete : Tuple → S → S × (WriteResponse ⊎ Err)) (lists_all : ListsAll held list delete)
    (deletes_one : DeletesOne held delete) where
  -- The object is cut already.
  revoke_object-removes :
      (fuel : ℕ) (e : Env) (kind id : Bytes) (s : S)
      → is_empty kind || is_empty id ≡ false
      → (s' : S) × (revoke_object list delete (suc (suc fuel)) e (some (kind, id)) s
          ≡ some (s', emit e none))
        × (held s' ≡ (if e.dry_run then held s else of_others (typed_id kind id) (held s)))
  unfolding revoke_object
  revoke_object-removes fuel e kind id s parts = elim (Bool-cases e.dry_run) [
    | inl dry ↦ (s, ground (arith, parts, dry, lists_all kind id s), ground (arith, dry))
    | inr wet ↦
        let (s', done, left) =
          delete_all_for_object_cleans held list delete lists_all deletes_one fuel kind id s in
        (s', ground (arith, parts, wet, done), ground (arith, wet, left))
  ]

  -- Against a service that lists all tuples of an object and that deletes what it is asked to,
  -- revoke-all with a store, a credential and a typed object returns within two rounds, with no error
  -- but that of the output. A dry run leaves the tuples of the service as they are; otherwise no tuple
  -- of the very object of the command line is left, and every other tuple is.
  pub cmd_revoke_all-removes :
      (fuel : ℕ) (e : Env) (object : Bytes) (rest : List Bytes) (s : S)
      → is_empty e.store ≡ false
      → is_empty e.credential ≡ false
      → valid_typed_id object ≡ true
      → (s' : S) × (cmd_revoke_all list delete (suc (suc fuel)) e (object ∷ rest) s
          ≡ some (s', emit e none))
        × (held s' ≡ (if e.dry_run then held s else of_others object (held s)))
  unfolding cmd_revoke_all
  cmd_revoke_all-removes fuel e object rest s store credential typed =
      let (kind, id, cut, parts) = cut_colon-typed object typed in
      let (s', done, left) = revoke_object-removes fuel e kind id s parts in
      (
        s',
        ground (
          arith,
          store,
          credential,
          ap (λ c. revoke_object list delete (suc (suc fuel)) e c s) cut,
          done,
        ),
        left
            ∙ ap (λ o. if e.dry_run then held s else of_others o (held s))
                (typed_id-cut_colon object kind id cut),
      )
