-- ===== src/Relations/Models/Idempotent.antt =====
-- EnsureAuthorizationModel run twice against a service that keeps what it is given.
use auth_sdk_go.Base.{◌≡◌, refl, ap, ◌∙◌, true, false, ◌⊎◌, inl, inr, List, ◌∷◌, arith, Bool-cases}
use auth_sdk_go.Base.Text.{Bytes, same_refl, is_empty}
use auth_sdk_go.Errors.{Err, is_not_found}
use auth_sdk_go.Json.{Json}
use auth_sdk_go.Relations.Models.{
  AuthorizationModel, StoredModel, authorization_model_equivalent, read_newest, read_latest,
  written, ensure_from, ensure_authorization_model, is_nil,
}

module _ {S : Type 0} (marshal : List Json → Bytes) (base : Bytes)
    (list_models : S → S × (List Bytes ⊎ Err)) (get_model : Bytes → S → S × (StoredModel ⊎ Err))
    (write_model : AuthorizationModel → S → S × (Bytes ⊎ Err)) where
  -- A model that is written is the newest, and is read back.
  abbrev pub KeepsModels : Type 0
  KeepsModels =
      (m : AuthorizationModel) (s s' : S) (id : Bytes)
      → write_model m s ≡ (s', inl id)
      → (ids : List Bytes) × (have : StoredModel) × (list_models s' ≡ (s', inl (id ∷ ids)))
        × (get_model id s' ≡ (s', inl have))
        × (have.authorization_model_id ≡ id)
        × (have.schema_version ≡ m.schema_version)
        × (have.type_definitions ≡ m.type_definitions)

  written-changed :
      (r : S × (Bytes ⊎ Err)) (s' : S) (id : Bytes)
      → written r ≡ (s', inl (id, true))
      → r ≡ (s', inl id)
  unfolding written
  written-changed (s, inr e) s' id h = cc
  written-changed (s, inl i) s' id h = cc

  -- A change was written.
  ensure_from-changed :
      (m : AuthorizationModel) (r : S × (StoredModel ⊎ Err)) (s' : S) (id : Bytes)
      → ensure_from marshal base list_models get_model write_model m r ≡ (s', inl (id, true))
      → (s : S) × (write_model m s ≡ (s', inl id))
  unfolding ensure_from
  ensure_from-changed m (s, inr e) s' id h = elim (Bool-cases (is_not_found e)) [
    | inl b ↦ (s, written-changed _ s' id (rw b at h))
    | inr b ↦ absurd (cc (rw b at h))
  ]
  ensure_from-changed m (s, inl latest) s' id h =
      elim (Bool-cases (authorization_model_equivalent marshal m latest)) [
        | inl b ↦ absurd (cc (rw b at h))
        | inr b ↦ (s, written-changed _ s' id (rw b at h))
      ]

  equivalent_kept :
      (m : AuthorizationModel) (have : StoredModel)
      → is_empty m.dsl ≡ true
      → is_nil m.type_definitions ≡ false
      → have.schema_version ≡ m.schema_version
      → have.type_definitions ≡ m.type_definitions
      → authorization_model_equivalent marshal m have ≡ true
  unfolding authorization_model_equivalent
  equivalent_kept m have a b c d =
      rw (a, b, c, d, same_refl m.schema_version, same_refl (marshal m.type_definitions))
        (ground arith)

  again :
      (m : AuthorizationModel) (s : S) (have : StoredModel) (id : Bytes)
      → authorization_model_equivalent marshal m have ≡ true
      → have.authorization_model_id ≡ id
      → ensure_from marshal base list_models get_model write_model m (s, inl have)
        ≡ (s, inl (id, false))
  unfolding ensure_from
  again m s have id a b = rw (a, b) refl

  module _ (keeps : KeepsModels) where
    -- Once EnsureAuthorizationModel has written a model that is given by type definitions alone, a
    -- second run writes nothing, and returns the same id.
    pub ensure_authorization_model-again :
        (m : AuthorizationModel) (s s' : S) (id : Bytes)
        → is_empty m.dsl ≡ true
        → is_nil m.type_definitions ≡ false
        → ensure_authorization_model marshal base list_models get_model write_model m s
          ≡ (s', inl (id, true))
        → ensure_authorization_model marshal base list_models get_model write_model m s'
          ≡ (s', inl (id, false))
    unfolding ensure_authorization_model read_latest
    ensure_authorization_model-again m s s' id a b h =
        let (before, wrote) =
          ensure_from-changed m (read_latest base list_models get_model s) s' id h in
        let kept = keeps m before s' id wrote in
        let have = kept.1 in
        let read : read_latest base list_models get_model s' ≡ (s', inl have) =
          ap (read_newest base list_models get_model) kept.2 ∙ kept.3 in
        let alike = equivalent_kept m have a b kept.5 kept.6 in
        ap (ensure_from marshal base list_models get_model write_model m) read
        ∙ again m s' have id alike kept.4
