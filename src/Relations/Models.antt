-- ===== src/Relations/Models.antt =====
-- authzmodel.go: ReadAuthorizationModel for the latest model, and EnsureAuthorizationModel. The
-- service is a state `S` with what its endpoints do to it; json.Marshal is the parameter `marshal`.
pub mod Idempotent
use auth_sdk_go.Base.{
  ℕ, Bool, true, false, not, ◌&&◌, ◌⊎◌, inl, inr, List, [], ◌∷◌, ◌++◌, Option, none, some,
  if◌then◌else◌,
}
use auth_sdk_go.Base.Text.{Bytes, bytes, same, is_empty}
use auth_sdk_go.Base.Space.{trim_space}
use auth_sdk_go.Errors.{ApiError, Err, api, is_not_found}
use auth_sdk_go.Json.{Json}

pub record AuthorizationModel : Type 0 where
  pub schema_version : Bytes
  pub dsl : Bytes
  pub type_definitions : List Json

-- `AuthorizationModelResponse`
pub record StoredModel : Type 0 where
  pub authorization_model_id : Bytes
  pub schema_version : Bytes
  pub type_definitions : List Json
  pub dsl : Bytes

-- `base` is the store's path, zanzibarBase.
abbrev no_models : Bytes → ApiError
no_models base = record {
  status_code = 404;
  method = bytes "GET";
  endpoint = base ++ bytes "/authorization-models";
  code = [];
  sub_error = [];
  message = bytes "no authorization models in store";
  request_id = [];
  body = [];
}

abbrev is_nil : List Json → Bool
is_nil [] = true
is_nil (x ∷ xs) = false

module _ (marshal : List Json → Bytes) where
  unfoldable pub authorization_model_equivalent : AuthorizationModel → StoredModel → Bool
  unfolding same trim_space
  authorization_model_equivalent want have =
      if not (is_empty want.schema_version)
        && (not (is_empty have.schema_version)
            && not (same want.schema_version have.schema_version))
      then false
      else if not (is_empty want.dsl)
      then same (trim_space want.dsl) (trim_space have.dsl)
      else if not (is_nil want.type_definitions)
      then same (marshal want.type_definitions) (marshal have.type_definitions)
      else false

module _ {S : Type 0} (base : Bytes) (list_models : S → S × (List Bytes ⊎ Err))
    (get_model : Bytes → S → S × (StoredModel ⊎ Err)) where
  unfoldable pub read_newest : S × (List Bytes ⊎ Err) → S × (StoredModel ⊎ Err)
  read_newest (s, inr e) = (s, inr e)
  read_newest (s, inl []) = (s, inr (api (no_models base)))
  read_newest (s, inl (id ∷ ids)) = get_model id s

  -- ReadAuthorizationModel for `latest`.
  unfoldable pub read_latest : S → S × (StoredModel ⊎ Err)
  unfolding read_newest
  read_latest s = read_newest (list_models s)

-- `(modelID string, changed bool, err error)`
abbrev Ensured : Type 0
Ensured = (Bytes × Bool) ⊎ Err

unfoldable pub written : {S : Type 0} → S × (Bytes ⊎ Err) → S × Ensured
written (s, inr e) = (s, inr e)
written (s, inl id) = (s, inl (id, true))

module _ {S : Type 0} (marshal : List Json → Bytes) (base : Bytes)
    (list_models : S → S × (List Bytes ⊎ Err)) (get_model : Bytes → S → S × (StoredModel ⊎ Err))
    (write_model : AuthorizationModel → S → S × (Bytes ⊎ Err)) where
  unfoldable pub ensure_from : AuthorizationModel → S × (StoredModel ⊎ Err) → S × Ensured
  unfolding authorization_model_equivalent written is_not_found
  ensure_from model (s, inr e) =
      if not (is_not_found e) then (s, inr e) else written (write_model model s)
  ensure_from model (s, inl latest) =
      if authorization_model_equivalent marshal model latest
      then (s, inl (latest.authorization_model_id, false))
      else written (write_model model s)

  unfoldable pub ensure_authorization_model : AuthorizationModel → S → S × Ensured
  unfolding ensure_from read_latest
  ensure_authorization_model model s = ensure_from model (read_latest base list_models get_model s)
