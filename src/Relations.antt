-- ===== src/Relations.antt =====
-- permissions.go and store.go: relationship tuples, typed ids, and the questions and writes of a
-- bound store. The service is a parameter: what each endpoint answers to a request.
pub mod Checks
pub mod Writes
pub mod Cleanup
pub mod Models
pub mod Tests
use auth_sdk_go.Base.{
  ℕ, zero, suc, Bool, true, false, not, ◌&&◌, ◌⊎◌, inl, inr, List, [], ◌∷◌, ◌++◌, Option, none,
  some, ◌==◌, if◌then◌else◌, length,
}
use auth_sdk_go.Base.Text.{Bytes, bytes, is_empty}
use auth_sdk_go.Errors.{Err}

-- `Object` and `Subject`
unfoldable pub typed_id : (kind id : Bytes) → Bytes
typed_id kind id = kind ++ (b':' ∷ id)

-- `strings.Cut(s, ":")`, where it finds one.
unfoldable pub cut_colon : Bytes → Option (Bytes × Bytes)
cut_colon [] = none
cut_colon (c ∷ s) =
    let rest : Option (Bytes × Bytes) = elim (cut_colon s) [
      | none ↦ none
      | some (kind, id) ↦ some (c ∷ kind, id)
    ] in
    if c == b':' then some ([], s) else rest

unfoldable pub valid_typed_id : Bytes → Bool
unfolding cut_colon
valid_typed_id s = elim (cut_colon s) [
  | none ↦ false
  | some (kind, id) ↦ not (is_empty kind) && not (is_empty id)
]

-- The parts of CheckPermissionRequest that the client reads.
pub record CheckRequest : Type 0 where
  pub subject : Bytes
  pub permission : Bytes
  pub object : Bytes

pub record CheckResponse : Type 0 where
  pub allowed : Bool
  pub reason : Bytes
  pub path : List Bytes

-- The errors of this part: an id with no type, at an index of a bulk request, an error of the
-- service, a bulk answer of the wrong length, and a write that a 200 refuses.
pub data Failure : Type 0 where
  untyped_id : (field value : Bytes) → Failure
  at_check : ℕ → Failure → Failure
  service : Err → Failure
  short_answer : (results checks : ℕ) → Failure
  refused : (message : Bytes) → Failure

unfoldable pub check_typed_ids : CheckRequest → Option Failure
unfolding valid_typed_id
check_typed_ids r =
    if not (valid_typed_id r.subject)
    then some (untyped_id (bytes "subject") r.subject)
    else if not (valid_typed_id r.object)
    then some (untyped_id (bytes "object") r.object)
    else none

-- `Check`
unfoldable pub check_of :
    (subject_type subject_id permission object_type object_id : Bytes) → CheckRequest
unfolding typed_id
check_of subject_type subject_id permission object_type object_id = record {
  subject = typed_id subject_type subject_id;
  permission = permission;
  object = typed_id object_type object_id;
}

-- `BulkCheckResults.Allowed(i)`; an index below 0 is out of range too.
unfoldable pub allowed_at : List CheckResponse → ℕ → Bool
allowed_at [] i = false
allowed_at (r ∷ rs) zero = r.allowed
allowed_at (r ∷ rs) (suc i) = allowed_at rs i

unfoldable pub every_allowed : List CheckResponse → Bool
every_allowed [] = true
every_allowed (r ∷ rs) = if not r.allowed then false else every_allowed rs

unfoldable pub all_allowed : List CheckResponse → Bool
unfolding every_allowed
all_allowed rs = if length rs == 0 then false else every_allowed rs

-- The loop of CanAny over the results.
unfoldable pub any_allowed : List CheckResponse → Bool
any_allowed [] = false
any_allowed (r ∷ rs) = if r.allowed then true else any_allowed rs

-- The loop of ZanzibarCheckBulk over the checks.
unfoldable pub first_untyped : ℕ → List CheckRequest → Option Failure
unfolding check_typed_ids
first_untyped i [] = none
first_untyped i (r ∷ rs) =
    let rest = first_untyped (suc i) rs in
    elim (check_typed_ids r) [ some e ↦ some (at_check i e) | none ↦ rest ]

-- The fields of RelationshipRequest.
pub record Tuple : Type 0 where
  pub object : Bytes
  pub relation : Bytes
  pub subject : Bytes

pub record WriteResponse : Type 0 where
  pub success : Bool
  pub message : Bytes
