-- ===== src/Relations/Tests.antt =====
-- The store's questions, cleanups and models at concrete inputs, and the theorems applied to them.
use mathlib.Core.List.{append-nil}
use auth_sdk_go.Base.{
  arith, ◌≤◌, ◌≡◌, ◌↔◌, refl, Bool, true, false, not, ◌⊎◌, inl, inr, List, [], ◌∷◌, Option, none,
  some, map, length, keep, subst, ap,
}
use auth_sdk_go.Base.Text.{Bytes, bytes, same}
use auth_sdk_go.Errors.{Err, cancelled}
use auth_sdk_go.Json.{Json, str}
use auth_sdk_go.Relations.{
  typed_id, valid_typed_id, CheckRequest, CheckResponse, check_of, untyped_id, at_check,
  short_answer, refused, allowed_at, Tuple, WriteResponse,
}
use auth_sdk_go.Relations.Checks.{can_all, can_any, can_all_iff, Granted}
use auth_sdk_go.Relations.Writes.{unrelate_id}
use auth_sdk_go.Relations.Cleanup.{
  RelationshipEntry, Page, delete_all_for_object, read_all_for_subject, delete_all_for_subject,
}
use auth_sdk_go.Relations.Cleanup.Subject.{concat, Pages}
use auth_sdk_go.Relations.Cleanup.Subject.Cleaned.{
  of_subject, of_other_subjects, ReadsAll, delete_all_for_subject_cleans,
}
use auth_sdk_go.Relations.Cleanup.Batch.{same_tuple, entry_of, of_object}
use auth_sdk_go.Relations.Cleanup.Refused.{refusal, delete_all_for_object_stuck}
use auth_sdk_go.Relations.Models.{AuthorizationModel, StoredModel, ensure_authorization_model}
use auth_sdk_go.Relations.Models.Idempotent.{KeepsModels, ensure_authorization_model-again}

abbrev view_doc : CheckRequest
view_doc = record { subject = bytes "user:al"; permission = bytes "view"; object = bytes "doc:1" }

abbrev answer_of : Bool → CheckResponse
answer_of allowed = record { allowed = allowed; reason = []; path = [] }

-- Allows all that it is asked.
abbrev allow_all : List CheckRequest → List CheckResponse ⊎ Err
allow_all checks = inl (map (λ _. answer_of true) checks)

check_is_typed :
    check_of (bytes "user") (bytes "al") (bytes "view") (bytes "doc") (bytes "1") ≡ view_doc
unfolding check_of
check_is_typed = refl

group_member : valid_typed_id (bytes "group:eng#member") ≡ true
unfolding valid_typed_id
group_member = refl

no_kind : valid_typed_id (bytes ":al") ≡ false
unfolding valid_typed_id
no_kind = refl

nothing_asked : can_all allow_all [] ≡ (false, none)
unfolding can_all
nothing_asked = refl

bare_id :
    can_all allow_all (view_doc ∷ record view_doc { subject = bytes "al" } ∷ [])
    ≡ (false, some (at_check 1 (untyped_id (bytes "subject") (bytes "al"))))
unfolding can_all
bare_id = refl

short_reply :
    can_any (λ checks. inl (answer_of true ∷ [])) (view_doc ∷ view_doc ∷ [])
    ≡ (false, some (short_answer 1 2))
unfolding can_any
short_reply = refl

out_of_range : allowed_at (answer_of true ∷ []) 1 ≡ false
unfolding allowed_at
out_of_range = refl

can_all_iff_example :
    ((can_all allow_all (view_doc ∷ [])).0 ≡ true) ↔ Granted allow_all (view_doc ∷ [])
can_all_iff_example = can_all_iff allow_all (view_doc ∷ [])

-- A service that keeps tuples in a list and does what it is asked.
abbrev list_tuples :
    (object_type object_id : Bytes) → List Tuple → List Tuple × (List RelationshipEntry ⊎ Err)
list_tuples object_type object_id s =
    (s, inl (map entry_of (of_object (typed_id object_type object_id) s)))

abbrev delete_tuple : Tuple → List Tuple → List Tuple × (WriteResponse ⊎ Err)
delete_tuple t s =
    (keep (λ u. not (same_tuple t u)) s, inl (record { success = true; message = [] }))

abbrev owner_of : Bytes → Tuple
owner_of object = record { object = object; relation = bytes "owner"; subject = bytes "user:al" }

abbrev stored : List Tuple
stored = owner_of (bytes "doc:1") ∷ owner_of (bytes "doc:2") ∷ []

cleaned :
    delete_all_for_object list_tuples delete_tuple 2 (bytes "doc") (bytes "1") 0 stored
    ≡ some (owner_of (bytes "doc:2") ∷ [], 1, none)
unfolding delete_all_for_object same_tuple same
cleaned = refl

-- Lists its tuples and refuses every deletion.
abbrev refuse_deletion : Tuple → List Tuple → List Tuple × (WriteResponse ⊎ Err)
refuse_deletion t s = (s, inl (refusal (bytes "policy")))

listed :
    list_tuples (bytes "doc") (bytes "1") stored
    ≡ (stored, inl (entry_of (owner_of (bytes "doc:1")) ∷ []))
unfolding typed_id same
listed = refl

delete_all_for_object_stuck_example :
    (delete_all_for_object list_tuples refuse_deletion 1000 (bytes "doc") (bytes "1") 0 stored
      ≡ none)
    × (unrelate_id refuse_deletion (bytes "user:al") (bytes "owner") (bytes "doc:1") stored
        ≡ (stored, some (refused (bytes "policy"))))
delete_all_for_object_stuck_example =
    delete_all_for_object_stuck list_tuples refuse_deletion stored (bytes "policy") (λ t. refl)
      (bytes "doc") (bytes "1") (entry_of (owner_of (bytes "doc:1"))) [] listed 1000 0
      (bytes "user:al") (bytes "owner") (bytes "doc:1")

-- Two pages: the first has a token for the second.
abbrev two_pages : (subject cursor : Bytes) → List Tuple → List Tuple × (Page ⊎ Err)
two_pages subject [] s = (s, inl (owner_of (bytes "doc:1") ∷ [], bytes "t"))
two_pages subject (c ∷ cursor) s = (s, inl (owner_of (bytes "doc:2") ∷ [], []))

both_pages :
    read_all_for_subject two_pages 2 (bytes "user:al") [] [] stored ≡ some (stored, stored, none)
unfolding read_all_for_subject
both_pages = refl

-- A service that keeps the newest model.
abbrev list_newest : Option StoredModel → Option StoredModel × (List Bytes ⊎ Err)
list_newest none = (none, inl [])
list_newest (some m) = (some m, inl (m.authorization_model_id ∷ []))

abbrev get_newest : Bytes → Option StoredModel → Option StoredModel × (StoredModel ⊎ Err)
get_newest id none = (none, inr cancelled)
get_newest id (some m) = (some m, inl m)

abbrev kept_as : AuthorizationModel → StoredModel
kept_as m = record {
  authorization_model_id = bytes "m1";
  schema_version = m.schema_version;
  type_definitions = m.type_definitions;
  dsl = [];
}

abbrev write_newest : AuthorizationModel → Option StoredModel → Option StoredModel × (Bytes ⊎ Err)
write_newest m s = (some (kept_as m), inl (bytes "m1"))

abbrev length_of : List Json → Bytes
length_of xs = length xs ∷ []

abbrev models_base : Bytes
models_base = bytes "/zanzibar/stores/main"

abbrev docs_model : AuthorizationModel
docs_model = record {
  schema_version = bytes "1.1";
  dsl = [];
  type_definitions = str (bytes "doc") ∷ [];
}

keeps_newest : KeepsModels length_of models_base list_newest get_newest write_newest
keeps_newest m s s' id h =
    let state : some (kept_as m) ≡ s' = cc h in
    let named : bytes "m1" ≡ id = cc h in
    (
      [],
      kept_as m,
      subst (λ x. list_newest x ≡ (x, inl (id ∷ []))) state
          (ap (λ (i : Bytes). (some (kept_as m), inl (i ∷ []))) named),
      subst (λ x. get_newest id x ≡ (x, inl (kept_as m))) state refl,
      named,
      refl,
      refl,
    )

first_run :
    ensure_authorization_model length_of models_base list_newest get_newest write_newest docs_model
      none
    ≡ (some (kept_as docs_model), inl (bytes "m1", true))
unfolding ensure_authorization_model
first_run = refl

ensure_authorization_model-again_example :
    ensure_authorization_model length_of models_base list_newest get_newest write_newest docs_model
      (some (kept_as docs_model))
    ≡ (some (kept_as docs_model), inl (bytes "m1", false))
ensure_authorization_model-again_example =
    ensure_authorization_model-again length_of models_base list_newest get_newest write_newest
      keeps_newest docs_model none (some (kept_as docs_model)) (bytes "m1") refl refl first_run

-- A service that hands out the first tuple of a subject, and then the others.
abbrev first_page : List Tuple → Page
first_page [] = ([], [])
first_page (t ∷ []) = (t ∷ [], [])
first_page (t ∷ u ∷ us) = (t ∷ [], bytes "t")

abbrev other_pages : List Tuple → List Tuple
other_pages [] = []
other_pages (t ∷ ts) = ts

abbrev read_in_two : (subject cursor : Bytes) → List Tuple → List Tuple × (Page ⊎ Err)
read_in_two subject [] s = (s, inl (first_page (of_subject subject s)))
read_in_two subject (c ∷ cursor) s = (s, inl (other_pages (of_subject subject s), []))

read_in_two-Pages :
    (subject : Bytes) (s ts : List Tuple)
    → of_subject subject s ≡ ts
    → (ps : List (List Tuple)) × (length ps ≤ 2)
      × Pages read_in_two subject s [] ps
      × (concat ps ≡ ts)
unfolding concat
read_in_two-Pages subject s [] h =
    ([] ∷ [], omega arith, ap (λ ts. (s, inl (first_page ts))) h, refl)
read_in_two-Pages subject s (t ∷ []) h =
    ((t ∷ []) ∷ [], omega arith, ap (λ ts. (s, inl (first_page ts))) h, refl)
read_in_two-Pages subject s (t ∷ u ∷ us) h = (
  (t ∷ []) ∷ (u ∷ us) ∷ [],
  omega arith,
  (
    bytes "t",
    refl,
    ap (λ ts. (s, inl (first_page ts))) h,
    ap (λ ts. (s, inl (other_pages ts, []))) h,
  ),
  ap (λ ts. t ∷ ts) (append-nil (u ∷ us)),
)

read_in_two-ReadsAll : ReadsAll (λ s. s) read_in_two 2
read_in_two-ReadsAll subject s = read_in_two-Pages subject s (of_subject subject s) refl

delete_all_for_subject_cleans_example :
    (s' : List Tuple) × (delete_all_for_subject read_in_two delete_tuple 2 2
        (bytes "user")
        (bytes "al")
        0
        stored
      ≡ some (s', length (of_subject (typed_id (bytes "user") (bytes "al")) stored), none))
    × (s' ≡ of_other_subjects (typed_id (bytes "user") (bytes "al")) stored)
delete_all_for_subject_cleans_example =
    delete_all_for_subject_cleans (λ s. s) read_in_two delete_tuple 2 read_in_two-ReadsAll
      (λ t s. ((record { success = true; message = [] }, refl, refl), refl)) 0 (bytes "user")
      (bytes "al") stored
