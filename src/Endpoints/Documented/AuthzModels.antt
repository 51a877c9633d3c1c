-- ===== src/Endpoints/Documented/AuthzModels.antt =====
-- The method and the path that the doc comments of authzmodel.go name for each method of the client.
use auth_sdk_go.Base.{refl, [], ◌∷◌}
use auth_sdk_go.Base.Text.{bytes}
use auth_sdk_go.Endpoints.Routes.{fixed, argument, route}
use auth_sdk_go.Endpoints.Documented.Comment.{Endpoint, at, Documents}
use auth_sdk_go.Endpoints.AuthzModels.{
  ModelWritingCall, write_authorization_model, model_writing_request, ModelListingCall,
  list_authorization_models, model_listing_request, ModelAssertionsCall, put_model_assertions,
  get_model_assertions, run_model_assertions, model_assertions_request, TransactionCall,
  write_and_delete_relationships, transaction_request, PagedListsCall, list_relationships_paged,
  list_objects_paged, paged_lists_request,
}

unfoldable pub model_writing_documented : ModelWritingCall → Endpoint
model_writing_documented (write_authorization_model store_id req caller_token) = at (bytes "POST") (
    fixed (bytes "zanzibar")
    ∷ fixed (bytes "stores")
    ∷ argument store_id
    ∷ fixed (bytes "authorization-models")
    ∷ [])

pub model_writing_request-Documents :
    (c : ModelWritingCall) → Documents (model_writing_request c) (model_writing_documented c)
unfolding model_writing_request model_writing_documented route
model_writing_request-Documents (write_authorization_model store_id req caller_token) = (refl, refl)

unfoldable pub model_listing_documented : ModelListingCall → Endpoint
model_listing_documented (list_authorization_models store_id page_token caller_token) =
    at (bytes "GET") (
      fixed (bytes "zanzibar")
      ∷ fixed (bytes "stores")
      ∷ argument store_id
      ∷ fixed (bytes "authorization-models")
      ∷ [])

pub model_listing_request-Documents :
    (c : ModelListingCall) → Documents (model_listing_request c) (model_listing_documented c)
unfolding model_listing_request model_listing_documented route
model_listing_request-Documents (list_authorization_models store_id page_token caller_token) =
    (refl, refl)

unfoldable pub model_assertions_documented : ModelAssertionsCall → Endpoint
model_assertions_documented (put_model_assertions store_id model_id req token) = at (bytes "PUT") (
    fixed (bytes "zanzibar")
    ∷ fixed (bytes "stores")
    ∷ argument store_id
    ∷ fixed (bytes "assertions")
    ∷ argument model_id
    ∷ [])
model_assertions_documented (get_model_assertions store_id model_id token) = at (bytes "GET") (
    fixed (bytes "zanzibar")
    ∷ fixed (bytes "stores")
    ∷ argument store_id
    ∷ fixed (bytes "assertions")
    ∷ argument model_id
    ∷ [])
model_assertions_documented (run_model_assertions store_id model_id token) = at (bytes "POST") (
    fixed (bytes "zanzibar")
    ∷ fixed (bytes "stores")
    ∷ argument store_id
    ∷ fixed (bytes "assertions")
    ∷ argument model_id
    ∷ fixed (bytes "run")
    ∷ [])

pub model_assertions_request-Documents :
    (c : ModelAssertionsCall)
    → Documents (model_assertions_request c) (model_assertions_documented c)
unfolding model_assertions_request model_assertions_documented route
model_assertions_request-Documents (put_model_assertions store_id model_id req token) = (refl, refl)
model_assertions_request-Documents _ = (refl, refl)

unfoldable pub transaction_documented : TransactionCall → Endpoint
transaction_documented (write_and_delete_relationships store_id req token) = at (bytes "POST") (
    fixed (bytes "zanzibar")
    ∷ fixed (bytes "stores")
    ∷ argument store_id
    ∷ fixed (bytes "write")
    ∷ [])

pub transaction_request-Documents :
    (c : TransactionCall) → Documents (transaction_request c) (transaction_documented c)
unfolding transaction_request transaction_documented route
transaction_request-Documents (write_and_delete_relationships store_id req token) = (refl, refl)

unfoldable pub paged_lists_documented : PagedListsCall → Endpoint
paged_lists_documented
      (list_relationships_paged store_id object_type object_id relation caller_token) =
    at (bytes "GET") (
      fixed (bytes "zanzibar")
      ∷ fixed (bytes "stores")
      ∷ argument store_id
      ∷ fixed (bytes "relationships")
      ∷ argument object_type
      ∷ argument object_id
      ∷ [])
paged_lists_documented (list_objects_paged store_id req caller_token) = at (bytes "POST") (
    fixed (bytes "zanzibar")
    ∷ fixed (bytes "stores")
    ∷ argument store_id
    ∷ fixed (bytes "list-objects")
    ∷ [])

pub paged_lists_request-Documents :
    (c : PagedListsCall) → Documents (paged_lists_request c) (paged_lists_documented c)
unfolding paged_lists_request paged_lists_documented route
paged_lists_request-Documents
      (list_relationships_paged store_id object_type object_id relation caller_token) =
    (refl, refl)
paged_lists_request-Documents _ = (refl, refl)
