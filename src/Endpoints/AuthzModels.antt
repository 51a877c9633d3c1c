-- ===== src/Endpoints/AuthzModels.antt =====
-- authzmodel.go: authorization models, their assertions, and transactions.
use auth_sdk_go.Base.{[], ◌∷◌, ◌++◌}
use auth_sdk_go.Base.Text.{Bytes, bytes}
use auth_sdk_go.Base.Assoc.{insert}
use auth_sdk_go.Endpoints.{
  Request, text, escaped, query, nothing, json, do_json, do_get, only_set, zanzibar_base,
}

pub data ModelWritingCall : Type 0 where
  write_authorization_model : (store_id req caller_token : Bytes) → ModelWritingCall

unfoldable pub model_writing_request : ModelWritingCall → Request
unfolding zanzibar_base
model_writing_request (write_authorization_model store_id req caller_token) =
    do_json (bytes "POST") (zanzibar_base store_id ++ text (bytes "/authorization-models") ∷ [])
      (json req) caller_token

pub data ModelListingCall : Type 0 where
  list_authorization_models : (store_id page_token caller_token : Bytes) → ModelListingCall

unfoldable pub model_listing_request : ModelListingCall → Request
unfolding zanzibar_base
model_listing_request (list_authorization_models store_id page_token caller_token) =
    do_get (zanzibar_base store_id ++ text (bytes "/authorization-models") ∷ []) caller_token

pub data ModelAssertionsCall : Type 0 where
  put_model_assertions : (store_id model_id req token : Bytes) → ModelAssertionsCall
  get_model_assertions : (store_id model_id token : Bytes) → ModelAssertionsCall
  run_model_assertions : (store_id model_id token : Bytes) → ModelAssertionsCall

unfoldable pub model_assertions_request : ModelAssertionsCall → Request
unfolding zanzibar_base
model_assertions_request (put_model_assertions store_id model_id req token) =
    do_json (bytes "PUT")
      (zanzibar_base store_id ++ text (bytes "/assertions/") ∷ escaped model_id ∷ []) (json req)
      token
model_assertions_request (get_model_assertions store_id model_id token) =
    do_get (zanzibar_base store_id ++ text (bytes "/assertions/") ∷ escaped model_id ∷ []) token
model_assertions_request (run_model_assertions store_id model_id token) =
    do_json (bytes "POST")
      (zanzibar_base store_id
        ++ text (bytes "/assertions/") ∷ escaped model_id ∷ text (bytes "/run") ∷ [])
      nothing token

pub data TransactionCall : Type 0 where
  write_and_delete_relationships : (store_id req token : Bytes) → TransactionCall

unfoldable pub transaction_request : TransactionCall → Request
unfolding zanzibar_base
transaction_request (write_and_delete_relationships store_id req token) =
    do_json (bytes "POST") (zanzibar_base store_id ++ text (bytes "/write") ∷ []) (json req) token

pub data PagedListsCall : Type 0 where
  list_relationships_paged :
      (store_id object_type object_id relation caller_token : Bytes) → PagedListsCall
  list_objects_paged : (store_id req caller_token : Bytes) → PagedListsCall

unfoldable pub paged_lists_request : PagedListsCall → Request
unfolding zanzibar_base insert
paged_lists_request
      (list_relationships_paged store_id object_type object_id relation caller_token) =
    do_get
      (zanzibar_base store_id
        ++ text (bytes "/relationships/")
          ∷ escaped object_type
          ∷ text (bytes "/")
          ∷ escaped object_id
          ∷ query (only_set (bytes "relation") relation)
          ∷ [])
      caller_token
paged_lists_request (list_objects_paged store_id req caller_token) =
    do_json (bytes "POST") (zanzibar_base store_id ++ text (bytes "/list-objects") ∷ []) (json req)
      caller_token
