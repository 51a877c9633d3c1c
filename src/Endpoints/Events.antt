-- ===== src/Endpoints/Events.antt =====
-- events.go: event subscriptions.
use auth_sdk_go.Base.{[], ◌∷◌}
use auth_sdk_go.Base.Text.{Bytes, bytes}
use auth_sdk_go.Endpoints.{Request, text, escaped, nothing, json, do_json, do_get, empty_object}

pub data EventsCall : Type 0 where
  event_types : EventsCall
  create_event_subscription : (req token : Bytes) → EventsCall
  list_event_subscriptions : (token : Bytes) → EventsCall
  get_event_subscription : (subscription_id token : Bytes) → EventsCall
  update_event_subscription : (subscription_id req token : Bytes) → EventsCall
  delete_event_subscription : (subscription_id token : Bytes) → EventsCall
  test_event_subscription : (subscription_id token : Bytes) → EventsCall
  toggle_event_subscription : (subscription_id token : Bytes) → EventsCall
  event_subscription_stats : (subscription_id token : Bytes) → EventsCall

unfoldable pub events_request : EventsCall → Request
events_request event_types = do_get (text (bytes "/events/types") ∷ []) []
events_request (create_event_subscription req token) =
    do_json (bytes "POST") (text (bytes "/events/subscriptions") ∷ []) (json req) token
events_request (list_event_subscriptions token) =
    do_get (text (bytes "/events/subscriptions") ∷ []) token
events_request (get_event_subscription subscription_id token) =
    do_get (text (bytes "/events/subscriptions/") ∷ escaped subscription_id ∷ []) token
events_request (update_event_subscription subscription_id req token) =
    do_json (bytes "PATCH") (text (bytes "/events/subscriptions/") ∷ escaped subscription_id ∷ [])
      (json req) token
events_request (delete_event_subscription subscription_id token) =
    do_json (bytes "DELETE") (text (bytes "/events/subscriptions/") ∷ escaped subscription_id ∷ [])
      nothing token
events_request (test_event_subscription subscription_id token) =
    do_json (bytes "POST")
      (text (bytes "/events/subscriptions/") ∷ escaped subscription_id ∷ text (bytes "/test") ∷ [])
      empty_object token
events_request (toggle_event_subscription subscription_id token) =
    do_json (bytes "POST")
      (text (bytes "/events/subscriptions/")
        ∷ escaped subscription_id
        ∷ text (bytes "/toggle")
        ∷ [])
      empty_object token
events_request (event_subscription_stats subscription_id token) =
    do_get
      (text (bytes "/events/subscriptions/") ∷ escaped subscription_id ∷ text (bytes "/stats") ∷ [])
      token
