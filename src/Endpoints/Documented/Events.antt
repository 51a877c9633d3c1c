-- ===== src/Endpoints/Documented/Events.antt =====
-- The method and the path that the doc comments of events.go name for each method of the client.
use auth_sdk_go.Base.{refl, [], ◌∷◌}
use auth_sdk_go.Base.Text.{bytes}
use auth_sdk_go.Endpoints.Routes.{fixed, argument, route}
use auth_sdk_go.Endpoints.Documented.Comment.{Endpoint, at, Documents}
use auth_sdk_go.Endpoints.Events.{
  EventsCall, event_types, create_event_subscription, list_event_subscriptions,
  get_event_subscription, update_event_subscription, delete_event_subscription,
  test_event_subscription, toggle_event_subscription, event_subscription_stats, events_request,
}

unfoldable pub events_documented : EventsCall → Endpoint
events_documented (event_types) =
    at (bytes "GET") (fixed (bytes "events") ∷ fixed (bytes "types") ∷ [])
events_documented (create_event_subscription req token) =
    at (bytes "POST") (fixed (bytes "events") ∷ fixed (bytes "subscriptions") ∷ [])
events_documented (list_event_subscriptions token) =
    at (bytes "GET") (fixed (bytes "events") ∷ fixed (bytes "subscriptions") ∷ [])
events_documented (get_event_subscription subscription_id token) =
    at (bytes "GET")
      (fixed (bytes "events") ∷ fixed (bytes "subscriptions") ∷ argument subscription_id ∷ [])
events_documented (update_event_subscription subscription_id req token) =
    at (bytes "PATCH")
      (fixed (bytes "events") ∷ fixed (bytes "subscriptions") ∷ argument subscription_id ∷ [])
events_documented (delete_event_subscription subscription_id token) =
    at (bytes "DELETE")
      (fixed (bytes "events") ∷ fixed (bytes "subscriptions") ∷ argument subscription_id ∷ [])
events_documented (test_event_subscription subscription_id token) = at (bytes "POST") (
    fixed (bytes "events")
    ∷ fixed (bytes "subscriptions")
    ∷ argument subscription_id
    ∷ fixed (bytes "test")
    ∷ [])
events_documented (toggle_event_subscription subscription_id token) = at (bytes "POST") (
    fixed (bytes "events")
    ∷ fixed (bytes "subscriptions")
    ∷ argument subscription_id
    ∷ fixed (bytes "toggle")
    ∷ [])
events_documented (event_subscription_stats subscription_id token) = at (bytes "GET") (
    fixed (bytes "events")
    ∷ fixed (bytes "subscriptions")
    ∷ argument subscription_id
    ∷ fixed (bytes "stats")
    ∷ [])

pub events_request-Documents : (c : EventsCall) → Documents (events_request c) (events_documented c)
unfolding events_request events_documented route
events_request-Documents (event_types) = (refl, refl)
events_request-Documents _ = (refl, refl)
