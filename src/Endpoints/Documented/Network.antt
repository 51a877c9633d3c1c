-- ===== src/Endpoints/Documented/Network.antt =====
-- The method and the path that the doc comments of network.go name for each method of the client.
use auth_sdk_go.Base.{refl, [], ◌∷◌}
use auth_sdk_go.Base.Text.{bytes}
use auth_sdk_go.Endpoints.Routes.{fixed, argument, route}
use auth_sdk_go.Endpoints.Documented.Comment.{Endpoint, at, Documents}
use auth_sdk_go.Endpoints.Network.{
  NetworkPolicyCall, create_network_policy, list_network_policies, get_network_policy,
  update_network_policy, delete_network_policy, evaluate_network_policy, create_emergency_override,
  list_network_overrides, delete_network_override, create_temp_allowlist, list_temp_allowlist,
  delete_temp_allowlist, list_network_violations, network_policy_request, NetworkAccessCall,
  network_access_check, evaluate_network_access, network_access_request,
}

unfoldable pub network_policy_documented : NetworkPolicyCall → Endpoint
network_policy_documented (create_network_policy req caller_token) =
    at (bytes "POST") (fixed (bytes "network-policy") ∷ fixed [] ∷ [])
network_policy_documented (list_network_policies caller_token) =
    at (bytes "GET") (fixed (bytes "network-policy") ∷ fixed [] ∷ [])
network_policy_documented (get_network_policy policy_id caller_token) =
    at (bytes "GET") (fixed (bytes "network-policy") ∷ argument policy_id ∷ [])
network_policy_documented (update_network_policy policy_id req caller_token) =
    at (bytes "PUT") (fixed (bytes "network-policy") ∷ argument policy_id ∷ [])
network_policy_documented (delete_network_policy policy_id caller_token) =
    at (bytes "DELETE") (fixed (bytes "network-policy") ∷ argument policy_id ∷ [])
network_policy_documented (evaluate_network_policy ip) =
    at (bytes "GET") (fixed (bytes "network-policy") ∷ fixed (bytes "evaluate") ∷ [])
network_policy_documented (create_emergency_override req caller_token) =
    at (bytes "POST") (fixed (bytes "network-policy") ∷ fixed (bytes "emergency-override") ∷ [])
network_policy_documented (list_network_overrides caller_token) =
    at (bytes "GET") (fixed (bytes "network-policy") ∷ fixed (bytes "overrides") ∷ [])
network_policy_documented (delete_network_override override_id caller_token) =
    at (bytes "DELETE")
      (fixed (bytes "network-policy") ∷ fixed (bytes "overrides") ∷ argument override_id ∷ [])
network_policy_documented (create_temp_allowlist req caller_token) =
    at (bytes "POST") (fixed (bytes "network-policy") ∷ fixed (bytes "temp-allowlist") ∷ [])
network_policy_documented (list_temp_allowlist caller_token) =
    at (bytes "GET") (fixed (bytes "network-policy") ∷ fixed (bytes "temp-allowlist") ∷ [])
network_policy_documented (delete_temp_allowlist entry_id caller_token) =
    at (bytes "DELETE")
      (fixed (bytes "network-policy") ∷ fixed (bytes "temp-allowlist") ∷ argument entry_id ∷ [])
network_policy_documented (list_network_violations caller_token) =
    at (bytes "GET") (fixed (bytes "network-policy") ∷ fixed (bytes "violations") ∷ [])

pub network_policy_request-Documents :
    (c : NetworkPolicyCall) → Documents (network_policy_request c) (network_policy_documented c)
unfolding network_policy_request network_policy_documented route
network_policy_request-Documents (create_network_policy req caller_token) = (refl, refl)
network_policy_request-Documents _ = (refl, refl)

unfoldable pub network_access_documented : NetworkAccessCall → Endpoint
network_access_documented (network_access_check caller_token) =
    at (bytes "GET") (fixed (bytes "network-policy") ∷ fixed (bytes "access-check") ∷ [])
network_access_documented (evaluate_network_access caller_token) =
    at (bytes "POST") (fixed (bytes "network-policy") ∷ fixed (bytes "access-check") ∷ [])

pub network_access_request-Documents :
    (c : NetworkAccessCall) → Documents (network_access_request c) (network_access_documented c)
unfolding network_access_request network_access_documented route
network_access_request-Documents (network_access_check caller_token) = (refl, refl)
network_access_request-Documents _ = (refl, refl)
