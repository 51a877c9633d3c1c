-- ===== src/Endpoints/Network.antt =====
-- network.go: network policies.
use auth_sdk_go.Base.{[], ◌∷◌}
use auth_sdk_go.Base.Text.{Bytes, bytes}
use auth_sdk_go.Base.Assoc.{insert}
use auth_sdk_go.Endpoints.{Request, text, escaped, query, nothing, json, do_json, do_get, only_set}

pub data NetworkPolicyCall : Type 0 where
  create_network_policy : (req caller_token : Bytes) → NetworkPolicyCall
  list_network_policies : (caller_token : Bytes) → NetworkPolicyCall
  get_network_policy : (policy_id caller_token : Bytes) → NetworkPolicyCall
  update_network_policy : (policy_id req caller_token : Bytes) → NetworkPolicyCall
  delete_network_policy : (policy_id caller_token : Bytes) → NetworkPolicyCall
  evaluate_network_policy : (ip : Bytes) → NetworkPolicyCall
  create_emergency_override : (req caller_token : Bytes) → NetworkPolicyCall
  list_network_overrides : (caller_token : Bytes) → NetworkPolicyCall
  delete_network_override : (override_id caller_token : Bytes) → NetworkPolicyCall
  create_temp_allowlist : (req caller_token : Bytes) → NetworkPolicyCall
  list_temp_allowlist : (caller_token : Bytes) → NetworkPolicyCall
  delete_temp_allowlist : (entry_id caller_token : Bytes) → NetworkPolicyCall
  list_network_violations : (caller_token : Bytes) → NetworkPolicyCall

unfoldable pub network_policy_request : NetworkPolicyCall → Request
unfolding insert
network_policy_request (create_network_policy req caller_token) =
    do_json (bytes "POST") (text (bytes "/network-policy/") ∷ []) (json req) caller_token
network_policy_request (list_network_policies caller_token) =
    do_get (text (bytes "/network-policy/") ∷ []) caller_token
network_policy_request (get_network_policy policy_id caller_token) =
    do_get (text (bytes "/network-policy/") ∷ escaped policy_id ∷ []) caller_token
network_policy_request (update_network_policy policy_id req caller_token) =
    do_json (bytes "PUT") (text (bytes "/network-policy/") ∷ escaped policy_id ∷ []) (json req)
      caller_token
network_policy_request (delete_network_policy policy_id caller_token) =
    do_json (bytes "DELETE") (text (bytes "/network-policy/") ∷ escaped policy_id ∷ []) nothing
      caller_token
network_policy_request (evaluate_network_policy ip) =
    do_get (text (bytes "/network-policy/evaluate") ∷ query (only_set (bytes "ip") ip) ∷ []) []
network_policy_request (create_emergency_override req caller_token) =
    do_json (bytes "POST") (text (bytes "/network-policy/emergency-override") ∷ []) (json req)
      caller_token
network_policy_request (list_network_overrides caller_token) =
    do_get (text (bytes "/network-policy/overrides") ∷ []) caller_token
network_policy_request (delete_network_override override_id caller_token) =
    do_json (bytes "DELETE") (text (bytes "/network-policy/overrides/") ∷ escaped override_id ∷ [])
      nothing caller_token
network_policy_request (create_temp_allowlist req caller_token) =
    do_json (bytes "POST") (text (bytes "/network-policy/temp-allowlist") ∷ []) (json req)
      caller_token
network_policy_request (list_temp_allowlist caller_token) =
    do_get (text (bytes "/network-policy/temp-allowlist") ∷ []) caller_token
network_policy_request (delete_temp_allowlist entry_id caller_token) =
    do_json (bytes "DELETE")
      (text (bytes "/network-policy/temp-allowlist/") ∷ escaped entry_id ∷ []) nothing caller_token
network_policy_request (list_network_violations caller_token) =
    do_get (text (bytes "/network-policy/violations") ∷ []) caller_token

pub data NetworkAccessCall : Type 0 where
  network_access_check : (caller_token : Bytes) → NetworkAccessCall
  evaluate_network_access : (caller_token : Bytes) → NetworkAccessCall

unfoldable pub network_access_request : NetworkAccessCall → Request
network_access_request (network_access_check caller_token) =
    do_get (text (bytes "/network-policy/access-check") ∷ []) caller_token
network_access_request (evaluate_network_access caller_token) =
    do_json (bytes "POST") (text (bytes "/network-policy/access-check") ∷ []) nothing caller_token
