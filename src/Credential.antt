-- ===== src/Credential.antt =====
-- authclient.go: what a credential looks like and which header carries it; transport.go: the
-- headers of a request (applyCommon, applyBase).
pub mod Headers
pub mod Tests
use auth_sdk_go.Base.{ℕ, Bool, false, ◌&&◌, ◌||◌, not, List, [], ◌∷◌, ◌++◌, ◌==◌, if◌then◌else◌}
use auth_sdk_go.Base.Text.{Bytes, bytes, is_empty, has_prefix, has_byte}
use auth_sdk_go.Base.Assoc.{insert}

abbrev api_key_prefix : Bytes
api_key_prefix = bytes "ab0t_sk_"

unfoldable pub is_api_key : Bytes → Bool
unfolding has_prefix
is_api_key cred = has_prefix cred api_key_prefix

-- `strings.Split(s, sep)` for a separator of one byte: the part before the first, and the rest.
unfoldable pub split : ℕ → Bytes → List Bytes
split sep [] = [] ∷ []
split sep (c ∷ s) = elim (split sep s) [
  | [] ↦ []
  | p ∷ ps ↦ if c == sep then [] ∷ p ∷ ps else (c ∷ p) ∷ ps
]

-- `strings.ContainsAny(cred, " \t\r\n")`
unfoldable has_blank : Bytes → Bool
unfolding has_byte
has_blank s = has_byte 32 s || (has_byte 9 s || (has_byte 13 s || has_byte 10 s))

abbrev three_non_empty : List Bytes → Bool
three_non_empty (a ∷ b ∷ c ∷ []) = not (is_empty a) && (not (is_empty b) && not (is_empty c))
three_non_empty _ = false

unfoldable pub looks_like_jwt : Bytes → Bool
unfolding has_blank split
looks_like_jwt cred =
    if is_empty cred || has_blank cred then false else three_non_empty (split b'.' cred)

abbrev pub bearer : Bytes → Bytes
bearer cred = bytes "Bearer " ++ cred

unfoldable pub credential_header : Bytes → Bytes × Bytes
unfolding is_api_key looks_like_jwt
credential_header cred =
    if is_empty cred
    then ([], [])
    else if is_api_key cred
    then (bytes "X-API-Key", cred)
    else if looks_like_jwt cred
    then (bytes "Authorization", bearer cred)
    else (bytes "Authorization", bearer cred)

-- The headers of a request: names in canonical form, one value each.
abbrev pub Headers : Type 0
Headers = List (Bytes × Bytes)

unfoldable pub apply_base : Bytes → Headers → Headers
apply_base user_agent h =
    let h' = insert (bytes "Accept") (bytes "application/json") h in
    if is_empty user_agent then h' else insert (bytes "User-Agent") user_agent h'

-- The service key stands in for a missing credential.
unfoldable pub apply_common : (user_agent api_key : Bytes) → Headers → Bytes → Headers
unfolding apply_base credential_header
apply_common user_agent api_key h cred =
    let c = if is_empty cred then api_key else cred in
    let h' = apply_base user_agent h in
    let (name, value) = credential_header c in if is_empty name then h' else insert name value h'
