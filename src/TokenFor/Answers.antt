-- ===== src/TokenFor/Answers.antt =====
-- tokenfor.go: what the token endpoint answers, as a token or as a classified error.
use auth_sdk_go.Base.{
  ℕ, ◌+◌, ◌*◌, Bool, true, ◌&&◌, ◌||◌, ◌⊎◌, inl, inr, [], ◌++◌, Option, none, some, leb, ◌==◌,
  if◌then◌else◌, ℤ, pos, negsuc,
}
use auth_sdk_go.Base.Text.{Bytes, bytes, same, is_empty}
use auth_sdk_go.Base.Time.{second}
use auth_sdk_go.Errors.{
  ApiError, Err, api, wrapped, consent_required, as_api_error, reauthenticate, no_connection,
  scope_not_allowed, client_auth, client_not_enabled, unavailable,
}
use auth_sdk_go.TokenCache.{Token, FetchedToken, got, failed}
use auth_sdk_go.TokenFor.Forms.{Form}

-- The client's fields that TokenFor reads.
pub record App : Type 0 where
  pub client_id : Bytes
  pub client_secret : Bytes
  pub legacy_exchange : Bool
  pub legacy_audience : Bytes
  pub authz_endpoint : Bytes
  pub base_url : Bytes

abbrev pub with_client_credentials : Bytes → Bytes → App → App
with_client_credentials client_id client_secret c = record c {
  client_id = client_id;
  client_secret = client_secret;
}

abbrev with_legacy_actor_exchange : Bytes → App → App
with_legacy_actor_exchange audience c = record c {
  legacy_exchange = true;
  legacy_audience = audience;
}

pub record TokenEndpointResponse : Type 0 where
  pub access_token : Bytes
  pub token_type : Bytes
  pub expires_in : ℤ
  pub scope : Bytes

-- `time.Now()` is `now`. An `expires_in` that overflows a duration is not modelled.
abbrev expiry_after : (now : ℕ) → ℤ → ℕ
expiry_after now (negsuc n) = 0
expiry_after now (pos n) = if n == 0 then 0 else now + n * second

unfoldable to_token : (now : ℕ) → (resource requested_scope : Bytes) → TokenEndpointResponse → Token
to_token now resource requested_scope r = record {
  access_token = r.access_token;
  token_type = r.token_type;
  resource = resource;
  scope = if is_empty r.scope then requested_scope else r.scope;
  expires_at = expiry_after now r.expires_in;
}

abbrev pub Endpoint : Type 0
Endpoint = Form → (basic : Bool) → TokenEndpointResponse ⊎ Err

abbrev no_access_token : ApiError
no_access_token = record {
  status_code = 502;
  method = bytes "POST";
  endpoint = bytes "/auth/oauth/token";
  code = [];
  sub_error = [];
  message = bytes "token endpoint answered 2xx without an access_token";
  request_id = [];
  body = [];
}

unfoldable pub post_token_endpoint : Endpoint → Form → Bool → TokenEndpointResponse ⊎ Err
post_token_endpoint endpoint form basic = elim (endpoint form basic) [
  | inl r ↦ if is_empty r.access_token then inr (api no_access_token) else inl r
  | inr e ↦ inr e
]

-- `metadata` is what the request for the metadata gives: the endpoint it names, if it succeeds.
unfoldable authorization_endpoint : Option Bytes → App → App × Bytes
authorization_endpoint metadata c =
    let fallback : App × Bytes = (c, c.base_url ++ bytes "/auth/authorize") in
    let read : App × Bytes = elim metadata [
      | none ↦ fallback
      | some found ↦
          if is_empty found then fallback else (record c { authz_endpoint = found }, found)
    ] in
    if is_empty c.authz_endpoint then read else (c, c.authz_endpoint)

-- The error for an answer of the service, by its status and its codes.
unfoldable pub classify_api_error :
    Option Bytes → App → ApiError → (person_present : Bool) → (resource scope : Bytes) → App × Err
unfolding authorization_endpoint
classify_api_error metadata c ae person_present resource scope =
    let (c', found) = authorization_endpoint metadata c in
    if leb 500 ae.status_code || ae.status_code == 429
    then (c, wrapped unavailable (api ae))
    else if same ae.code (bytes "invalid_client")
    then (c, wrapped client_auth (api ae))
    else if same ae.code (bytes "unauthorized_client")
    then (c, wrapped client_not_enabled (api ae))
    else if same ae.code (bytes "invalid_scope")
    then (c, wrapped scope_not_allowed (api ae))
    else if same ae.code (bytes "invalid_target")
    then if same ae.sub_error (bytes "consent_required")
      then (c', consent_required resource scope c.client_id found ae)
      else (c, wrapped no_connection (api ae))
    else if (same ae.code (bytes "invalid_request") || same ae.code (bytes "invalid_grant"))
        && (person_present && ae.status_code == 400)
    then (c, wrapped reauthenticate (api ae))
    else (c, api ae)

unfoldable pub classify_token_error :
    Option Bytes → App → Err → (person_present : Bool) → (resource scope : Bytes) → App × Err
unfolding as_api_error classify_api_error
classify_token_error metadata c err person_present resource scope = elim (as_api_error err) [
  | none ↦ (c, wrapped unavailable err)
  | some ae ↦ classify_api_error metadata c ae person_present resource scope
]

-- The token, or the error classified.
unfoldable pub token_or_error :
    Option Bytes
    → (now : ℕ) → App
    → (person_present : Bool) → (resource scope : Bytes) → TokenEndpointResponse ⊎ Err
    → App × FetchedToken
unfolding classify_token_error to_token
token_or_error metadata now c person_present resource scope (inl r) =
    (c, got (to_token now resource scope r))
token_or_error metadata now c person_present resource scope (inr e) =
    let (c', e') = classify_token_error metadata c e person_present resource scope in
    (c', failed e')
