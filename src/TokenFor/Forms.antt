-- ===== src/TokenFor/Forms.antt =====
-- tokenfor.go and oauth.go: the forms that are posted to the token endpoint.
use auth_sdk_go.Base.{List, [], ◌∷◌, if◌then◌else◌}
use auth_sdk_go.Base.Text.{Bytes, bytes, is_empty}
use auth_sdk_go.Base.Assoc.{insert}

-- `url.Values`, where each name has one value.
abbrev pub Form : Type 0
Form = List (Bytes × Bytes)

abbrev pub set_unless_empty : Bytes → Bytes → Form → Form
set_unless_empty k v form = if is_empty v then form else insert k v form

abbrev grant_type_token_exchange : Bytes
grant_type_token_exchange = bytes "urn:ietf:params:oauth:grant-type:token-exchange"

abbrev token_type_access_token : Bytes
token_type_access_token = bytes "urn:ietf:params:oauth:token-type:access_token"

unfoldable pub machine_form : (resource scope : Bytes) → Form
unfolding insert
machine_form resource scope = set_unless_empty (bytes "scope") scope (
    set_unless_empty (bytes "resource") resource
      (insert (bytes "grant_type") (bytes "client_credentials") []))

unfoldable pub person_form : (subject resource scope : Bytes) → Form
unfolding insert
person_form subject resource scope = set_unless_empty (bytes "scope") scope (
    insert (bytes "resource") resource (
      insert (bytes "subject_token_type") token_type_access_token (
        insert (bytes "subject_token") subject
          (insert (bytes "grant_type") grant_type_token_exchange []))))

-- An option of TokenExchangeForm sets values.
abbrev pub ExchangeOption : Type 0
ExchangeOption = Form → Form

unfoldable pub with_scope : Bytes → ExchangeOption
with_scope scope form = insert (bytes "scope") scope form

unfoldable pub with_actor_token : Bytes → ExchangeOption
with_actor_token actor form =
    insert (bytes "actor_token_type") token_type_access_token
      (insert (bytes "actor_token") actor form)

unfoldable apply_options : List ExchangeOption → Form → Form
apply_options [] form = form
apply_options (opt ∷ opts) form = apply_options opts (opt form)

unfoldable pub token_exchange_form : (subject audience : Bytes) → List ExchangeOption → Form
unfolding insert apply_options
token_exchange_form subject audience opts = apply_options opts (
    set_unless_empty (bytes "audience") audience (
      insert (bytes "requested_token_type") token_type_access_token (
        insert (bytes "subject_token_type") token_type_access_token (
          insert (bytes "subject_token") subject
            (insert (bytes "grant_type") grant_type_token_exchange [])))))
