-- ===== src/Endpoints.antt =====
-- The methods of the client that are one request each, in the files of the repository's root: what
-- a request is made of, and doJSON, doGet, doForm, getString and postFormString of transport.go, up
-- to the call of `do` or `doRaw`. A path is kept as the pieces that the source adds up.
-- url.PathEscape and Values.Encode are parameters, and so is json.Marshal, in that a body stands
-- for the bytes that it makes.
pub mod Admin
pub mod ApiKeys
pub mod AuthzModels
pub mod Email
pub mod Events
pub mod Hierarchy
pub mod Hosted
pub mod Hris
pub mod Mesh
pub mod Network
pub mod Oauth
pub mod Sessions
pub mod Orgs
pub mod Passwordless
pub mod Permissions
pub mod Providers
pub mod Quotas
pub mod Roles
pub mod Saml
pub mod Scim
pub mod System
pub mod Users
pub mod Routes
pub mod Calls
pub mod Documented
pub mod Tests
use auth_sdk_go.Base.{ℕ, Bool, List, [], ◌∷◌, ◌++◌, Option, none, some, if◌then◌else◌}
use auth_sdk_go.Base.Text.{Bytes, bytes, is_empty}
use auth_sdk_go.Base.Assoc.{insert}

-- `url.Values`
abbrev pub Values : Type 0
Values = List (Bytes × List Bytes)

-- A piece of a path: a literal, `url.PathEscape(s)`, `"?" + q.Encode()` where that is not empty, or
-- `"?" + q.Encode()` in any case.
pub data Piece : Type 0 where
  text escaped : Bytes → Piece
  query always_query : Values → Piece

-- A body: none, JSON, an object of strings, or a form.
pub data Content : Type 0 where
  nothing : Content
  json : Bytes → Content
  json_object : List (Bytes × Bytes) → Content
  form : Values → Content

pub record Request : Type 0 where
  pub method : Bytes
  pub path : List Piece
  pub content : Content
  pub credential : Bytes

abbrev pub do_json : (method : Bytes) → List Piece → Content → (bearer : Bytes) → Request
do_json method path body bearer = record {
  method = method;
  path = path;
  content = body;
  credential = bearer;
}

abbrev pub do_form : List Piece → Values → (bearer : Bytes) → Request
do_form path values bearer = record {
  method = bytes "POST";
  path = path;
  content = form values;
  credential = bearer;
}

abbrev pub do_get : List Piece → (bearer : Bytes) → Request
do_get path bearer = record {
  method = bytes "GET";
  path = path;
  content = nothing;
  credential = bearer;
}

abbrev pub get_string : List Piece → (bearer : Bytes) → Request
get_string path bearer = do_get path bearer

abbrev pub post_form_string : List Piece → Values → Request
post_form_string path values = do_form path values []

-- `struct{}{}`
abbrev pub empty_object : Content
empty_object = json (bytes "{}")

-- A nil map is sent as an empty object.
abbrev pub req_or_empty : Option Bytes → Content
req_or_empty none = empty_object
req_or_empty (some m) = json m

abbrev pub set : Bytes → Bytes → Values → Values
set k v q = insert k (v ∷ []) q

-- `if v != "" { q.Set(k, v) }`
abbrev pub set_unless_empty : Bytes → Bytes → Values → Values
set_unless_empty k v q = if is_empty v then q else set k v q

-- A query of the one name, if its value is not empty.
abbrev pub only_set : Bytes → Bytes → Values
only_set k v = set_unless_empty k v []

-- `for _, v := range vs { q.Add(k, v) }`, for a name that is not in `q`.
abbrev pub add_all : Bytes → List Bytes → Values → Values
add_all k [] q = q
add_all k (v ∷ vs) q = insert k (v ∷ vs) q

unfoldable pub org_path : (org_id suffix : Bytes) → List Piece
org_path org_id suffix = text (bytes "/organizations/") ∷ escaped org_id ∷ text suffix ∷ []

unfoldable pub zanzibar_base : (store_id : Bytes) → List Piece
zanzibar_base store_id = text (bytes "/zanzibar/stores/") ∷ escaped store_id ∷ []

-- The path that is sent.
module _ (path_escape : Bytes → Bytes) (encode : Values → Bytes) where
  unfoldable pub piece_text : Piece → Bytes
  piece_text (text t) = t
  piece_text (escaped s) = path_escape s
  piece_text (query q) = if is_empty (encode q) then [] else b'?' ∷ encode q
  piece_text (always_query q) = b'?' ∷ encode q

  unfoldable pub path_text : List Piece → Bytes
  unfolding piece_text
  path_text [] = []
  path_text (p ∷ ps) = piece_text p ++ path_text ps
