-- ===== src/Actor.antt =====
-- types.go: the resolved identity behind a credential, and what is asked about one.
use auth_sdk_go.Base.{ℕ, Bool, true, false, ◌&&◌, List, [], ◌∷◌, if◌then◌else◌}
use auth_sdk_go.Base.Text.{Bytes, same, is_empty}

pub record Actor : Type 0 where
  pub valid : Bool
  pub user_id : Bytes
  pub org_id : Bytes
  pub email : Bytes
  pub permissions : List Bytes
  pub audience : List Bytes
  pub expires_at : Bytes
  pub error : Bytes
  pub is_delegation : Bool
  pub acting_as : Bytes
  pub delegation_scope : List Bytes
  pub delegation_chain : List Bytes
  pub retrieved_at : ℕ

-- The zero Actor with a verdict: `&Actor{Valid: v}`.
abbrev pub verdict : Bool → Actor
verdict v = record {
  valid = v;
  user_id = [];
  org_id = [];
  email = [];
  permissions = [];
  audience = [];
  expires_at = [];
  error = [];
  is_delegation = false;
  acting_as = [];
  delegation_scope = [];
  delegation_chain = [];
  retrieved_at = 0;
}

-- `containsString`, and the loop of `Actor.HasPermission`.
unfoldable pub contains_string : List Bytes → Bytes → Bool
contains_string [] s = false
contains_string (x ∷ xs) s = if same x s then true else contains_string xs s

has_permission : Actor → Bytes → Bool
has_permission a p = contains_string a.permissions p

pub record Resource : Type 0 where
  pub type : Bytes
  pub id : Bytes

unfoldable pub is_zero : Resource → Bool
is_zero r = is_empty r.type && is_empty r.id

pub record TokenValidationRequest : Type 0 where
  pub token : Bytes
  pub required_permissions : List Bytes
  pub expected_audience : Bytes
  pub include_permissions : Bool
