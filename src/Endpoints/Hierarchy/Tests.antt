-- ===== src/Endpoints/Hierarchy/Tests.antt =====
-- A hierarchy of three levels.
use mathlib.Core.List.{Mem}
use auth_sdk_go.Base.{ℕ, ◌≡◌, refl, List, [], ◌∷◌, ◌++◌, Option, none, some, All, InOrder}
use auth_sdk_go.Base.Text.{Bytes, bytes}
use auth_sdk_go.Endpoints.Hierarchy.{
  OrgInfo, child, no_more, first, OrgHierarchyResponse, walk_org_tree,
}
use auth_sdk_go.Endpoints.Hierarchy.Addresses.{Address, at_address, Precedes, call_all, nodes}
use auth_sdk_go.Endpoints.Hierarchy.Preorder.{walk_org_tree-preorder}

abbrev org : Bytes → OrgInfo
org id = record {
  id = id;
  name = [];
  slug = [];
  parent_id = [];
  domain = [];
  status = [];
  billing_type = [];
  industry = [];
  size = [];
  timezone = [];
  website = [];
  logo_url = [];
  created_at = [];
  updated_at = [];
}

-- Two companies, the first with a company of its own, under a root that the answer leaves out.
abbrev holding : OrgHierarchyResponse
holding = record {
  organization = none;
  teams = [];
  children =
      first (child (org (bytes "a")) (first (child (org (bytes "b")) no_more) no_more))
        (first (child (org (bytes "c")) no_more) no_more);
  user_count = 0;
  team_count = 0;
}

abbrev Seen : Type 0
Seen = List (Option OrgInfo × ℕ)

abbrev record_visit : Option OrgInfo → ℕ → Seen → Seen
record_visit o depth seen = seen ++ (o, depth) ∷ []

seen_in_order :
    walk_org_tree record_visit (some holding) []
    ≡ (none, 0)
      ∷ (some (org (bytes "a")), 1)
      ∷ (some (org (bytes "b")), 2)
      ∷ (some (org (bytes "c")), 1)
      ∷ []
unfolding walk_org_tree
seen_in_order = refl

no_answer : walk_org_tree record_visit none [] ≡ []
unfolding walk_org_tree
no_answer = refl

walk_org_tree-preorder_example :
    (walk_org_tree record_visit (some holding) [] ≡ call_all record_visit 0 (nodes holding) [])
    × InOrder Precedes (nodes holding)
    × All (λ n. at_address holding n.0 ≡ some n.1) (nodes holding)
    × ((a : Address) (o : Option OrgInfo)
        → at_address holding a ≡ some o
        → Mem (a, o) (nodes holding))
walk_org_tree-preorder_example = walk_org_tree-preorder record_visit [] holding
