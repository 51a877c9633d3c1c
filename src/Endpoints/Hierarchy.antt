-- ===== src/Endpoints/Hierarchy.antt =====
-- orgs.go: the hierarchy of an organization, as GetOrgHierarchy returns it, and WalkOrgTree. The
-- callback is a function on the state that it changes.
pub mod Addresses
pub mod Preorder
pub mod Tests
use auth_sdk_go.Base.{ℕ, suc, List, Option, none, some}
use auth_sdk_go.Base.Text.{Bytes}

pub record OrgInfo : Type 0 where
  pub id : Bytes
  pub name : Bytes
  pub slug : Bytes
  pub parent_id : Bytes
  pub domain : Bytes
  pub status : Bytes
  pub billing_type : Bytes
  pub industry : Bytes
  pub size : Bytes
  pub timezone : Bytes
  pub website : Bytes
  pub logo_url : Bytes
  pub created_at : Bytes
  pub updated_at : Bytes

-- `OrgHierarchyChild` and `[]OrgHierarchyChild`
mutual
  pub data OrgHierarchyChild : Type 0 where
    child : OrgInfo → OrgHierarchyChildren → OrgHierarchyChild

  pub data OrgHierarchyChildren : Type 0 where
    no_more : OrgHierarchyChildren
    first : OrgHierarchyChild → OrgHierarchyChildren → OrgHierarchyChildren

pub record HierarchyUser : Type 0 where
  pub id : Bytes
  pub type : Bytes
  pub role : Bytes

pub record HierarchyTeam : Type 0 where
  pub id : Bytes
  pub type : Bytes
  pub members : List HierarchyUser

pub record OrgHierarchyResponse : Type 0 where
  pub organization : Option OrgInfo
  pub teams : List HierarchyTeam
  pub children : OrgHierarchyChildren
  pub user_count : ℕ
  pub team_count : ℕ

module _ {S : Type 0} (fn : Option OrgInfo → (depth : ℕ) → S → S) where
  -- The body of the loop, and the loop.
  unfoldable mutual
    pub visit : OrgHierarchyChild → (depth : ℕ) → S → S
    visit (child info kids) depth s = walk kids (suc depth) (fn (some info) depth s)

    pub walk : OrgHierarchyChildren → (depth : ℕ) → S → S
    walk no_more depth s = s
    walk (first kid kids) depth s = walk kids depth (visit kid depth s)

  unfoldable pub walk_org_tree : Option OrgHierarchyResponse → S → S
  unfolding walk
  walk_org_tree none s = s
  walk_org_tree (some r) s = walk r.children 1 (fn r.organization 0 s)
