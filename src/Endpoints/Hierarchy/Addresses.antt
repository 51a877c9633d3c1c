-- ===== src/Endpoints/Hierarchy/Addresses.antt =====
-- What WalkOrgTree is held against: the addresses of the organizations in a tree. The root is at the
-- empty address, and the address of a child is that of its parent and then its index.
use mathlib.Core.List.{
  Mem, mem-cast, mem-cons_self, mem-cons_of_mem, mem-append_left, mem-append_right, mem-map_of_mem,
}
use auth_sdk_go.Base.{
  ℕ, zero, suc, ◌+◌, ◌<◌, ◌≡◌, refl, ap, ◌∙◌, List, [], ◌∷◌, ◌++◌, Option, none, some, map, arith,
  All, All-append, All-imp, length,
}
use auth_sdk_go.Endpoints.Hierarchy.{
  OrgInfo, OrgHierarchyChild, child, OrgHierarchyChildren, no_more, first, OrgHierarchyResponse,
}

abbrev pub Address : Type 0
Address = List ℕ

abbrev pub Node : Type 0
Node = Address × Option OrgInfo

-- What is at an address.
abbrev mutual
  pub at_child : OrgHierarchyChild → Address → Option (Option OrgInfo)
  at_child (child info kids) [] = some (some info)
  at_child (child info kids) (i ∷ a) = at_children kids i a

  pub at_children : OrgHierarchyChildren → ℕ → Address → Option (Option OrgInfo)
  at_children no_more i a = none
  at_children (first kid kids) zero a = at_child kid a
  at_children (first kid kids) (suc i) a = at_children kids i a

abbrev pub at_address : OrgHierarchyResponse → Address → Option (Option OrgInfo)
at_address r [] = some r.organization
at_address r (i ∷ a) = at_children r.children i a

-- Depth first: a node is before all below it, and what is below one child is before the next.
pub data Before : Address → Address → Type 0 where
  above : (i : ℕ) (b : Address) → Before [] (i ∷ b)
  left : (i j : ℕ) (a b : Address) → i < j → Before (i ∷ a) (j ∷ b)
  inside : (i : ℕ) (a b : Address) → Before a b → Before (i ∷ a) (i ∷ b)

abbrev pub Precedes : Node → Node → Type 0
Precedes n m = Before n.0 m.0

-- The calls of the callback for nodes, below a node of some depth.
abbrev pub call_all : {S : Type 0} → (Option OrgInfo → ℕ → S → S) → (depth : ℕ) → List Node → S → S
call_all fn depth [] s = s
call_all fn depth (n ∷ ns) s = call_all fn depth ns (fn n.1 (depth + length n.0) s)

abbrev pub under : ℕ → Node → Node
under i n = (i ∷ n.0, n.1)

-- The nodes of a subtree, by their addresses in it, and those of children counted from `i`.
unfoldable mutual
  pub nodes_of : OrgHierarchyChild → List Node
  nodes_of (child info kids) = ([], some info) ∷ nodes_from 0 kids

  pub nodes_from : ℕ → OrgHierarchyChildren → List Node
  nodes_from i no_more = []
  nodes_from i (first kid kids) = map (under i) (nodes_of kid) ++ nodes_from (suc i) kids

-- The nodes of the tree.
unfoldable pub nodes : OrgHierarchyResponse → List Node
unfolding nodes_from
nodes r = ([], r.organization) ∷ nodes_from 0 r.children

pub All-under :
    (P Q : Node → Type 0) (i : ℕ) (ns : List Node)
    → ((n : Node) → P n → Q (under i n))
    → All P ns
    → All Q (map (under i) ns)
All-under P Q i [] f h = tt
All-under P Q i (n ∷ ns) f h = (f n h.0, All-under P Q i ns f h.1)

-- What a node is at, among children counted from `i`.
abbrev pub Among : ℕ → OrgHierarchyChildren → Node → Type 0
Among i kids n = (j : ℕ) × (a : Address) × (n.0 ≡ (i + j) ∷ a) × (at_children kids j a ≡ some n.1)

mutual
  unfolding nodes_of

  nodes_of-at : (kid : OrgHierarchyChild) → All (λ n. at_child kid n.0 ≡ some n.1) (nodes_of kid)
  nodes_of-at (child info kids) = (
    refl,
    All-imp _ _ (nodes_from 0 kids)
        (λ n h.
          let (j, a, e, q) = h in
          ap (at_child (child info kids)) (e ∙ ap (λ (k : ℕ). k ∷ a) (omega arith)) ∙ q)
        (nodes_from-Among 0 kids),
  )

  pub nodes_from-Among :
      (i : ℕ) (kids : OrgHierarchyChildren) → All (Among i kids) (nodes_from i kids)
  nodes_from-Among i no_more = tt
  nodes_from-Among i (first kid kids) =
      All-append _ (map (under i) (nodes_of kid)) (nodes_from (suc i) kids)
        (All-under _ _ i (nodes_of kid) (λ n h. (0, n.0, ap (λ (k : ℕ). k ∷ n.0) (omega arith), h))
          (nodes_of-at kid))
        (All-imp _ _ (nodes_from (suc i) kids)
          (λ n h. let (j, a, e, q) = h in (suc j, a, e ∙ ap (λ (k : ℕ). k ∷ a) (omega arith), q))
          (nodes_from-Among (suc i) kids))

-- Every address of the tree is there.
mutual
  unfolding nodes_of

  at-nodes_of :
      (kid : OrgHierarchyChild) (a : Address) (org : Option OrgInfo)
      → at_child kid a ≡ some org
      → Mem (a, org) (nodes_of kid)
  at-nodes_of (child info kids) [] org h = mem-cast (cc) mem-cons_self
  at-nodes_of (child info kids) (j ∷ a) org h =
      mem-cons_of_mem _
        (mem-cast (ap (λ (k : ℕ). (k ∷ a, org)) (omega arith)) (at-nodes_from 0 kids j a org h))

  at-nodes_from :
      (i : ℕ) (kids : OrgHierarchyChildren) (j : ℕ) (a : Address) (org : Option OrgInfo)
      → at_children kids j a ≡ some org
      → Mem ((i + j) ∷ a, org) (nodes_from i kids)
  at-nodes_from i no_more j a org h = cc
  at-nodes_from i (first kid kids) zero a org h = mem-append_left _ (
      mem-cast (ap (λ (k : ℕ). (k ∷ a, org)) (omega arith))
        (mem-map_of_mem (under i) (at-nodes_of kid a org h)))
  at-nodes_from i (first kid kids) (suc j) a org h =
      mem-append_right _ (
        mem-cast (ap (λ (k : ℕ). (k ∷ a, org)) (omega arith))
          (at-nodes_from (suc i) kids j a org h))

pub mem-nodes :
    (r : OrgHierarchyResponse) (a : Address) (org : Option OrgInfo)
    → at_address r a ≡ some org
    → Mem (a, org) (nodes r)
unfolding nodes
mem-nodes r [] org h = mem-cast (cc) mem-cons_self
mem-nodes r (j ∷ a) org h =
    mem-cons_of_mem _
      (mem-cast (ap (λ (k : ℕ). (k ∷ a, org)) (omega arith)) (at-nodes_from 0 r.children j a org h))

pub nodes-at : (r : OrgHierarchyResponse) → All (λ n. at_address r n.0 ≡ some n.1) (nodes r)
unfolding nodes
nodes-at r = (
  refl,
  All-imp _ _ (nodes_from 0 r.children)
      (λ n h.
        let (j, a, e, q) = h in ap (at_address r) (e ∙ ap (λ (k : ℕ). k ∷ a) (omega arith)) ∙ q)
      (nodes_from-Among 0 r.children),
)
