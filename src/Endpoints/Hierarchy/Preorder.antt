-- ===== src/Endpoints/Hierarchy/Preorder.antt =====
-- WalkOrgTree calls its function for the nodes of the tree, depth first.
use mathlib.Core.List.{Mem}
use auth_sdk_go.Base.{
  InOrder, InOrder-append, ℕ, suc, ◌+◌, ◌<◌, ◌≡◌, refl, sym, ap, subst, ◌∙◌, List, [], ◌∷◌, ◌++◌,
  Option, some, map, arith, All, All-imp, length,
}
use auth_sdk_go.Endpoints.Hierarchy.{
  OrgInfo, OrgHierarchyChild, child, OrgHierarchyChildren, no_more, first, OrgHierarchyResponse,
  visit, walk, walk_org_tree,
}
use auth_sdk_go.Endpoints.Hierarchy.Addresses.{
  Address, Node, at_address, Before, above, left, inside, Precedes, call_all, under, nodes_of,
  nodes_from, nodes, All-under, Among, nodes_from-Among, mem-nodes, nodes-at,
}

-- The calls.
module _ {S : Type 0} (fn : Option OrgInfo → ℕ → S → S) where
  call_all-append :
      (depth : ℕ) (ns ms : List Node) (s : S)
      → call_all fn depth (ns ++ ms) s ≡ call_all fn depth ms (call_all fn depth ns s)
  call_all-append depth [] ms s = refl
  call_all-append depth (n ∷ ns) ms s = call_all-append depth ns ms (fn n.1 (depth + length n.0) s)

  call_all-under :
      (depth i : ℕ) (ns : List Node) (s : S)
      → call_all fn depth (map (under i) ns) s ≡ call_all fn (suc depth) ns s
  call_all-under depth i [] s = refl
  call_all-under depth i (n ∷ ns) s =
      call_all-under depth i ns (fn n.1 (depth + suc (length n.0)) s)
      ∙ ap (λ (d : ℕ). call_all fn (suc depth) ns (fn n.1 d s)) (omega arith)

  mutual
    unfolding visit nodes_of

    visit_lem :
        (kid : OrgHierarchyChild) (depth : ℕ) (s : S)
        → visit fn kid depth s ≡ call_all fn depth (nodes_of kid) s
    visit_lem (child info kids) depth s =
        walk_lem kids 0 depth (fn (some info) depth s)
        ∙ ap (λ (d : ℕ). call_all fn depth (nodes_from 0 kids) (fn (some info) d s)) (omega arith)

    walk_lem :
        (kids : OrgHierarchyChildren) (i depth : ℕ) (s : S)
        → walk fn kids (suc depth) s ≡ call_all fn depth (nodes_from i kids) s
    walk_lem no_more i depth s = refl
    walk_lem (first kid kids) i depth s =
        walk_lem kids (suc i) depth (visit fn kid (suc depth) s)
        ∙ ap (call_all fn depth (nodes_from (suc i) kids))
            (visit_lem kid (suc depth) s ∙ sym (call_all-under depth i (nodes_of kid) s))
        ∙ sym (call_all-append depth (map (under i) (nodes_of kid)) (nodes_from (suc i) kids) s)

-- The order.
InOrder-under : (i : ℕ) (ns : List Node) → InOrder Precedes ns → InOrder Precedes (map (under i) ns)
InOrder-under i [] h = tt
InOrder-under i (n ∷ ns) h =
    (All-under _ _ i ns (λ m before. inside i n.0 m.0 before) h.0, InOrder-under i ns h.1)

Among-above : (i : ℕ) (kids : OrgHierarchyChildren) (n : Node) → Among i kids n → Before [] n.0
Among-above i kids n (j, a, e, q) = subst (Before []) (sym e) (above (i + j) a)

Among-left :
    (i k : ℕ) (kids : OrgHierarchyChildren) (a : Address) (n : Node)
    → i < k
    → Among k kids n
    → Before (i ∷ a) n.0
Among-left i k kids a n h (j, b, e, q) =
    subst (Before (i ∷ a)) (sym e) (left i (k + j) a b (omega arith))

each : (P : Node → Type 0) (ns : List Node) → ((n : Node) → P n) → All P ns
each P [] f = tt
each P (n ∷ ns) f = (f n, each P ns f)

mutual
  unfolding nodes_of

  nodes_of-InOrder : (kid : OrgHierarchyChild) → InOrder Precedes (nodes_of kid)
  nodes_of-InOrder (child info kids) = (
    All-imp _ _ (nodes_from 0 kids) (Among-above 0 kids) (nodes_from-Among 0 kids),
    nodes_from-InOrder 0 kids,
  )

  nodes_from-InOrder : (i : ℕ) (kids : OrgHierarchyChildren) → InOrder Precedes (nodes_from i kids)
  nodes_from-InOrder i no_more = tt
  nodes_from-InOrder i (first kid kids) =
      InOrder-append Precedes (map (under i) (nodes_of kid)) (nodes_from (suc i) kids)
        (InOrder-under i (nodes_of kid) (nodes_of-InOrder kid)) (nodes_from-InOrder (suc i) kids)
        (All-under (λ n. Unit {0}) _ i (nodes_of kid)
          (λ n h.
            All-imp _ _ (nodes_from (suc i) kids)
              (λ m. Among-left i (suc i) kids n.0 m (omega arith)) (nodes_from-Among (suc i) kids))
          (each _ (nodes_of kid) (λ n. tt)))

-- WalkOrgTree calls its function for the organizations of the tree, the root's even where it is nil,
-- each with its depth, which is how far its address leads; they are exactly those at the addresses of
-- the tree; and each is called for once, depth first: a parent before all below it, and what is below
-- one child before the next child.
pub walk_org_tree-preorder :
    {S : Type 0} (fn : Option OrgInfo → ℕ → S → S) (s : S) (r : OrgHierarchyResponse)
    → (walk_org_tree fn (some r) s ≡ call_all fn 0 (nodes r) s)
      × InOrder Precedes (nodes r)
      × All (λ n. at_address r n.0 ≡ some n.1) (nodes r)
      × ((a : Address) (org : Option OrgInfo) → at_address r a ≡ some org → Mem (a, org) (nodes r))
unfolding walk_org_tree nodes
walk_org_tree-preorder fn s r = (
  walk_lem fn r.children 0 0 (fn r.organization 0 s),
  (
    All-imp _ _ (nodes_from 0 r.children) (Among-above 0 r.children)
        (nodes_from-Among 0 r.children),
    nodes_from-InOrder 0 r.children,
  ),
  nodes-at r,
  mem-nodes r,
)
