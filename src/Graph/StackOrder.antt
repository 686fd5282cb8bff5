-- ===== src/Graph/StackOrder.antt =====
-- `TopologicalOrder` on the graph that `Build` of internal/graph/graph.go makes places a pull request after those that
-- it is stacked on.
use pratc.Base.{
  ℕ, String, Bool, true, false, ◌&&◌, ◌||◌, ◌≡◌, ◌⊎◌, inl, inr, refl, ap, subst, List, [], ◌∷◌, map,
  ◌==◌, ==_iff, str_eq, str_eq_iff, arith, Bool-cases,
}
use pratc.Base.Numbers.{elem}
use pratc.Planner.Pool.{Pr}
use package.pratc.Graph.Order.{
  GraphEdge, GraphNode, Arc, numbers, arcs_of, ordered, topological_order,
}
use package.pratc.Graph.Degrees.{blocked}
use package.pratc.Graph.Visit.{Respects}
use package.pratc.Graph.Topological.{arcs, topological_order-Respects}
use package.pratc.Graph.Cycle.{has_arc}
use package.pratc.Graph.Build.{build, dependency, seen_edge, sort_by_number, graph_node}
use package.pratc.Graph.Stacks.{In, In-sort_by_number, seen_edge-build}

-- Whether the first number stands before the second one.
unfoldable pub precedes : ℕ → ℕ → List ℕ → Bool
precedes a b [] = false
precedes a b (c ∷ rest) = ((c == a) && elem b rest) || precedes a b rest

has_arc-arcs_of :
    (known : List ℕ) (k : GraphEdge) (edges : List GraphEdge)
    → seen_edge k edges ≡ true
    → k.edge_type ≡ "depends_on"
    → elem k.from_pr known ≡ true
    → elem k.to_pr known ≡ true
    → has_arc k.from_pr k.to_pr (arcs_of known edges) ≡ true
unfolding seen_edge has_arc arcs_of
has_arc-arcs_of known k [] h d f t = ground arith
has_arc-arcs_of known k (e ∷ edges) h d f t = ground (
  arith,
  has_arc-arcs_of known k edges,
  str_eq_iff e.edge_type k.edge_type,
  str_eq_iff e.edge_type "depends_on",
  ==_iff e.from_pr k.from_pr,
  ==_iff e.to_pr k.to_pr,
)

elem-In :
    (pr : Pr) (prs : List Pr)
    → In pr prs
    → elem pr.number (map (λ n. n.pr_number) (map graph_node prs)) ≡ true
unfolding In elem
elem-In pr [] h = absurd h
elem-In pr (x ∷ prs) (inl same) = ground (arith, ap (λ y. y.number) same, ==_iff x.number pr.number)
elem-In pr (x ∷ prs) (inr later) = ground (arith, elem-In pr prs later)

blocked-free :
    (a b : ℕ) (arcs : List Arc) (placed : List ℕ)
    → has_arc a b arcs ≡ true
    → blocked arcs placed b ≡ 0
    → elem a placed ≡ true
unfolding has_arc blocked
blocked-free a b [] placed h e = ground arith
blocked-free a b ((from, to) ∷ rest) placed h e =
    ground (arith, blocked-free a b rest placed, ==_iff from a, ==_iff to b)

Respects-precedes :
    (arcs : List Arc) (a b : ℕ) (placed order : List ℕ)
    → has_arc a b arcs ≡ true
    → Respects arcs placed order
    → elem b order ≡ true
    → (elem a placed ≡ true) ⊎ (precedes a b order ≡ true)
unfolding Respects precedes elem
Respects-precedes arcs a b placed [] h r m = absurd (ground arith)
Respects-precedes arcs a b placed (c ∷ rest) h r m = elim (Bool-cases (c == b)) [
  | inl same ↦ inl (
      blocked-free a b arcs placed h
        (subst (λ y. blocked arcs placed y ≡ 0) ((==_iff c b).0 same) r.0))
  | inr other ↦ ground (arith, Respects-precedes arcs a b (c ∷ placed) rest h r.1)
]

elem-build :
    (repo : String) (pr : Pr) (prs : List Pr)
    → In pr prs
    → elem pr.number (numbers (build repo prs)) ≡ true
unfolding build
elem-build repo pr prs h = elem-In pr (sort_by_number prs) (In-sort_by_number pr prs h)

-- When TopologicalOrder gives an order of the graph that Build makes, a pull request that is based on the head branch
-- of another one, and not on its base, comes after it.
pub build-ordered :
    (repo : String) (prs : List Pr) (left right : Pr) (order : List GraphNode)
    → In left prs
    → In right prs
    → str_eq left.head_branch "" ≡ false
    → str_eq right.base_branch left.head_branch ≡ true
    → str_eq right.base_branch left.base_branch ≡ false
    → topological_order (build repo prs) ≡ ordered order
    → precedes left.number right.number (map (λ n. n.pr_number) order) ≡ true
unfolding elem
build-ordered repo prs left right order l r named based apart run =
    let g = build repo prs in
    let (respects, distinct, same) = topological_order-Respects g order run in
    let arc : has_arc left.number right.number (arcs g) ≡ true =
      has_arc-arcs_of (numbers g) (dependency left right) g.edges
        (seen_edge-build repo prs left right l r named (ground arith)) refl
        (elem-build repo left prs l) (elem-build repo right prs r) in
    let found : elem right.number (map (λ n. n.pr_number) order) ≡ true =
      ground (arith, same right.number, elem-build repo right prs r) in
    elim (Respects-precedes (arcs g) left.number right.number [] (map (λ n. n.pr_number) order) arc
      respects found) [ inl placed ↦ absurd (ground arith) | inr before ↦ before ]
