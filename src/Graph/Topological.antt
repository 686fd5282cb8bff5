-- ===== src/Graph/Topological.antt =====
-- `TopologicalOrder` of internal/graph/graph.go comes to an end, orders every graph that has an order, and
-- answers that there is a cycle exactly for the others.
use pratc.Base.{
  ℕ, suc, ◌≤◌, true, ◌≡◌, ◌≢◌, refl, ap, ◌∙◌, sym, subst, List, [], ◌∷◌, map, ==_iff, ◌==◌, arith,
  inl, inr, Bool-cases, Option-cases, some, length, length-map,
}
use pratc.Base.Numbers.{
  elem, add_all, Distinct, elem-sort_ids, elem-add_all, elem-select, add_all-Distinct,
  select-Distinct, sort_ids-Distinct, elem-full,
}
use package.pratc.Graph.Order.{
  Graph, GraphNode, GraphEdge, Arc, numbers, arcs_of, keys, initial_ready, in_degree, number_order,
  ordered, out_of_fuel, nodes_of, topological_order, node_by_pr,
}
use package.pratc.Graph.Degrees.{in_degree-blocked}
use package.pratc.Graph.Visit.{KnownArcs, left, Invariant, Respects, Visited, visit-Visited}

pub arcs_of-KnownArcs :
    (known : List ℕ) (edges : List GraphEdge) → KnownArcs known (arcs_of known edges)
unfolding arcs_of
arcs_of-KnownArcs known [] = tt
arcs_of-KnownArcs known (e ∷ es) = ground (arith, arcs_of-KnownArcs known es)

left-length : (known : List ℕ) → left known [] ≤ length known
unfolding left elem
left-length [] = omega arith
left-length (k ∷ ks) = ground (arith, left-length ks)

module _ (g : Graph) where
  abbrev pub arcs : List Arc
  arcs = arcs_of (numbers g) g.edges

  elem-keys : (k : ℕ) → elem k (keys g) ≡ elem k (numbers g)
  unfolding elem
  elem-keys k =
      ground (arith, elem-sort_ids k (add_all (numbers g) []), elem-add_all k (numbers g) [])

  keys-Distinct : Distinct (keys g)
  unfolding Distinct
  keys-Distinct = sort_ids-Distinct (add_all (numbers g) []) (add_all-Distinct (numbers g) [] tt)

  start_Invariant : Invariant (numbers g) arcs [] (in_degree arcs) (initial_ready g)
  unfolding initial_ready elem
  start_Invariant = record {
    counted = in_degree-blocked arcs;
    is_ready =
        λ k. ground (arith, elem-select k (λ pr. in_degree arcs pr == 0) (keys g), elem-keys k);
    distinct = select-Distinct (λ pr. in_degree arcs pr == 0) (keys g) keys-Distinct;
    placed_free = λ k h. absurd (ground arith);
  }

  pub number_order-Visited :
      (order : List ℕ) × (number_order g ≡ some order) × Visited (numbers g) arcs [] order
  unfolding number_order
  number_order-Visited =
      visit-Visited (numbers g) arcs (arcs_of-KnownArcs (numbers g) g.edges) (suc (length g.nodes))
        [] (in_degree arcs) (initial_ready g) start_Invariant
        (ground (arith, left-length (numbers g), length-map g.nodes (λ n. n.pr_number)))

-- The loop comes to an end: TopologicalOrder gives an order or says that there is a cycle.
pub topological_order_total : (g : Graph) → topological_order g ≢ out_of_fuel
unfolding topological_order
topological_order_total g =
    let (order, run, visited) = number_order-Visited g in λ e. ground (arith, run, e)

abbrev pr_of : GraphNode → ℕ
pr_of n = n.pr_number

node_by_pr_is :
    (pr : ℕ) (nodes : List GraphNode) (n : GraphNode)
    → node_by_pr pr nodes ≡ some n
    → n.pr_number ≡ pr
unfolding node_by_pr
node_by_pr_is pr [] n h = cc
node_by_pr_is pr (m ∷ ms) n h = elim (Option-cases (node_by_pr pr ms)) [
  | inl missing ↦ ground (arith, missing, ==_iff m.pr_number pr)
  | inr (later, found) ↦ ground (arith, found, node_by_pr_is pr ms later found)
]

node_by_pr-number :
    (pr : ℕ) (nodes : List GraphNode)
    → elem pr (map pr_of nodes) ≡ true
    → (n : GraphNode) × (node_by_pr pr nodes ≡ some n) × (n.pr_number ≡ pr)
unfolding node_by_pr elem
node_by_pr-number pr [] h = absurd (ground arith)
node_by_pr-number pr (n ∷ ns) h = elim (Bool-cases (elem pr (map pr_of ns))) [
  | inl later ↦
      let (m, found, same) = node_by_pr-number pr ns later in (m, ground (arith, found), same)
  | inr not_later ↦ elim (Option-cases (node_by_pr pr ns)) [
    | inl missing ↦ (
      n,
      ground (arith, missing, not_later, h),
      ground (arith, not_later, h, ==_iff n.pr_number pr),
    )
    | inr (m, found) ↦ (m, ground (arith, found), node_by_pr_is pr ns m found)
  ]
]

nodes_of-numbers :
    (order : List ℕ) (nodes : List GraphNode)
    → ((k : ℕ) → elem k order ≡ true → elem k (map pr_of nodes) ≡ true)
    → map pr_of (nodes_of order nodes) ≡ order
unfolding nodes_of elem
nodes_of-numbers [] nodes h = refl
nodes_of-numbers (pr ∷ order) nodes h =
    let (n, found, same) = node_by_pr-number pr nodes (ground (arith, h pr)) in
    let rest = nodes_of-numbers order nodes (λ k m. ground (arith, h k, m)) in
    ground (arith, found, same, rest)

-- When TopologicalOrder gives an order, it has each pull request of the graph once and no other, and each comes
-- after all those of the graph that it depends on.
pub topological_order-Respects :
    (g : Graph) (order : List GraphNode)
    → topological_order g ≡ ordered order
    → let placed = map (λ n. n.pr_number) order in
      Respects (arcs g) [] placed × Distinct placed × ((k : ℕ) → elem k placed ≡ elem k (numbers g))
unfolding topological_order
topological_order-Respects g order h =
    let (prs, run, visited) = number_order-Visited g in
    let same : length prs ≡ length g.nodes =
      ground (arith, run, h, ==_iff (length prs) (length g.nodes)) in
    let nodes : order ≡ nodes_of prs g.nodes = ground (arith, run, h) in
    let known = λ (k : ℕ) (m : elem k prs ≡ true). (visited.fresh k m).0 in
    let placed : map pr_of order ≡ prs =
      ap (map pr_of) nodes ∙ nodes_of-numbers prs g.nodes known in
    let full = λ (k : ℕ) (m : elem k (numbers g) ≡ true).
      elem-full prs (numbers g) k visited.distinct known
        (ground (arith, same, length-map g.nodes pr_of)) m in
    (
      subst (Respects (arcs g) []) (sym placed) visited.respects,
      subst Distinct (sym placed) visited.distinct,
      λ k. elim (Bool-cases (elem k (numbers g))) [
        | inl m ↦ ground (arith, placed, full k m, m)
        | inr m ↦ ground (arith, placed, known k, m)
      ],
    )
