-- ===== src/Planner/Ordering.antt =====
-- `orderSelection` of internal/planner/planner.go: the order in which the selected pull requests are to be merged.
use pratc.Base.{
  ℕ, String, true, false, ◌||◌, ◌≡◌, ◌≢◌, ◌⊎◌, str_eq, refl, ap, ◌∙◌, sym, List, [], ◌∷◌, map,
  Option, none, some, if◌then◌else◌, ◌==◌, ==_iff, arith, Option-cases, Bool-cases, inl, inr,
}
use pratc.Base.Numbers.{elem}
use pratc.Graph.Order.{
  GraphNode, ordered, dependency_cycle, out_of_fuel, topological_order, TopologicalResult,
}
use pratc.Graph.Order as Order
use pratc.Graph.Build.{build, sort_by_number, insert_by_number, graph_node}
use pratc.Graph.Topological.{topological_order_total, topological_order-Respects}
use pratc.Graph.Stacks.{In}
use pratc.Graph.StackOrder.{precedes, build-ordered}
use package.pratc.Planner.Pool.{Pr, numbers}

-- `byNumber[number]`: the last pull request of that number.
unfoldable pub by_number : ℕ → List Pr → Option Pr
by_number n [] = none
by_number n (pr ∷ prs) = elim (by_number n prs) [
  | some later ↦ some later
  | none ↦ if pr.number == n then some pr else none
]

-- The pull requests of the nodes; each node is one of them.
unfoldable pub prs_of : List GraphNode → List Pr → List Pr
unfolding by_number
prs_of [] selected = []
prs_of (node ∷ nodes) selected =
    let rest = prs_of nodes selected in
    elim (by_number node.pr_number selected) [ none ↦ rest | some pr ↦ pr ∷ rest ]

-- The order for an answer of TopologicalOrder, which never runs out of fuel.
unfoldable pub order_result : TopologicalResult → List Pr → List Pr
unfolding prs_of
order_result (ordered nodes) selected = prs_of nodes selected
order_result dependency_cycle selected = sort_by_number selected
order_result out_of_fuel selected = []

-- `orderSelection`. Without a selection there are no nodes, and no order.
unfoldable pub order_selection : String → List Pr → List Pr
unfolding order_result
order_selection repo selected = order_result (topological_order (build repo selected)) selected

elem-insert_by_number :
    (x : ℕ) (pr : Pr) (prs : List Pr)
    → elem x (numbers (insert_by_number pr prs)) ≡ ((pr.number == x) || elem x (numbers prs))
unfolding elem insert_by_number
elem-insert_by_number x pr [] = refl
elem-insert_by_number x pr (other ∷ prs) = ground (arith, elem-insert_by_number x pr prs)

elem-sort_by_number :
    (x : ℕ) (prs : List Pr) → elem x (numbers (sort_by_number prs)) ≡ elem x (numbers prs)
unfolding elem sort_by_number
elem-sort_by_number x [] = refl
elem-sort_by_number x (pr ∷ prs) =
    ground (arith, elem-sort_by_number x prs, elem-insert_by_number x pr (sort_by_number prs))

abbrev node_numbers : List GraphNode → List ℕ
node_numbers nodes = map (λ n. n.pr_number) nodes

numbers-graph_node : (prs : List Pr) → node_numbers (map graph_node prs) ≡ numbers prs
numbers-graph_node [] = refl
numbers-graph_node (pr ∷ prs) = ap (λ rest. pr.number ∷ rest) (numbers-graph_node prs)

by_number-number : (n : ℕ) (prs : List Pr) (pr : Pr) → by_number n prs ≡ some pr → pr.number ≡ n
unfolding by_number
by_number-number n [] pr h = absurd (ground arith)
by_number-number n (x ∷ prs) pr h = elim (Option-cases (by_number n prs)) [
  | inr (later, found) ↦ by_number-number n prs pr (ground (arith, found))
  | inl nowhere ↦ elim (Bool-cases (x.number == n)) [
    | inr other ↦ absurd (ground arith)
    | inl same ↦
        let it : some x ≡ some pr = ground arith in
        ap (λ o. elim o [ some y ↦ y.number | none ↦ n ]) (sym it) ∙ (==_iff x.number n).0 same
  ]
]

by_number-known :
    (n : ℕ) (prs : List Pr) → elem n (numbers prs) ≡ true → (pr : Pr) × (by_number n prs ≡ some pr)
unfolding elem by_number
by_number-known n [] h = absurd (ground arith)
by_number-known n (pr ∷ prs) h = elim (Option-cases (by_number n prs)) [
  | inl nowhere ↦ elim (Bool-cases (elem n (numbers prs))) [
    | inl later ↦ absurd (ground (arith, by_number-known n prs later))
    | inr other ↦ (pr, ground arith)
  ]
  | inr (later, found) ↦ (later, ground (arith, found))
]

-- The nodes' pull requests have the nodes' numbers.
numbers-prs_of :
    (nodes : List GraphNode) (selected : List Pr)
    → ((x : ℕ) → elem x (node_numbers nodes) ≡ true → elem x (numbers selected) ≡ true)
    → numbers (prs_of nodes selected) ≡ node_numbers nodes
unfolding prs_of elem
numbers-prs_of [] selected h = refl
numbers-prs_of (node ∷ nodes) selected h =
    let (pr, found) =
      by_number-known node.pr_number selected
        (ground (arith, h node.pr_number, ==_iff node.pr_number node.pr_number)) in
    let same = by_number-number node.pr_number selected pr found in
    let rest = numbers-prs_of nodes selected (λ x m. ground (arith, h x, m)) in
    ground (arith, found, same, rest)

result_cases :
    (o : TopologicalResult)
    → ((nodes : List GraphNode) × (o ≡ ordered nodes))
      ⊎ ((o ≡ dependency_cycle) ⊎ (o ≡ out_of_fuel))
result_cases (ordered nodes) = inl (nodes, refl)
result_cases dependency_cycle = inr (inl refl)
result_cases out_of_fuel = inr (inr refl)

elem-build :
    (repo : String) (x : ℕ) (selected : List Pr)
    → elem x (Order.numbers (build repo selected)) ≡ elem x (numbers selected)
unfolding build
elem-build repo x selected =
    ap (elem x) (numbers-graph_node (sort_by_number selected)) ∙ elem-sort_by_number x selected

numbers-ordered :
    (repo : String) (selected : List Pr) (nodes : List GraphNode)
    → topological_order (build repo selected) ≡ ordered nodes
    → numbers (prs_of nodes selected) ≡ node_numbers nodes
numbers-ordered repo selected nodes run =
    let (respects, distinct, same) = topological_order-Respects (build repo selected) nodes run in
    numbers-prs_of nodes selected (λ x m. ground (arith, same x, elem-build repo x selected, m))

-- The order of a selection loses no pull request and adds none.
pub elem-order_selection :
    (repo : String) (x : ℕ) (selected : List Pr)
    → elem x (numbers (order_selection repo selected)) ≡ elem x (numbers selected)
unfolding order_selection
elem-order_selection repo x selected =
    elim (result_cases (topological_order (build repo selected))) [
      | inl (nodes, run) ↦
          let (respects, distinct, same) =
            topological_order-Respects (build repo selected) nodes run in
          ap (λ r. elem x (numbers (order_result r selected))) run
          ∙ ap (elem x) (numbers-ordered repo selected nodes run)
          ∙ same x
          ∙ elem-build repo x selected
      | inr (inl cycle) ↦
          ap (λ r. elem x (numbers (order_result r selected))) cycle
          ∙ elem-sort_by_number x selected
      | inr (inr out) ↦ absurd (topological_order_total (build repo selected) out)
    ]

-- In the order of a selection that has no dependency cycle, a pull request that is based on the head branch of another
-- one, and not on its base, comes after it.
pub order_selection-stacked :
    (repo : String) (selected : List Pr) (left right : Pr)
    → topological_order (build repo selected) ≢ dependency_cycle
    → In left selected
    → In right selected
    → str_eq left.head_branch "" ≡ false
    → str_eq right.base_branch left.head_branch ≡ true
    → str_eq right.base_branch left.base_branch ≡ false
    → precedes left.number right.number (numbers (order_selection repo selected)) ≡ true
unfolding order_selection
order_selection-stacked repo selected left right acyclic l r named based apart =
    elim (result_cases (topological_order (build repo selected))) [
      | inl (nodes, run) ↦
          ap (λ o. precedes left.number right.number (numbers (order_result o selected))) run
          ∙ ap (precedes left.number right.number) (numbers-ordered repo selected nodes run)
          ∙ build-ordered repo selected left right nodes l r named based apart run
      | inr (inl cycle) ↦ absurd (acyclic cycle)
      | inr (inr out) ↦ absurd (topological_order_total (build repo selected) out)
    ]
