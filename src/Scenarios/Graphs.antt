-- ===== src/Scenarios/Graphs.antt =====
-- Small dependency graphs: a stack of three pull requests, and two that wait for each other.
use pratc.Base.{List, ℕ, Bool, true, ◌≡◌, ◌≢◌, ◌↔◌, refl, [], ◌∷◌, select}
use pratc.Base.Numbers.{elem, add_all, add, sort_ids, insert_id, Distinct}
use pratc.Graph.Order.{
  Graph, GraphNode, GraphEdge, numbers, arcs_of, in_degree, dependents, relax, visit, initial_ready,
  number_order, node_by_pr, nodes_of, topological_order, ordered, dependency_cycle, out_of_fuel,
}
use pratc.Graph.Visit.{Respects}
use pratc.Graph.Topological.{arcs, topological_order_total, topological_order-Respects}
use pratc.Graph.Cycle.{Stuck, topological_order-Stuck}

abbrev node : ℕ → GraphNode
node pr = record { pr_number = pr; title = ""; cluster_id = ""; ci_status = "" }

abbrev depends : ℕ → ℕ → GraphEdge
depends from to = record { from_pr = from; to_pr = to; edge_type = "depends_on"; reason = "" }

abbrev stack : Graph
stack = record {
  repo = "o/r";
  nodes = node 1 ∷ node 2 ∷ node 3 ∷ [];
  edges = depends 3 1 ∷ depends 1 2 ∷ record (depends 2 3) { edge_type = "conflicts_with" } ∷ [];
}

abbrev loop : Graph
loop = record {
  repo = "o/r";
  nodes = node 1 ∷ node 2 ∷ node 3 ∷ [];
  edges = depends 1 2 ∷ depends 2 1 ∷ depends 2 3 ∷ [];
}

stack_order : topological_order stack ≡ ordered (node 3 ∷ node 1 ∷ node 2 ∷ [])
unfolding topological_order number_order nodes_of node_by_pr visit relax dependents in_degree
    arcs_of initial_ready add_all add sort_ids insert_id elem select
stack_order = refl

topological_order_total_example : topological_order loop ≢ out_of_fuel
topological_order_total_example = topological_order_total loop

topological_order-Respects_example :
    let placed : List ℕ = 3 ∷ 1 ∷ 2 ∷ [] in
    Respects (arcs stack) [] placed
    × Distinct placed
    × ((k : ℕ) → elem k placed ≡ elem k (numbers stack))
topological_order-Respects_example =
    topological_order-Respects stack (node 3 ∷ node 1 ∷ node 2 ∷ []) stack_order

loop-Distinct : Distinct (numbers loop)
unfolding Distinct elem
loop-Distinct = (refl, (refl, (refl, tt)))

topological_order-Stuck_example :
    (topological_order loop ≡ dependency_cycle)
    ↔ ((inside : ℕ → Bool) × (k : ℕ) × (inside k ≡ true) × Stuck loop inside)
topological_order-Stuck_example = topological_order-Stuck loop loop-Distinct
