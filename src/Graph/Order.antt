-- ===== src/Graph/Order.antt =====
-- `TopologicalOrder` of internal/graph/graph.go. The map `inDegree` is a function, and the heap of PR numbers,
-- which container/heap pops least first, an ascending list.
use pratc.Base.{
  ℕ, zero, suc, String, ◌&&◌, List, [], ◌∷◌, map, Option, none, some, select, length, if◌then◌else◌,
  ◌==◌, str_eq,
}
use pratc.Base.Numbers.{elem, add_all, insert_id, sort_ids}

-- `types.GraphNode` and `types.GraphEdge`.
pub record GraphNode : Type 0 where
  pub pr_number : ℕ
  pub title : String
  pub cluster_id : String
  pub ci_status : String

pub record GraphEdge : Type 0 where
  pub from_pr : ℕ
  pub to_pr : ℕ
  pub edge_type : String
  pub reason : String

-- `Graph`, without its telemetry.
pub record Graph : Type 0 where
  pub repo : String
  pub nodes : List GraphNode
  pub edges : List GraphEdge

abbrev pub numbers : Graph → List ℕ
numbers g = map (λ n. n.pr_number) g.nodes

-- `nodeByPR[pr]`: the last node of that number.
unfoldable pub node_by_pr : ℕ → List GraphNode → Option GraphNode
node_by_pr pr [] = none
node_by_pr pr (n ∷ ns) = elim (node_by_pr pr ns) [
  | some later ↦ some later
  | none ↦ if n.pr_number == pr then some n else none
]

-- An edge from a pull request to one that depends on it.
abbrev pub Arc : Type 0
Arc = ℕ × ℕ

-- The edges that the loop over `g.Edges` does not skip: dependencies between nodes of the graph.
unfoldable pub arcs_of : List ℕ → List GraphEdge → List Arc
unfolding elem
arcs_of known [] = []
arcs_of known (e ∷ es) =
    let rest = arcs_of known es in
    if str_eq e.edge_type "depends_on" && elem e.from_pr known && elem e.to_pr known
    then (e.from_pr, e.to_pr) ∷ rest
    else rest

-- `dependents[pr]` after that loop.
unfoldable pub dependents : ℕ → List Arc → List ℕ
dependents pr [] = []
dependents pr ((from, to) ∷ rest) =
    let others = dependents pr rest in if from == pr then to ∷ others else others

abbrev pub Degrees : Type 0
Degrees = ℕ → ℕ

-- `inDegree[pr]` after that loop.
unfoldable pub in_degree : List Arc → Degrees
in_degree [] pr = 0
in_degree ((from, to) ∷ rest) pr = let n = in_degree rest pr in if to == pr then suc n else n

abbrev pub set_degree : ℕ → ℕ → Degrees → Degrees
set_degree pr n degrees k = if k == pr then n else degrees k

-- The loop over `children`. A degree of 0 would fall below 0 in the source and never be 0 again; here it stays
-- 0, and nothing is pushed.
unfoldable pub relax : List ℕ → Degrees → List ℕ → Degrees × List ℕ
unfolding insert_id
relax [] degrees ready = (degrees, ready)
relax (next ∷ rest) degrees ready = elim (degrees next) [
  | zero ↦ relax rest degrees ready
  | suc n ↦
      relax rest (set_degree next n degrees)
        (elim n [ zero ↦ insert_id next ready | suc _ ↦ ready ])
]

-- `for ready.Len() > 0`: the numbers in the order in which they are popped, or `none` without fuel.
unfoldable pub visit : ℕ → List Arc → Degrees → List ℕ → Option (List ℕ)
unfolding relax dependents sort_ids
visit zero arcs degrees ready = none
visit (suc fuel) arcs degrees [] = some []
visit (suc fuel) arcs degrees (current ∷ ready) =
    let (later, more) = relax (sort_ids (dependents current arcs)) degrees ready in
    elim (visit fuel arcs later more) [ none ↦ none | some order ↦ some (current ∷ order) ]

-- The nodes of the numbers; each number is one of a node.
unfoldable pub nodes_of : List ℕ → List GraphNode → List GraphNode
unfolding node_by_pr
nodes_of [] nodes = []
nodes_of (pr ∷ prs) nodes =
    let rest = nodes_of prs nodes in elim (node_by_pr pr nodes) [ none ↦ rest | some n ↦ n ∷ rest ]

pub data TopologicalResult : Type 0 where
  ordered : List GraphNode → TopologicalResult
  dependency_cycle out_of_fuel : TopologicalResult

abbrev pub keys : Graph → List ℕ
keys g = sort_ids (add_all (numbers g) [])

-- The heap before the loop: the numbers with in-degree 0.
unfoldable pub initial_ready : Graph → List ℕ
unfolding add_all sort_ids arcs_of in_degree
initial_ready g =
    let arcs = arcs_of (numbers g) g.edges in select (λ pr. in_degree arcs pr == 0) (keys g)

-- The order of the numbers, with as much fuel as there are nodes, and one more.
unfoldable pub number_order : Graph → Option (List ℕ)
unfolding visit arcs_of in_degree initial_ready
number_order g =
    let arcs = arcs_of (numbers g) g.edges in
    visit (suc (length g.nodes)) arcs (in_degree arcs) (initial_ready g)

-- `TopologicalOrder`.
unfoldable pub topological_order : Graph → TopologicalResult
unfolding number_order nodes_of
topological_order g = elim (number_order g) [
  | none ↦ out_of_fuel
  | some order ↦
      if length order == length g.nodes then ordered (nodes_of order g.nodes) else dependency_cycle
]
