-- ===== src/Graph/Build.antt =====
-- `Build` of internal/graph/graph.go, without its progress and telemetry. The index of base branches, a map to
-- slices, is computed where it is read.
use pratc.Base.{
  String, Bool, false, not, ◌&&◌, ◌||◌, List, [], ◌∷◌, ◌++◌, map, select, ltb, leb, ◌==◌, str_eq,
  if◌then◌else◌, concat_texts,
}
use pratc.Planner.Pool.{Pr}
use package.pratc.Graph.Order.{Graph, GraphNode, GraphEdge}
use package.pratc.Graph.Conflicts.{conflict_files}

-- `sort.Slice` of the pull requests by number.
unfoldable pub insert_by_number : Pr → List Pr → List Pr
insert_by_number pr [] = pr ∷ []
insert_by_number pr (other ∷ prs) =
    let rest = insert_by_number pr prs in
    if ltb other.number pr.number then other ∷ rest else pr ∷ other ∷ prs

unfoldable pub sort_by_number : List Pr → List Pr
unfolding insert_by_number
sort_by_number [] = []
sort_by_number (pr ∷ prs) = insert_by_number pr (sort_by_number prs)

-- `seen[key]`: an edge of the same kind between the same pull requests.
abbrev pub same_key : GraphEdge → GraphEdge → Bool
same_key e f = e.from_pr == f.from_pr && e.to_pr == f.to_pr && str_eq e.edge_type f.edge_type

unfoldable pub seen_edge : GraphEdge → List GraphEdge → Bool
seen_edge e [] = false
seen_edge e (f ∷ edges) = same_key f e || seen_edge e edges

unfoldable pub append_edge : GraphEdge → List GraphEdge → List GraphEdge
unfolding seen_edge
append_edge e edges = if seen_edge e edges then edges else edges ++ e ∷ []

-- The pull requests of a base branch: none for the empty name.
unfoldable pub base_branch_index : String → List Pr → List Pr
unfolding select
base_branch_index branch prs =
    if str_eq branch "" then [] else select (λ pr. str_eq pr.base_branch branch) prs

abbrev pub dependency : Pr → Pr → GraphEdge
dependency left right = record {
  from_pr = left.number;
  to_pr = right.number;
  edge_type = "depends_on";
  reason = concat_texts ("stacked on " ∷ left.head_branch ∷ " branch" ∷ []);
}

-- Whether `right` is stacked on `left`, as the two tests of the loop have it.
abbrev pub is_stacked : Pr → Pr → Bool
is_stacked left right =
    str_eq right.base_branch left.head_branch && not (str_eq right.base_branch left.base_branch)

-- The body of the first inner loop.
unfoldable pub dependency_edges : Pr → Pr → List GraphEdge → List GraphEdge
unfolding append_edge
dependency_edges left right edges =
    let edges =
      if is_stacked left right then append_edge (dependency left right) edges else edges in
    if not (str_eq left.base_branch "") && is_stacked right left
    then append_edge (dependency right left) edges
    else edges

unfoldable pub dependency_loop : Pr → List Pr → List GraphEdge → List GraphEdge
unfolding dependency_edges
dependency_loop left [] edges = edges
dependency_loop left (right ∷ rights) edges =
    dependency_loop left rights (dependency_edges left right edges)

-- `strings.Join(files, ", ")`.
unfoldable pub join_files : List String → String
unfolding concat_texts
join_files [] = ""
join_files (f ∷ files) = elim files [
  | [] ↦ f
  | _ ∷ _ ↦ concat_texts (f ∷ ", " ∷ join_files files ∷ [])
]

-- The edge of a conflict, if there are files.
unfoldable pub add_conflict : Pr → Pr → List String → List GraphEdge → List GraphEdge
unfolding append_edge join_files
add_conflict left right [] edges = edges
add_conflict left right (f ∷ files) edges =
    append_edge
      record {
        from_pr = left.number;
        to_pr = right.number;
        edge_type = "conflicts_with";
        reason = concat_texts ("shared files: " ∷ join_files (f ∷ files) ∷ []);
      }
      edges

-- The second inner loop.
unfoldable pub conflict_loop : Pr → List Pr → List GraphEdge → List GraphEdge
conflict_loop left [] edges = edges
conflict_loop left (right ∷ rights) edges = conflict_loop left rights (
    if leb right.number left.number
    then edges
    else add_conflict left right (conflict_files left right) edges)

-- The loop over the sorted pull requests.
unfoldable pub edge_loop : List Pr → List Pr → List GraphEdge → List GraphEdge
unfolding dependency_loop conflict_loop base_branch_index
edge_loop prs [] edges = edges
edge_loop prs (left ∷ lefts) edges = edge_loop prs lefts (
    conflict_loop left (base_branch_index left.base_branch prs)
      (dependency_loop left (base_branch_index left.head_branch prs) edges))

-- The order of the edges; "conflicts_with" is less than "depends_on".
unfoldable pub edge_before : GraphEdge → GraphEdge → Bool
edge_before e f =
    if e.from_pr == f.from_pr
    then if e.to_pr == f.to_pr
      then str_eq e.edge_type "conflicts_with" && str_eq f.edge_type "depends_on"
      else ltb e.to_pr f.to_pr
    else ltb e.from_pr f.from_pr

unfoldable pub insert_edge : GraphEdge → List GraphEdge → List GraphEdge
insert_edge e [] = e ∷ []
insert_edge e (f ∷ edges) =
    let rest = insert_edge e edges in if edge_before f e then f ∷ rest else e ∷ f ∷ edges

unfoldable pub sort_edges : List GraphEdge → List GraphEdge
unfolding insert_edge
sort_edges [] = []
sort_edges (e ∷ edges) = insert_edge e (sort_edges edges)

abbrev pub graph_node : Pr → GraphNode
graph_node pr = record {
  pr_number = pr.number;
  title = pr.title;
  cluster_id = pr.cluster_id;
  ci_status = pr.ci_status;
}

-- `Build`.
unfoldable pub build : String → List Pr → Graph
unfolding sort_by_number edge_loop sort_edges
build repo prs =
    let sorted = sort_by_number prs in
    record {
      repo = repo;
      nodes = map graph_node sorted;
      edges = sort_edges (edge_loop sorted sorted []);
    }
