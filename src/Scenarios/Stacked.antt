-- ===== src/Scenarios/Stacked.antt =====
-- A stack of two pull requests, and two that change the same files.
use pratc.Base.{
  ℕ, String, true, false, not, ◌&&◌, ◌≡◌, ◌≢◌, arith, refl, inl, inr, List, [], ◌∷◌, select,
  str_elem, concat_texts, append_text,
}
use pratc.Base.Numbers.{elem, add_all, add, sort_ids, insert_id}
use pratc.Planner.Pool.{Pr, numbers}
use pratc.Planner.Ordering.{order_selection, order_selection-stacked}
use pratc.Graph.Order.{
  GraphNode, arcs_of, in_degree, dependents, relax, visit, initial_ready, number_order, node_by_pr,
  nodes_of, topological_order, ordered, dependency_cycle,
}
use pratc.Graph.Noise.{is_noise, filter_noise_files}
use pratc.Graph.Conflicts.{conflict_files, conflict_files-shared, intersect_files}
use pratc.Graph.Build.{
  build, sort_by_number, insert_by_number, edge_loop, dependency_loop, conflict_loop,
  dependency_edges, append_edge, seen_edge, base_branch_index, add_conflict, sort_edges,
  insert_edge, edge_before, graph_node, join_files,
}
use pratc.Graph.Stacks.{In}
use pratc.Graph.StackOrder.{precedes}

abbrev change : ℕ → String → String → List String → Pr
change n base head files = record {
  number = n;
  title = "";
  files_changed = files;
  review_status = "";
  ci_status = "";
  mergeable = "";
  base_branch = base;
  head_branch = head;
  cluster_id = "";
  is_draft = false;
  is_bot = false;
}

abbrev lower : Pr
lower = change 9 "main" "feature" ("go.mod" ∷ "a.go" ∷ [])

abbrev upper : Pr
upper = change 4 "feature" "more" ("b.go" ∷ [])

abbrev rival : Pr
rival = change 7 "main" "rival" ("a.go" ∷ "go.mod" ∷ "a.go" ∷ [])

abbrev prs : List Pr
prs = lower ∷ upper ∷ rival ∷ []

abbrev order : List GraphNode
order = graph_node rival ∷ graph_node lower ∷ graph_node upper ∷ []

stacked_order : topological_order (build "o/r" prs) ≡ ordered order
unfolding topological_order number_order nodes_of node_by_pr visit relax dependents in_degree
    arcs_of initial_ready add_all add sort_ids insert_id elem select build sort_by_number
    insert_by_number edge_loop dependency_loop conflict_loop dependency_edges append_edge seen_edge
    base_branch_index add_conflict sort_edges insert_edge edge_before conflict_files intersect_files
    filter_noise_files is_noise join_files concat_texts append_text
stacked_order = refl

lower-In : In lower prs
unfolding In
lower-In = inl refl

upper-In : In upper prs
unfolding In
upper-In = inr (inl refl)

shared_files : conflict_files lower rival ≡ "a.go" ∷ []
unfolding conflict_files intersect_files filter_noise_files is_noise str_elem
shared_files = refl

conflict_files-shared_example : str_elem "a.go" (conflict_files lower rival) ≡ (
    str_elem "a.go" lower.files_changed
    && str_elem "a.go" rival.files_changed
    && not (is_noise "a.go"))
conflict_files-shared_example = conflict_files-shared lower rival "a.go" refl refl

acyclic : topological_order (build "o/r" prs) ≢ dependency_cycle
acyclic e = ground (arith, stacked_order, e)

order_selection-stacked_example : precedes 9 4 (numbers (order_selection "o/r" prs)) ≡ true
order_selection-stacked_example =
    order_selection-stacked "o/r" prs lower upper acyclic lower-In upper-In refl refl refl
