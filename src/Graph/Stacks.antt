-- ===== src/Graph/Stacks.antt =====
-- Which dependencies `Build` of internal/graph/graph.go finds.
use pratc.Base.{
  String, Bool, true, false, ◌||◌, ◌≡◌, ◌⊎◌, inl, inr, refl, ap, subst, List, [], ◌∷◌, ◌++◌, select,
  leb, ==_iff, str_eq, str_eq_refl, arith, Bool-cases,
}
use pratc.Planner.Pool.{Pr}
use package.pratc.Graph.Order.{GraphEdge}
use package.pratc.Graph.Conflicts.{conflict_files}
use package.pratc.Graph.Build.{
  insert_by_number, sort_by_number, seen_edge, append_edge, base_branch_index, dependency,
  is_stacked, dependency_edges, dependency_loop, conflict_loop, edge_loop, insert_edge, sort_edges,
  build, add_conflict, edge_before,
}

unfoldable pub In : Pr → List Pr → Type 0
In pr [] = ⊥
In pr (other ∷ prs) = (pr ≡ other) ⊎ In pr prs

In-insert_by_number : (pr x : Pr) (prs : List Pr) → In pr (x ∷ prs) → In pr (insert_by_number x prs)
unfolding In insert_by_number
In-insert_by_number pr x [] h = h
In-insert_by_number pr x (y ∷ prs) h = ground (arith, In-insert_by_number pr x prs)

pub In-sort_by_number : (pr : Pr) (prs : List Pr) → In pr prs → In pr (sort_by_number prs)
unfolding In sort_by_number
In-sort_by_number pr [] h = h
In-sort_by_number pr (x ∷ prs) h =
    ground (arith, In-sort_by_number pr prs, In-insert_by_number pr x (sort_by_number prs))

In-select :
    (p : Pr → Bool) (pr : Pr) (prs : List Pr) → In pr prs → p pr ≡ true → In pr (select p prs)
unfolding In select
In-select p pr [] h e = h
In-select p pr (x ∷ prs) (inl same) e = ground (arith, ap p same)
In-select p pr (x ∷ prs) (inr later) e = ground (arith, In-select p pr prs later e)

module _ (k : GraphEdge) where
  seen-append :
      (edges others : List GraphEdge)
      → seen_edge k (edges ++ others) ≡ (seen_edge k edges || seen_edge k others)
  unfolding seen_edge
  seen-append [] others = refl
  seen-append (e ∷ edges) others = ground (arith, seen-append edges others)

  seen-append_edge :
      (e : GraphEdge) (edges : List GraphEdge)
      → seen_edge k edges ≡ true
      → seen_edge k (append_edge e edges) ≡ true
  unfolding append_edge
  seen-append_edge e edges h = ground (arith, seen-append edges (e ∷ []))

  seen-dependency_edges :
      (left right : Pr) (edges : List GraphEdge)
      → seen_edge k edges ≡ true
      → seen_edge k (dependency_edges left right edges) ≡ true
  unfolding dependency_edges
  seen-dependency_edges left right edges h =
      let one = seen-append_edge (dependency left right) edges h in
      ground (
        arith,
        one,
        seen-append_edge (dependency right left) edges h,
        seen-append_edge (dependency right left) (append_edge (dependency left right) edges) one,
      )

  seen-dependency_loop :
      (left : Pr) (rights : List Pr) (edges : List GraphEdge)
      → seen_edge k edges ≡ true
      → seen_edge k (dependency_loop left rights edges) ≡ true
  unfolding dependency_loop
  seen-dependency_loop left [] edges h = h
  seen-dependency_loop left (right ∷ rights) edges h =
      seen-dependency_loop left rights (dependency_edges left right edges)
        (seen-dependency_edges left right edges h)

  seen-add_conflict :
      (left right : Pr) (files : List String) (edges : List GraphEdge)
      → seen_edge k edges ≡ true
      → seen_edge k (add_conflict left right files edges) ≡ true
  unfolding add_conflict
  seen-add_conflict left right [] edges h = h
  seen-add_conflict left right (f ∷ files) edges h = seen-append_edge _ edges h

  seen-conflict_loop :
      (left : Pr) (rights : List Pr) (edges : List GraphEdge)
      → seen_edge k edges ≡ true
      → seen_edge k (conflict_loop left rights edges) ≡ true
  unfolding conflict_loop
  seen-conflict_loop left [] edges h = h
  seen-conflict_loop left (right ∷ rights) edges h =
      elim (Bool-cases (leb right.number left.number)) [
        | inl done_before ↦ ground (arith, seen-conflict_loop left rights edges h)
        | inr later ↦
            let added = add_conflict left right (conflict_files left right) edges in
            ground (
              arith,
              seen-conflict_loop left rights added
                  (seen-add_conflict left right (conflict_files left right) edges h),
            )
      ]

  seen-edge_loop :
      (prs lefts : List Pr) (edges : List GraphEdge)
      → seen_edge k edges ≡ true
      → seen_edge k (edge_loop prs lefts edges) ≡ true
  unfolding edge_loop
  seen-edge_loop prs [] edges h = h
  seen-edge_loop prs (left ∷ lefts) edges h =
      let after = dependency_loop left (base_branch_index left.head_branch prs) edges in
      seen-edge_loop prs lefts (conflict_loop left (base_branch_index left.base_branch prs) after) (
        seen-conflict_loop left (base_branch_index left.base_branch prs) after
          (seen-dependency_loop left (base_branch_index left.head_branch prs) edges h))

  seen-insert_edge :
      (e : GraphEdge) (edges : List GraphEdge)
      → seen_edge k (insert_edge e edges) ≡ seen_edge k (e ∷ edges)
  unfolding insert_edge seen_edge
  seen-insert_edge e [] = refl
  seen-insert_edge e (f ∷ edges) = elim (Bool-cases (edge_before f e)) [
    | inl before ↦ ground (arith, seen-insert_edge e edges)
    | inr not_before ↦ ground arith
  ]

  seen-sort_edges : (edges : List GraphEdge) → seen_edge k (sort_edges edges) ≡ seen_edge k edges
  unfolding sort_edges seen_edge
  seen-sort_edges [] = refl
  seen-sort_edges (e ∷ edges) =
      ground (arith, seen-sort_edges edges, seen-insert_edge e (sort_edges edges))

seen-append_edge_self :
    (e : GraphEdge) (edges : List GraphEdge) → seen_edge e (append_edge e edges) ≡ true
unfolding append_edge seen_edge
seen-append_edge_self e edges = ground (
  arith,
  seen-append e edges (e ∷ []),
  ==_iff e.from_pr e.from_pr,
  ==_iff e.to_pr e.to_pr,
  str_eq_refl e.edge_type,
)

seen-dependency_edges_self :
    (left right : Pr) (edges : List GraphEdge)
    → is_stacked left right ≡ true
    → seen_edge (dependency left right) (dependency_edges left right edges) ≡ true
unfolding dependency_edges
seen-dependency_edges_self left right edges stacked =
    let d = dependency left right in
    let found = seen-append_edge_self d edges in
    ground (arith, found, seen-append_edge d (dependency right left) (append_edge d edges) found)

seen-dependency_loop_self :
    (left right : Pr) (rights : List Pr) (edges : List GraphEdge)
    → In right rights
    → is_stacked left right ≡ true
    → seen_edge (dependency left right) (dependency_loop left rights edges) ≡ true
unfolding dependency_loop In
seen-dependency_loop_self left right [] edges h stacked = absurd h
seen-dependency_loop_self left right (x ∷ rights) edges (inl same) stacked =
    let d = dependency left right in
    subst (λ y. seen_edge d (dependency_loop left (y ∷ rights) edges) ≡ true) same
      (seen-dependency_loop d left rights (dependency_edges left right edges)
        (seen-dependency_edges_self left right edges stacked))
seen-dependency_loop_self left right (x ∷ rights) edges (inr later) stacked =
    seen-dependency_loop_self left right rights (dependency_edges left x edges) later stacked

seen-edge_loop_self :
    (prs lefts : List Pr) (left right : Pr) (edges : List GraphEdge)
    → In left lefts
    → In right (base_branch_index left.head_branch prs)
    → is_stacked left right ≡ true
    → seen_edge (dependency left right) (edge_loop prs lefts edges) ≡ true
unfolding edge_loop In
seen-edge_loop_self prs [] left right edges h r stacked = absurd h
seen-edge_loop_self prs (x ∷ lefts) left right edges (inl same) r stacked =
    let d = dependency left right in
    let bases = base_branch_index left.base_branch prs in
    let after = dependency_loop left (base_branch_index left.head_branch prs) edges in
    subst (λ y. seen_edge d (edge_loop prs (y ∷ lefts) edges) ≡ true) same
      (seen-edge_loop d prs lefts (conflict_loop left bases after) (
        seen-conflict_loop d left bases after (
          seen-dependency_loop_self left right (base_branch_index left.head_branch prs) edges r
            stacked)))
seen-edge_loop_self prs (x ∷ lefts) left right edges (inr later) r stacked =
    let after = dependency_loop x (base_branch_index x.head_branch prs) edges in
    seen-edge_loop_self prs lefts left right
      (conflict_loop x (base_branch_index x.base_branch prs) after) later r stacked

In-base_branch_index :
    (left right : Pr) (prs : List Pr)
    → In right prs
    → str_eq left.head_branch "" ≡ false
    → is_stacked left right ≡ true
    → In right (base_branch_index left.head_branch prs)
unfolding base_branch_index
In-base_branch_index left right prs r named stacked =
    ground (arith, In-select (λ pr. str_eq pr.base_branch left.head_branch) right prs r)

-- Of two pull requests of the list, one that is based on the head branch of the other, and not on its base, has a
-- dependency edge from it.
pub seen_edge-build :
    (repo : String) (prs : List Pr) (left right : Pr)
    → In left prs
    → In right prs
    → str_eq left.head_branch "" ≡ false
    → is_stacked left right ≡ true
    → seen_edge (dependency left right) (build repo prs).edges ≡ true
unfolding build
seen_edge-build repo prs left right l r named stacked =
    let sorted = sort_by_number prs in
    let based =
      In-base_branch_index left right sorted (In-sort_by_number right prs r) named stacked in
    ground (
      arith,
      seen-sort_edges (dependency left right) (edge_loop sorted sorted []),
      seen-edge_loop_self sorted sorted left right [] (In-sort_by_number left prs l) based stacked,
    )
