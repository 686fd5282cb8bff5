-- ===== src/Graph/Cycle.antt =====
-- When `TopologicalOrder` of internal/graph/graph.go answers that there is a dependency cycle.
use pratc.Base.{
  ℕ, ◌≤◌, Bool, true, false, not, ◌&&◌, ◌||◌, ◌≡◌, ◌⊎◌, ◌↔◌, List, [], ◌∷◌, map, ==_iff, ◌==◌,
  arith, inl, inr, Bool-cases, length, length-map,
}
use pratc.Base.Numbers.{elem, Distinct, length-Distinct}
use package.pratc.Graph.Order.{
  Graph, Arc, numbers, ordered, dependency_cycle, topological_order, nodes_of,
}
use package.pratc.Graph.Degrees.{blocked}
use package.pratc.Graph.Visit.{KnownArcs, Respects, placed_after}
use package.pratc.Graph.Topological.{
  arcs, arcs_of-KnownArcs, number_order-Visited, topological_order-Respects,
}

-- Whether a pull request depends on another one.
unfoldable pub has_arc : ℕ → ℕ → List Arc → Bool
has_arc from to [] = false
has_arc from to ((a, b) ∷ rest) = ((a == from) && (b == to)) || has_arc from to rest

-- Some pull requests of the graph, each of which depends on one of them: following these edges backwards never
-- ends, so some of them form a cycle.
abbrev pub Stuck : Graph → (ℕ → Bool) → Type 0
Stuck g inside =
    (k : ℕ)
    → inside k ≡ true
    → (elem k (numbers g) ≡ true) × ((m : ℕ) × (inside m ≡ true) × (has_arc m k (arcs g) ≡ true))

blocked-has_arc :
    (known : List ℕ) (list : List Arc) (placed : List ℕ) (k : ℕ)
    → KnownArcs known list
    → 1 ≤ blocked list placed k
    → (m : ℕ) × (has_arc m k list ≡ true) × (elem m placed ≡ false) × (elem m known ≡ true)
unfolding blocked has_arc
blocked-has_arc known [] placed k c h = absurd (omega arith)
blocked-has_arc known ((a, b) ∷ rest) placed k c h =
    elim (Bool-cases ((b == k) && not (elem a placed))) [
      | inl hit ↦ (a, ground (arith, hit, ==_iff a a), ground (arith, hit), c.0.0)
      | inr miss ↦
          let (m, arc, fresh, here) =
            blocked-has_arc known rest placed k c.1 (ground (arith, miss, h)) in
          (m, ground (arith, arc), fresh, here)
    ]

has_arc-blocked :
    (list : List Arc) (placed : List ℕ) (m k : ℕ)
    → has_arc m k list ≡ true
    → blocked list placed k ≡ 0
    → elem m placed ≡ true
unfolding blocked has_arc
has_arc-blocked [] placed m k h z = absurd (ground arith)
has_arc-blocked ((a, b) ∷ rest) placed m k h z =
    ground (arith, has_arc-blocked rest placed m k, ==_iff a m)

-- An order never comes to a stuck pull request.
Respects-Stuck :
    (g : Graph) (inside : ℕ → Bool) (placed order : List ℕ)
    → Stuck g inside
    → Respects (arcs g) placed order
    → ((k : ℕ) → elem k placed ≡ true → inside k ≡ false)
    → (k : ℕ) → elem k order ≡ true
    → inside k ≡ false
unfolding Respects elem
Respects-Stuck g inside placed [] st r free k h = absurd (ground arith)
Respects-Stuck g inside placed (c ∷ order) st r free k h =
    let first : inside c ≡ false = elim (Bool-cases (inside c)) [
      | inr out ↦ out
      | inl in_it ↦
          let (known, (m, m_in, arc)) = st c in_it in
          absurd (ground (arith, free m, m_in, has_arc-blocked (arcs g) placed m c arc r.0))
    ] in
    elim (Bool-cases (c == k)) [
      | inl same ↦ ground (arith, first, same, ==_iff c k)
      | inr other ↦
          Respects-Stuck g inside (c ∷ placed) order st r.1
            (λ j m. ground (arith, free j, first, ==_iff c j, m)) k (ground (arith, other, h))
    ]

elem-placed_after :
    (k : ℕ) (placed order : List ℕ)
    → elem k (placed_after placed order) ≡ (elem k placed || elem k order)
unfolding placed_after elem
elem-placed_after k placed [] = ground arith
elem-placed_after k placed (c ∷ order) = ground (arith, elem-placed_after k (c ∷ placed) order)

missing_or_not :
    (xs ys : List ℕ)
    → ((k : ℕ) × (elem k xs ≡ true) × (elem k ys ≡ false))
      ⊎ ((k : ℕ) → elem k xs ≡ true → elem k ys ≡ true)
unfolding elem
missing_or_not [] ys = inr (λ k h. absurd (ground arith))
missing_or_not (x ∷ xs) ys = elim (Bool-cases (elem x ys)) [
  | inr out ↦ inl (x, ground (arith, ==_iff x x), out)
  | inl here ↦ elim (missing_or_not xs ys) [
    | inl (k, h, out) ↦ inl (k, ground (arith, h), out)
    | inr all ↦ inr (λ k h. ground (arith, all k, here, h, ==_iff x k))
  ]
]

cycle-Stuck :
    (g : Graph)
    → Distinct (numbers g)
    → topological_order g ≡ dependency_cycle
    → (inside : ℕ → Bool) × (k : ℕ) × (inside k ≡ true) × Stuck g inside
unfolding topological_order elem
cycle-Stuck g d h =
    let (prs, run, visited) = number_order-Visited g in
    let inside = λ (j : ℕ). elem j (numbers g) && not (elem j prs) in
    elim (missing_or_not (numbers g) prs) [
      | inl (k, here, out) ↦ (
        inside,
        k,
        ground (arith, here, out),
        λ j m.
            let waiting =
              visited.others_wait j (ground (arith, m))
                (ground (arith, m, elem-placed_after j [] prs)) in
            let (from, arc, fresh, known) =
              blocked-has_arc (numbers g) (arcs g) (placed_after [] prs) j
                (arcs_of-KnownArcs (numbers g) g.edges) waiting in
            (
              ground (arith, m),
              (from, ground (arith, known, fresh, elem-placed_after from [] prs), arc),
            ),
      )
      | inr all ↦
          let more = length-Distinct (numbers g) prs d all in
          let less =
            length-Distinct prs (numbers g) visited.distinct (λ k m. (visited.fresh k m).0) in
          absurd (
            ground (
              arith,
              run,
              h,
              more,
              less,
              length-map g.nodes (λ n. n.pr_number),
              ==_iff (length prs) (length g.nodes),
            ))
    ]

Stuck-cycle :
    (g : Graph) (inside : ℕ → Bool) (k : ℕ)
    → inside k ≡ true
    → Stuck g inside
    → topological_order g ≡ dependency_cycle
unfolding topological_order elem
Stuck-cycle g inside k m st =
    let (prs, run, visited) = number_order-Visited g in
    elim (Bool-cases (length prs == length g.nodes)) [
      | inr differ ↦ ground (arith, run, differ)
      | inl same ↦
          let order = nodes_of prs g.nodes in
          let went : topological_order g ≡ ordered order = ground (arith, run, same) in
          let (respects, _, has) = topological_order-Respects g order went in
          let placed = map (λ n. n.pr_number) order in
          let out =
            Respects-Stuck g inside [] placed st respects (λ j e. absurd (ground arith)) k
              (ground (arith, has k, (st k m).0)) in
          absurd (ground (arith, out, m))
    ]

-- In a graph whose pull requests have different numbers, TopologicalOrder answers that there is a cycle exactly
-- if some of the pull requests each depend on one of them.
pub topological_order-Stuck :
    (g : Graph)
    → Distinct (numbers g)
    → (topological_order g ≡ dependency_cycle)
      ↔ ((inside : ℕ → Bool) × (k : ℕ) × (inside k ≡ true) × Stuck g inside)
topological_order-Stuck g d = (cycle-Stuck g d, λ (inside, k, m, st). Stuck-cycle g inside k m st)
