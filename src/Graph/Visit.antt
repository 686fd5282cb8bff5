-- ===== src/Graph/Visit.antt =====
-- The main loop of `TopologicalOrder` of internal/graph/graph.go: its invariant, what it gives, and that its
-- fuel is enough.
use pratc.Base.{
  ℕ, zero, suc, ◌≤◌, ◌<◌, true, false, not, ◌&&◌, ◌≡◌, refl, List, [], ◌∷◌, ==_iff, if◌then◌else◌,
  ◌==◌, arith, All, some,
}
use pratc.Base.Numbers.{elem, sort_ids, Distinct}
use package.pratc.Graph.Order.{Arc, Degrees, dependents, relax, visit}
use package.pratc.Graph.Degrees.{blocked, blocked-cons, count-sort_ids, elem-count, count-elem}
use package.pratc.Graph.Relax.{Relaxed, relax-Relaxed}

-- Both ends of every edge are known.
abbrev pub KnownArcs : List ℕ → List Arc → Type 0
KnownArcs known arcs = All (λ a. (elem a.0 known ≡ true) × (elem a.1 known ≡ true)) arcs

blocked-KnownArcs :
    (known : List ℕ) (arcs : List Arc) (placed : List ℕ) (pr : ℕ)
    → KnownArcs known arcs
    → 1 ≤ blocked arcs placed pr
    → elem pr known ≡ true
unfolding blocked
blocked-KnownArcs known [] placed pr k h = absurd (omega arith)
blocked-KnownArcs known ((from, to) ∷ arcs) placed pr k h =
    ground (arith, k.0, blocked-KnownArcs known arcs placed pr k.1, ==_iff to pr)

-- The known numbers that are not placed.
unfoldable pub left : List ℕ → List ℕ → ℕ
unfolding elem
left [] placed = 0
left (k ∷ ks) placed = let n = left ks placed in if elem k placed then n else suc n

left-weaken : (known placed : List ℕ) (c : ℕ) → left known (c ∷ placed) ≤ left known placed
unfolding left elem
left-weaken [] placed c = omega arith
left-weaken (k ∷ ks) placed c = ground (arith, left-weaken ks placed c)

left-cons :
    (known placed : List ℕ) (c : ℕ)
    → elem c known ≡ true
    → elem c placed ≡ false
    → left known (c ∷ placed) < left known placed
unfolding left elem
left-cons [] placed c h e = absurd (ground arith)
left-cons (k ∷ ks) placed c h e =
    ground (arith, left-cons ks placed c, left-weaken ks placed c, ==_iff c k, ==_iff k c)

-- Before each round.
pub record Invariant (known : List ℕ) (arcs : List Arc) (placed : List ℕ) (degrees : Degrees)
    (ready : List ℕ) : Type 0 where
  pub counted : (k : ℕ) → degrees k ≡ blocked arcs placed k
  pub is_ready : (k : ℕ) → elem k ready ≡ (elem k known && not (elem k placed) && (degrees k == 0))
  pub distinct : Distinct ready
  pub placed_free : (k : ℕ) → elem k placed ≡ true → degrees k ≡ 0

-- The numbers placed in the end.
unfoldable pub placed_after : List ℕ → List ℕ → List ℕ
placed_after placed [] = placed
placed_after placed (c ∷ rest) = placed_after (c ∷ placed) rest

-- In this order, each number comes after all those that it waits for, but for those placed before.
unfoldable pub Respects : List Arc → List ℕ → List ℕ → Type 0
unfolding blocked
Respects arcs placed [] = Unit
Respects arcs placed (c ∷ rest) = (blocked arcs placed c ≡ 0) × Respects arcs (c ∷ placed) rest

pub record Visited (known : List ℕ) (arcs : List Arc) (placed order : List ℕ) : Type 0 where
  pub respects : Respects arcs placed order
  pub fresh : (k : ℕ) → elem k order ≡ true → (elem k known ≡ true) × (elem k placed ≡ false)
  pub distinct : Distinct order
  pub others_wait :
      (k : ℕ)
      → elem k known ≡ true
      → elem k (placed_after placed order) ≡ false
      → 1 ≤ blocked arcs (placed_after placed order) k

module _ (known : List ℕ) (arcs : List Arc) (closed : KnownArcs known arcs) where
  visit_nothing :
      (placed : List ℕ) (degrees : Degrees)
      → Invariant known arcs placed degrees []
      → Visited known arcs placed []
  unfolding Respects placed_after elem Distinct
  visit_nothing placed degrees inv = record {
    respects = tt;
    fresh = λ k h. absurd (ground arith);
    distinct = tt;
    others_wait = λ k h e. ground (arith, inv.counted k, inv.is_ready k);
  }

  module _ (placed : List ℕ) (degrees : Degrees) (c : ℕ) (ready : List ℕ)
      (inv : Invariant known arcs placed degrees (c ∷ ready)) where
    abbrev children : List ℕ
    children = sort_ids (dependents c arcs)

    current : (elem c known ≡ true) × ((elem c placed ≡ false) × (degrees c ≡ 0))
    unfolding elem
    current = ground (arith, inv.is_ready c)

    relaxed : Relaxed children degrees ready
    unfolding Distinct elem
    relaxed =
        relax-Relaxed children degrees ready
          (λ k. ground (
            arith,
            inv.counted k,
            count-sort_ids k (dependents c arcs),
            blocked-cons arcs placed c k current.1.0,
          ))
          (λ k m. ground (arith, inv.is_ready k)) inv.distinct.1

    next-Invariant :
        Invariant known arcs
          (c ∷ placed)
          (relax children degrees ready).0
          (relax children degrees ready).1
    unfolding Distinct elem
    next-Invariant = record {
      counted = λ k. ground (
        arith,
        inv.counted k,
        relaxed.lowered k,
        count-sort_ids k (dependents c arcs),
        blocked-cons arcs placed c k current.1.0,
      );
      is_ready = λ k. ground (
        arith,
        relaxed.pushed k,
        relaxed.lowered k,
        inv.is_ready k,
        inv.placed_free k,
        inv.counted k,
        inv.distinct.0,
        current,
        elem-count k children,
        count-elem k children,
        blocked-KnownArcs known arcs placed k closed,
        ==_iff c k,
      );
      distinct = relaxed.distinct;
      placed_free =
          λ k m. ground (arith, inv.placed_free k, relaxed.lowered k, current.1.1, ==_iff c k);
    }

    visit_step :
        (order : List ℕ)
        → Visited known arcs (c ∷ placed) order
        → Visited known arcs placed (c ∷ order)
    unfolding Respects placed_after elem Distinct
    visit_step order v = record {
      respects = (ground (arith, inv.counted c, current.1.1), v.respects);
      fresh = λ k m. ground (arith, v.fresh k, current, ==_iff c k);
      distinct = (ground (arith, v.fresh c), v.distinct);
      others_wait = v.others_wait;
    }

  pub visit-Visited :
      (fuel : ℕ) (placed : List ℕ) (degrees : Degrees) (ready : List ℕ)
      → Invariant known arcs placed degrees ready
      → left known placed < fuel
      → (order : List ℕ) × (visit fuel arcs degrees ready ≡ some order)
        × Visited known arcs placed order
  unfolding visit
  visit-Visited zero placed degrees ready inv h = absurd (omega arith)
  visit-Visited (suc fuel) placed degrees [] inv h = ([], refl, visit_nothing placed degrees inv)
  visit-Visited (suc fuel) placed degrees (c ∷ ready) inv h =
      let now = current placed degrees c ready inv in
      let less = left-cons known placed c now.0 now.1.0 in
      let step = relax (sort_ids (dependents c arcs)) degrees ready in
      let (order, run, visited) =
        visit-Visited fuel (c ∷ placed) step.0 step.1 (next-Invariant placed degrees c ready inv)
          (omega (arith, less)) in
      (c ∷ order, rw (run, visit), visit_step placed degrees c ready inv order visited)
