-- ===== src/Graph/Degrees.antt =====
-- Counting the edges of internal/graph/graph.go that wait for a pull request.
use pratc.Base.{
  ℕ, suc, ◌+◌, ◌≤◌, true, false, not, ◌&&◌, ◌≡◌, refl, List, [], ◌∷◌, ==_iff, if◌then◌else◌, ◌==◌,
  arith,
}
use pratc.Base.Numbers.{elem, insert_id, sort_ids}
use package.pratc.Graph.Order.{Arc, dependents, in_degree}

-- How often a number is in a list.
unfoldable pub count : ℕ → List ℕ → ℕ
count x [] = 0
count x (y ∷ ys) = let n = count x ys in if y == x then suc n else n

-- The edges into `pr` from pull requests that are not among `placed`.
unfoldable pub blocked : List Arc → List ℕ → ℕ → ℕ
unfolding elem
blocked [] placed pr = 0
blocked ((from, to) ∷ rest) placed pr =
    let n = blocked rest placed pr in if (to == pr) && not (elem from placed) then suc n else n

pub in_degree-blocked : (arcs : List Arc) (pr : ℕ) → in_degree arcs pr ≡ blocked arcs [] pr
unfolding in_degree blocked elem
in_degree-blocked [] pr = refl
in_degree-blocked ((from, to) ∷ rest) pr = ground (arith, in_degree-blocked rest pr)

-- Placing a pull request frees the edges from it.
pub blocked-cons :
    (arcs : List Arc) (placed : List ℕ) (c pr : ℕ)
    → elem c placed ≡ false
    → blocked arcs placed pr ≡ blocked arcs (c ∷ placed) pr + count pr (dependents c arcs)
unfolding blocked count dependents elem
blocked-cons [] placed c pr h = refl
blocked-cons ((from, to) ∷ rest) placed c pr h =
    ground (arith, blocked-cons rest placed c pr h, ==_iff from c, ==_iff c from)

count-insert_id : (x y : ℕ) (ys : List ℕ) → count x (insert_id y ys) ≡ count x (y ∷ ys)
unfolding count insert_id
count-insert_id x y [] = refl
count-insert_id x y (z ∷ ys) = ground (arith, count-insert_id x y ys)

pub count-sort_ids : (x : ℕ) (ys : List ℕ) → count x (sort_ids ys) ≡ count x ys
unfolding count sort_ids
count-sort_ids x [] = refl
count-sort_ids x (y ∷ ys) = ground (arith, count-sort_ids x ys, count-insert_id x y (sort_ids ys))

pub elem-count : (x : ℕ) (ys : List ℕ) → 1 ≤ count x ys → elem x ys ≡ true
unfolding count elem
elem-count x [] h = absurd (omega arith)
elem-count x (y ∷ ys) h = ground (arith, elem-count x ys)

pub count-elem : (x : ℕ) (ys : List ℕ) → elem x ys ≡ true → 1 ≤ count x ys
unfolding count elem
count-elem x [] h = absurd (ground arith)
count-elem x (y ∷ ys) h = ground (arith, count-elem x ys)
