-- ===== src/Planner/Members.antt =====
-- The numbers of the pull requests in the lists of internal/planner and internal/filter.
use pratc.Base.{
  ℕ, Bool, false, ◌&&◌, ◌||◌, not, ◌≡◌, refl, List, [], ◌∷◌, ◌++◌, Option, arith, ==_iff, ◌==◌,
  String,
}
use pratc.Base.Numbers.{elem, add, Distinct, elem-add}
use package.pratc.Planner.Pool.{
  Pr, PlanRejection, numbers, rejected, apply_filters, assign_cluster_ids, insert_pr,
  sort_pool_by_priority,
}
use package.pratc.Planner.Plan.{deduplicate, unselected, insert_rejection, sort_rejections}

-- A list of rejections has the numbers of both parts.
pub elem-rejected_append :
    (x : ℕ) (rs qs : List PlanRejection)
    → elem x (rejected (rs ++ qs)) ≡ (elem x (rejected rs) || elem x (rejected qs))
unfolding elem
elem-rejected_append x [] qs = refl
elem-rejected_append x (r ∷ rs) qs = ground (arith, elem-rejected_append x rs qs)

elem-insert_pr :
    (x : ℕ) (priority : Pr → ℕ) (pr : Pr) (prs : List Pr)
    → elem x (numbers (insert_pr priority pr prs)) ≡ ((pr.number == x) || elem x (numbers prs))
unfolding elem insert_pr
elem-insert_pr x priority pr [] = refl
elem-insert_pr x priority pr (other ∷ prs) = ground (arith, elem-insert_pr x priority pr prs)

-- The clusters and the order of the pool change none of its numbers.
pub elem-sort_pool :
    (x : ℕ) (priority : Pr → ℕ) (prs : List Pr)
    → elem x (numbers (sort_pool_by_priority priority prs)) ≡ elem x (numbers prs)
unfolding elem sort_pool_by_priority
elem-sort_pool x priority [] = refl
elem-sort_pool x priority (pr ∷ prs) = ground (
  arith,
  elem-sort_pool x priority prs,
  elem-insert_pr x priority pr (sort_pool_by_priority priority prs),
)

pub numbers-assign_cluster_ids :
    (clusters : ℕ → Option String) (prs : List Pr)
    → numbers (assign_cluster_ids clusters prs) ≡ numbers prs
unfolding assign_cluster_ids
numbers-assign_cluster_ids clusters [] = refl
numbers-assign_cluster_ids clusters (pr ∷ prs) =
    ground (arith, numbers-assign_cluster_ids clusters prs)

-- Each pull request passes the filters or is rejected.
pub elem-apply_filters :
    (x : ℕ) (include_bots : Bool) (prs : List Pr)
    → let (pool, rejections) = apply_filters prs include_bots in
      elem x (numbers prs) ≡ (elem x (numbers pool) || elem x (rejected rejections))
unfolding elem apply_filters
elem-apply_filters x include_bots [] = refl
elem-apply_filters x include_bots (pr ∷ prs) = ground (arith, elem-apply_filters x include_bots prs)

pub apply_filters-apart :
    (x : ℕ) (include_bots : Bool) (prs : List Pr)
    → Distinct (numbers prs)
    → let (pool, rejections) = apply_filters prs include_bots in
      (elem x (numbers pool) && elem x (rejected rejections)) ≡ false
unfolding elem apply_filters Distinct
apply_filters-apart x include_bots [] h = refl
apply_filters-apart x include_bots (pr ∷ prs) h = ground (
  arith,
  apply_filters-apart x include_bots prs h.1,
  elem-apply_filters x include_bots prs,
  ==_iff pr.number x,
)

pub elem-deduplicate :
    (x : ℕ) (seen : List ℕ) (prs : List Pr)
    → elem x (numbers (deduplicate seen prs)) ≡ (not (elem x seen) && elem x (numbers prs))
unfolding elem deduplicate
elem-deduplicate x seen [] = ground arith
elem-deduplicate x seen (pr ∷ prs) = ground (
  arith,
  elem-deduplicate x seen prs,
  elem-deduplicate x (add pr.number seen) prs,
  elem-add x pr.number seen,
  ==_iff pr.number x,
)

pub elem-unselected :
    (x : ℕ) (seen : List ℕ) (pool : List Pr)
    → elem x (rejected (unselected seen pool)) ≡ (elem x (numbers pool) && not (elem x seen))
unfolding elem unselected
elem-unselected x seen [] = refl
elem-unselected x seen (pr ∷ pool) = ground (arith, elem-unselected x seen pool, ==_iff pr.number x)

elem-insert_rejection :
    (x : ℕ) (r : PlanRejection) (rs : List PlanRejection)
    → elem x (rejected (insert_rejection r rs)) ≡ ((r.pr_number == x) || elem x (rejected rs))
unfolding elem insert_rejection
elem-insert_rejection x r [] = refl
elem-insert_rejection x r (s ∷ rs) = ground (arith, elem-insert_rejection x r rs)

pub elem-sort_rejections :
    (x : ℕ) (rs : List PlanRejection)
    → elem x (rejected (sort_rejections rs)) ≡ elem x (rejected rs)
unfolding elem sort_rejections
elem-sort_rejections x [] = refl
elem-sort_rejections x (r ∷ rs) =
    ground (arith, elem-sort_rejections x rs, elem-insert_rejection x r (sort_rejections rs))

pub deduplicate-Distinct :
    (seen : List ℕ) (prs : List Pr) → Distinct (numbers (deduplicate seen prs))
unfolding deduplicate Distinct
deduplicate-Distinct seen [] = tt
deduplicate-Distinct seen (pr ∷ prs) = ground (
  arith,
  deduplicate-Distinct seen prs,
  deduplicate-Distinct (add pr.number seen) prs,
  elem-deduplicate pr.number (add pr.number seen) prs,
  elem-add pr.number pr.number seen,
  ==_iff pr.number pr.number,
)
