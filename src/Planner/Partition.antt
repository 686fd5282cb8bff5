-- ===== src/Planner/Partition.antt =====
-- The candidate pool and the plan of internal/planner give each pull request exactly one place.
use pratc.Base.{
  ℕ, ℤ, Bool, true, false, ◌&&◌, ◌||◌, not, ◌≡◌, List, [], ◌∷◌, ◌++◌, Option, some, arith, String,
  inl, inr, Option-cases, pos_part, ◌∙◌, ap,
}
use pratc.Base.Numbers.{elem, add_all, Distinct, elem-add_all}
use pratc.Formula.Modes.{Mode}
use package.pratc.Planner.Pool.{
  Pr, PlanRejection, numbers, rejected, apply_filters, assign_cluster_ids, build_candidate_pool,
}
use package.pratc.Planner.Plan.{
  unselected, sort_rejections, Selection, PlanInputValidator, Search, planned, plan_pool, plan,
  validate_plan_input, pick_count, default_target, default_mode,
}
use package.pratc.Planner.Members.{
  elem-rejected_append, elem-sort_pool, numbers-assign_cluster_ids, elem-apply_filters,
  apply_filters-apart, elem-deduplicate, elem-unselected, elem-sort_rejections,
  deduplicate-Distinct,
}

-- Either selected or rejected, and not both.
unfoldable pub Placed : Bool → Bool → Bool → Type 0
Placed known is_selected is_rejected =
    (known ≡ (is_selected || is_rejected)) × ((is_selected && is_rejected) ≡ false)

abbrev pub DrawsFromPool : Search → Type 0
DrawsFromPool run_search =
    (mode : Mode) (pool picked : List Pr) (count x : ℕ)
    → run_search mode pool count ≡ some picked
    → elem x (numbers picked) ≡ true
    → elem x (numbers pool) ≡ true

elem-all_rejections :
    (x : ℕ) (raw pool : List Pr) (rejections : List PlanRejection)
    → elem x (rejected (sort_rejections (rejections ++ unselected (add_all (numbers raw) []) pool)))
      ≡ (elem x (rejected rejections) || (elem x (numbers pool) && not (elem x (numbers raw))))
unfolding elem
elem-all_rejections x raw pool rejections = ground (
  arith,
  elem-sort_rejections x (rejections ++ unselected (add_all (numbers raw) []) pool),
  elem-rejected_append x rejections (unselected (add_all (numbers raw) []) pool),
  elem-unselected x (add_all (numbers raw) []) pool,
  elem-add_all x (numbers raw) [],
)

plan_pool-Placed :
    (run_search : Search) (draws : DrawsFromPool run_search) (target : ℤ) (mode : Mode)
    (pool : List Pr) (rejections : List PlanRejection) (s : Selection) (x : ℕ)
    → (elem x (numbers pool) && elem x (rejected rejections)) ≡ false
    → plan_pool run_search target mode pool rejections ≡ planned s
    → Placed
        (elem x (numbers pool) || elem x (rejected rejections))
        (elem x (numbers s.selected))
        (elem x (rejected s.rejections))
unfolding plan_pool Placed elem
plan_pool-Placed run_search draws target mode [] rejections s x apart e = ground arith
plan_pool-Placed run_search draws target mode (first ∷ others) rejections s x apart e =
    let pool = first ∷ others in
    let count = pick_count mode (pos_part target) pool in
    elim (Option-cases (run_search mode pool count)) [
      | inl none_found ↦ absurd (ground arith)
      | inr (raw, found) ↦ ground (
        arith,
        draws mode pool raw count x,
        elem-all_rejections x raw pool rejections,
        elem-deduplicate x [] raw,
      )
    ]

plan_pool-Distinct :
    (run_search : Search) (target : ℤ) (mode : Mode) (pool : List Pr)
    (rejections : List PlanRejection) (s : Selection)
    → plan_pool run_search target mode pool rejections ≡ planned s
    → Distinct (numbers s.selected)
unfolding plan_pool Distinct
plan_pool-Distinct run_search target mode [] rejections s e = ground arith
plan_pool-Distinct run_search target mode (first ∷ others) rejections s e =
    let pool = first ∷ others in
    let count = pick_count mode (pos_part target) pool in
    elim (Option-cases (run_search mode pool count)) [
      | inl none_found ↦ absurd (ground arith)
      | inr (raw, found) ↦ ground (arith, deduplicate-Distinct [] raw)
    ]

build_candidate_pool-Placed :
    (priority : Pr → ℕ) (include_bots : Bool) (prs : List Pr) (clusters : ℕ → Option String) (x : ℕ)
    → Distinct (numbers prs)
    → let (pool, rejections) = build_candidate_pool priority include_bots prs clusters in
      Placed (elem x (numbers prs)) (elem x (numbers pool)) (elem x (rejected rejections))
unfolding build_candidate_pool Placed
build_candidate_pool-Placed priority include_bots prs clusters x h =
    let kept = (apply_filters prs include_bots).0 in
    ground (
      arith,
      elem-apply_filters x include_bots prs,
      apply_filters-apart x include_bots prs h,
      elem-sort_pool x priority (assign_cluster_ids clusters kept),
      ap (elem x) (numbers-assign_cluster_ids clusters kept),
    )

-- A plan that is answered is one for the pool and the rejections of the filters.
pub plan-plan_pool :
    (validator : PlanInputValidator) (priority : Pr → ℕ) (include_bots : Bool)
    (clusters : ℕ → Option String) (run_search : Search) (prs : List Pr) (target : ℤ)
    (mode : Option Mode) (s : Selection)
    → plan validator priority include_bots clusters run_search prs target mode ≡ planned s
    → let (pool, rejections) = build_candidate_pool priority include_bots prs clusters in
      plan_pool run_search (default_target target) (default_mode mode) pool rejections ≡ planned s
unfolding plan
plan-plan_pool validator priority include_bots clusters run_search prs target mode s e =
    elim (Option-cases (validate_plan_input (default_target target) validator)) [
      | inr (error, found) ↦ absurd (ground arith)
      | inl valid ↦ ground arith
    ]

-- In a plan for pull requests with different numbers, where the search draws from the pool, each of them is either
-- selected or rejected and not both, nothing else is, and none is selected twice.
pub plan-Placed :
    (validator : PlanInputValidator) (priority : Pr → ℕ) (include_bots : Bool)
    (clusters : ℕ → Option String) (run_search : Search) (prs : List Pr) (target : ℤ)
    (mode : Option Mode) (s : Selection)
    → Distinct (numbers prs)
    → DrawsFromPool run_search
    → plan validator priority include_bots clusters run_search prs target mode ≡ planned s
    → Distinct (numbers s.selected)
      × ((x : ℕ)
          → Placed
              (elem x (numbers prs))
              (elem x (numbers s.selected))
              (elem x (rejected s.rejections)))
unfolding Placed
plan-Placed validator priority include_bots clusters run_search prs target mode s h draws e =
    let (pool, rejections) = build_candidate_pool priority include_bots prs clusters in
    let t = default_target target in
    let m = default_mode mode in
    let e' =
      plan-plan_pool validator priority include_bots clusters run_search prs target mode s e in
    (
      plan_pool-Distinct run_search t m pool rejections s e',
      λ x.
          let built = build_candidate_pool-Placed priority include_bots prs clusters x h in
          let placed = plan_pool-Placed run_search draws t m pool rejections s x built.1 e' in
          (built.0 ∙ placed.0, placed.1),
    )
