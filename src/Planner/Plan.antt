-- ===== src/Planner/Plan.antt =====
-- `Plan` of internal/planner/planner.go, up to the selection and the rejections, with validator.go. The search of
-- the formula engine, the clusters and the scores are arguments.
use pratc.Base.{
  ℕ, ℤ, pos, Bool, true, false, not, String, List, [], ◌∷◌, Option, none, some, if◌then◌else◌, ltb,
  ltbℤ, is_positive, length, pos_part, ◌++◌,
}
use pratc.Base.Numbers.{elem, add, add_all}
use pratc.Formula.Modes.{Mode, with_replacement, combination}
use package.pratc.Planner.Pool.{Pr, PlanRejection, numbers, build_candidate_pool}

pub record PlanInputValidator : Type 0 where
  pub min_target : ℤ
  pub max_target : ℤ

pub data PlanError : Type 0 where
  target_not_positive target_below_minimum target_above_maximum search_failed : PlanError

-- `NewPlanInputValidator` without options.
abbrev pub new_plan_input_validator : PlanInputValidator
new_plan_input_validator = record { min_target = pos 1; max_target = pos 1000 }

-- `validatePlanInput`: the error, if any.
unfoldable pub validate_plan_input : ℤ → PlanInputValidator → Option PlanError
validate_plan_input target v =
    if not (is_positive target)
    then some target_not_positive
    else if ltbℤ target v.min_target
    then some target_below_minimum
    else if ltbℤ v.max_target target
    then some target_above_maximum
    else none

-- The pull requests of the first time that each number occurs; `seen` has the numbers before.
unfoldable pub deduplicate : List ℕ → List Pr → List Pr
unfolding elem add
deduplicate seen [] = []
deduplicate seen (pr ∷ prs) = elim (elem pr.number seen) [
  | true ↦ deduplicate seen prs
  | false ↦ pr ∷ deduplicate (add pr.number seen) prs
]

-- The rejections of the members of the pool that are not selected.
unfoldable pub unselected : List ℕ → List Pr → List PlanRejection
unfolding elem
unselected seen [] = []
unselected seen (pr ∷ pool) =
    let rest = unselected seen pool in
    if elem pr.number seen
    then rest
    else record { pr_number = pr.number; reason = "not selected by strategy" } ∷ rest

unfoldable pub insert_rejection : PlanRejection → List PlanRejection → List PlanRejection
insert_rejection r [] = r ∷ []
insert_rejection r (s ∷ rs) =
    let rest = insert_rejection r rs in if ltb s.pr_number r.pr_number then s ∷ rest else r ∷ s ∷ rs

-- `sort.Slice(rejections, ...)` by number.
unfoldable pub sort_rejections : List PlanRejection → List PlanRejection
unfolding insert_rejection
sort_rejections [] = []
sort_rejections (r ∷ rs) = insert_rejection r (sort_rejections rs)

-- The selection of a `types.PlanResponse`.
pub record Selection : Type 0 where
  pub target : ℤ
  pub candidate_pool_size : ℕ
  pub selected : List Pr
  pub rejections : List PlanRejection

pub data PlanResult : Type 0 where
  planned : Selection → PlanResult
  plan_error : PlanError → PlanResult

-- A target that is not positive becomes 20; the empty mode is `none` and becomes the combination mode.
abbrev pub default_target : ℤ → ℤ
default_target target = if is_positive target then target else pos 20

abbrev pub default_mode : Option Mode → Mode
default_mode none = combination
default_mode (some mode) = mode

unfoldable pub pick_count : Mode → ℕ → List Pr → ℕ
pick_count with_replacement target pool = target
pick_count _ target pool = if ltb (length pool) target then length pool else target

-- What the engine selects from the pool in a mode, or `none` for an error.
abbrev pub Search : Type 0
Search = Mode → List Pr → ℕ → Option (List Pr)

-- The steps of `Plan` after the filters.
unfoldable pub plan_pool : Search → ℤ → Mode → List Pr → List PlanRejection → PlanResult
unfolding pick_count deduplicate unselected sort_rejections add_all
plan_pool run_search target mode [] rejections =
    planned
      record { target = target; candidate_pool_size = 0; selected = []; rejections = rejections }
plan_pool run_search target mode (first ∷ others) rejections =
    let pool = first ∷ others in
    elim (run_search mode pool (pick_count mode (pos_part target) pool)) [
      | none ↦ plan_error search_failed
      | some raw_selected ↦ planned record {
        target = target;
        candidate_pool_size = length pool;
        selected = deduplicate [] raw_selected;
        rejections =
            sort_rejections (rejections ++ unselected (add_all (numbers raw_selected) []) pool);
      }
    ]

-- `Plan`.
unfoldable pub plan :
    PlanInputValidator
    → (Pr → ℕ)
    → Bool
    → (ℕ → Option String)
    → Search
    → List Pr
    → ℤ
    → Option Mode
    → PlanResult
unfolding validate_plan_input build_candidate_pool plan_pool
plan validator priority include_bots clusters run_search prs target mode =
    elim (validate_plan_input (default_target target) validator) [
      | some e ↦ plan_error e
      | none ↦
          let (pool, rejections) = build_candidate_pool priority include_bots prs clusters in
          plan_pool run_search (default_target target) (default_mode mode) pool rejections
    ]
