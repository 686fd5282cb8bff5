-- ===== src/Scenarios/Plans.antt =====
-- Plans at concrete pull requests.
use pratc.Base.{
  ℕ, zero, suc, pos, ◌≡◌, refl, true, false, List, [], ◌∷◌, ◌++◌, take, Option, none, some, arith,
  String,
}
use pratc.Base.Numbers.{elem, Distinct, add, add_all}
use pratc.Planner.Pool.{
  Pr, numbers, rejected, cap_pool, build_candidate_pool, apply_filters, filter_reason,
  assign_cluster_ids, sort_pool_by_priority, insert_pr, goes_before,
}
use pratc.Planner.Plan.{
  Search, Selection, plan, planned, plan_error, target_above_maximum, new_plan_input_validator,
  validate_plan_input, plan_pool, pick_count, deduplicate, unselected, sort_rejections,
  insert_rejection,
}
use pratc.Planner.Partition.{Placed, DrawsFromPool, plan-Placed}
use pratc.Planner.Answers.{plan-filtered, has_rejection, is_excluded}

abbrev ready : ℕ → Pr
ready n = record {
  number = n;
  title = "";
  files_changed = [];
  review_status = "";
  ci_status = "success";
  mergeable = "mergeable";
  base_branch = "main";
  head_branch = "";
  cluster_id = "";
  is_draft = false;
  is_bot = false;
}

abbrev conflicting : ℕ → Pr
conflicting n = record (ready n) { mergeable = "conflicting" }

abbrev before : List Pr
before = record (ready 9) { is_draft = true } ∷ ready 5 ∷ []

abbrev after : List Pr
after = ready 3 ∷ ready 4 ∷ []

abbrev prs : List Pr
prs = before ++ conflicting 7 ∷ after

abbrev take_best : Search
take_best mode pool count = some (take count pool)

abbrev priority : Pr → ℕ
priority pr = pr.number

abbrev no_clusters : ℕ → Option String
no_clusters n = none

abbrev two_of_three : Selection
two_of_three = record {
  target = pos 2;
  candidate_pool_size = 3;
  selected = ready 5 ∷ ready 4 ∷ [];
  rejections =
      record { pr_number = 3; reason = "not selected by strategy" }
      ∷ record { pr_number = 7; reason = "merge conflict" }
      ∷ record { pr_number = 9; reason = "draft" }
      ∷ [];
}

plans :
    plan new_plan_input_validator priority false no_clusters take_best prs (pos 2) none
    ≡ planned two_of_three
unfolding plan validate_plan_input build_candidate_pool apply_filters filter_reason
    assign_cluster_ids sort_pool_by_priority insert_pr goes_before plan_pool pick_count deduplicate
    unselected sort_rejections insert_rejection elem add add_all
plans = refl

too_many :
    plan new_plan_input_validator priority false no_clusters take_best prs (pos 1001) none
    ≡ plan_error target_above_maximum
unfolding plan validate_plan_input
too_many = refl

capped : numbers ((cap_pool prs 2).0) ≡ 9 ∷ 5 ∷ []
unfolding cap_pool
capped = refl

elem-take :
    (n x : ℕ) (pool : List Pr)
    → elem x (numbers (take n pool)) ≡ true
    → elem x (numbers pool) ≡ true
unfolding elem
elem-take zero x pool h = ground arith
elem-take (suc n) x [] h = h
elem-take (suc n) x (pr ∷ pool) h = ground (arith, elem-take n x pool)

take_best-DrawsFromPool : DrawsFromPool take_best
take_best-DrawsFromPool mode pool picked count x e h = ground (arith, elem-take count x pool)

prs-Distinct : Distinct (numbers prs)
unfolding Distinct elem
prs-Distinct = ground arith

plan-Placed_example :
    Distinct (numbers two_of_three.selected)
    × ((x : ℕ)
        → Placed
            (elem x (numbers prs))
            (elem x (numbers two_of_three.selected))
            (elem x (rejected two_of_three.rejections)))
plan-Placed_example =
    plan-Placed new_plan_input_validator priority false no_clusters take_best prs (pos 2) none
      two_of_three prs-Distinct take_best-DrawsFromPool plans

filtered : is_excluded false (conflicting 7) ≡ true
unfolding is_excluded
filtered = refl

plan-filtered_example :
    (elem 7 (numbers two_of_three.selected) ≡ false)
    × (reason : String) × (filter_reason false (conflicting 7) ≡ some reason)
    × (has_rejection 7 reason two_of_three.rejections ≡ true)
plan-filtered_example =
    plan-filtered new_plan_input_validator priority false no_clusters take_best before after
      (conflicting 7) (pos 2) none two_of_three prs-Distinct take_best-DrawsFromPool filtered plans
