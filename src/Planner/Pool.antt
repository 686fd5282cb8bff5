-- ===== src/Planner/Pool.antt =====
-- The candidate pool: internal/filter. A score, which is a float64, is a number here that orders the pull requests
-- as PlannerPriority does, and an argument.
use pratc.Base.{
  ℕ, zero, suc, Bool, ◌&&◌, not, String, List, [], ◌∷◌, map, Option, none, some, if◌then◌else◌, ltb,
  ◌==◌, str_eq,
}

-- The fields of `types.PR` that the pool, the plan and the graph read.
pub record Pr : Type 0 where
  pub number : ℕ
  pub title : String
  pub files_changed : List String
  pub review_status : String
  pub ci_status : String
  pub mergeable : String
  pub base_branch : String
  pub head_branch : String
  pub cluster_id : String
  pub is_draft : Bool
  pub is_bot : Bool

pub record PlanRejection : Type 0 where
  pub pr_number : ℕ
  pub reason : String

abbrev pub numbers : List Pr → List ℕ
numbers prs = map (λ pr. pr.number) prs

abbrev pub rejected : List PlanRejection → List ℕ
rejected rs = map (λ r. r.pr_number) rs

abbrev pub filter_draft : Pr → Bool
filter_draft pr = pr.is_draft

abbrev pub filter_merge_conflict : Pr → Bool
filter_merge_conflict pr = str_eq pr.mergeable "conflicting"

abbrev pub filter_ci_failure : Pr → Bool
filter_ci_failure pr = str_eq pr.ci_status "failure"

abbrev pub filter_bot : Pr → Bool
filter_bot pr = pr.is_bot

-- The filter that a pull request does not pass, if any: the body of the loop.
unfoldable pub filter_reason : Bool → Pr → Option String
filter_reason include_bots pr =
    if filter_draft pr
    then some "draft"
    else if filter_merge_conflict pr
    then some "merge conflict"
    else if filter_ci_failure pr
    then some "ci failure"
    else if not include_bots && filter_bot pr
    then some "bot pr"
    else none

-- `ApplyFilters`.
unfoldable pub apply_filters : List Pr → Bool → List Pr × List PlanRejection
unfolding filter_reason
apply_filters [] include_bots = ([], [])
apply_filters (pr ∷ prs) include_bots =
    let (pool, rejections) = apply_filters prs include_bots in
    elim (filter_reason include_bots pr) [
      | some reason ↦ (pool, record { pr_number = pr.number; reason = reason } ∷ rejections)
      | none ↦ (pr ∷ pool, rejections)
    ]

-- `CapPool`, for a cap of at least 0.
unfoldable pub cap_pool : List Pr → ℕ → List Pr × List PlanRejection
cap_pool [] max_size = ([], [])
cap_pool (pr ∷ prs) zero =
    let (pool, rejections) = cap_pool prs 0 in
    (pool, record { pr_number = pr.number; reason = "candidate pool cap" } ∷ rejections)
cap_pool (pr ∷ prs) (suc max_size) =
    let (pool, rejections) = cap_pool prs max_size in (pr ∷ pool, rejections)

-- `AssignClusterIDs`.
unfoldable pub assign_cluster_ids : (ℕ → Option String) → List Pr → List Pr
assign_cluster_ids cluster_by_pr [] = []
assign_cluster_ids cluster_by_pr (pr ∷ prs) =
    let rest = assign_cluster_ids cluster_by_pr prs in
    if str_eq pr.cluster_id ""
    then elim (cluster_by_pr pr.number) [
      | some id ↦ record pr { cluster_id = id } ∷ rest
      | none ↦ pr ∷ rest
    ]
    else pr ∷ rest

-- The order of `ScoreAndSortPool`: a greater score first, then a lesser number.
unfoldable pub goes_before : (Pr → ℕ) → Pr → Pr → Bool
goes_before priority left right =
    if priority left == priority right
    then ltb left.number right.number
    else ltb (priority right) (priority left)

unfoldable pub insert_pr : (Pr → ℕ) → Pr → List Pr → List Pr
unfolding goes_before
insert_pr priority pr [] = pr ∷ []
insert_pr priority pr (other ∷ prs) =
    let rest = insert_pr priority pr prs in
    if goes_before priority other pr then other ∷ rest else pr ∷ other ∷ prs

-- `ScoreAndSortPool`, and `SortPoolByPriority`, which calls it.
unfoldable pub sort_pool_by_priority : (Pr → ℕ) → List Pr → List Pr
unfolding insert_pr
sort_pool_by_priority priority [] = []
sort_pool_by_priority priority (pr ∷ prs) =
    insert_pr priority pr (sort_pool_by_priority priority prs)

-- `BuildCandidatePool`. An empty pool is returned as it is, which the two last steps do as well.
unfoldable pub build_candidate_pool :
    (Pr → ℕ) → Bool → List Pr → (ℕ → Option String) → List Pr × List PlanRejection
unfolding apply_filters assign_cluster_ids sort_pool_by_priority
build_candidate_pool priority include_bots prs cluster_by_pr =
    let (pool, rejections) = apply_filters prs include_bots in
    (sort_pool_by_priority priority (assign_cluster_ids cluster_by_pr pool), rejections)
