-- ===== src/Planner/Answers.antt =====
-- What `Plan` of internal/planner/planner.go answers, and which pull requests it never selects.
use pratc.Base.{
  ◌⊎◌, suc, none, ℕ, ℤ, pos, ◌≤◌, Bool, true, false, ◌&&◌, ◌||◌, not, ◌≡◌, refl, List, [], ◌∷◌,
  ◌++◌, Option, some, arith, ==_iff, ◌==◌, length, String, Option-cases, inl, inr, pos_part, str_eq,
  str_eq_refl,
}
use pratc.Base.Numbers.{elem, add_all, Distinct}
use pratc.Formula.Modes.{Mode, with_replacement}
use package.pratc.Planner.Pool.{
  Pr, PlanRejection, numbers, rejected, filter_reason, apply_filters, build_candidate_pool,
}
use package.pratc.Planner.Plan.{
  PlanResult, plan_error, search_failed, unselected, sort_rejections, insert_rejection, Selection,
  PlanInputValidator, Search, planned, plan_pool, plan, pick_count, default_target, default_mode,
}
use package.pratc.Planner.Partition.{Placed, DrawsFromPool, plan-plan_pool, plan-Placed}

-- The target that a plan is made for: 20 where none is given.
abbrev pub goal : ℤ → ℕ
goal (pos (suc n)) = suc n
goal _ = 20

-- What the search is asked for: at least one pull request, at most the target, and no more than there are unless one may
-- be selected twice.
abbrev pub IsAsked : Mode → ℕ → List Pr → ℕ → Type 0
IsAsked mode n pool count =
    (1 ≤ count) × (count ≤ n) × ((mode ≡ with_replacement) ⊎ (count ≤ length pool))

-- The answer for an empty pool, the error of the search, or what the search has picked, without repetitions.
abbrev pub Answer : Search → Mode → ℕ → List Pr → PlanResult → Type 0
Answer run_search mode n pool result =
    ((pool ≡ []) × (s : Selection) × (result ≡ planned s) × (s.selected ≡ []))
    ⊎ ((count : ℕ) × IsAsked mode n pool count
        × (((run_search mode pool count ≡ none) × (result ≡ plan_error search_failed))
            ⊎ ((picked : List Pr) × (s : Selection) × (run_search mode pool count ≡ some picked)
                × (result ≡ planned s)
                × (s.candidate_pool_size ≡ length pool)
                × (length s.selected ≤ length picked)
                × ((x : ℕ) → elem x (numbers s.selected) ≡ elem x (numbers picked)))))

-- A rejection of the pull request with that reason.
unfoldable pub has_rejection : ℕ → String → List PlanRejection → Bool
has_rejection x reason [] = false
has_rejection x reason (r ∷ rs) =
    ((r.pr_number == x) && str_eq r.reason reason) || has_rejection x reason rs

module _ (x : ℕ) (reason : String) where
  has_rejection-append :
      (rs qs : List PlanRejection)
      → has_rejection x reason (rs ++ qs) ≡ (has_rejection x reason rs || has_rejection x reason qs)
  unfolding has_rejection
  has_rejection-append [] qs = refl
  has_rejection-append (r ∷ rs) qs = ground (arith, has_rejection-append rs qs)

  has_rejection-insert_rejection :
      (r : PlanRejection) (rs : List PlanRejection)
      → has_rejection x reason (insert_rejection r rs) ≡ has_rejection x reason (r ∷ rs)
  unfolding has_rejection insert_rejection
  has_rejection-insert_rejection r [] = refl
  has_rejection-insert_rejection r (s ∷ rs) = ground (arith, has_rejection-insert_rejection r rs)

  has_rejection-sort_rejections :
      (rs : List PlanRejection)
      → has_rejection x reason (sort_rejections rs) ≡ has_rejection x reason rs
  unfolding has_rejection sort_rejections
  has_rejection-sort_rejections [] = refl
  has_rejection-sort_rejections (r ∷ rs) = ground (
    arith,
    has_rejection-sort_rejections rs,
    has_rejection-insert_rejection r (sort_rejections rs),
  )

  has_rejection-elem :
      (rs : List PlanRejection) → has_rejection x reason rs ≡ true → elem x (rejected rs) ≡ true
  unfolding has_rejection elem
  has_rejection-elem [] h = ground arith
  has_rejection-elem (r ∷ rs) h = ground (arith, has_rejection-elem rs)

  -- The filters' rejections are kept.
  plan_pool-has_rejection :
      (run_search : Search) (target : ℤ) (mode : Mode) (pool : List Pr)
      (rejections : List PlanRejection) (s : Selection)
      → has_rejection x reason rejections ≡ true
      → plan_pool run_search target mode pool rejections ≡ planned s
      → has_rejection x reason s.rejections ≡ true
  unfolding plan_pool
  plan_pool-has_rejection run_search target mode [] rejections s h e = ground arith
  plan_pool-has_rejection run_search target mode (first ∷ others) rejections s h e =
      let pool = first ∷ others in
      let count = pick_count mode (pos_part target) pool in
      elim (Option-cases (run_search mode pool count)) [
        | inl none_found ↦ absurd (ground arith)
        | inr (raw, found) ↦
            let added = unselected (add_all (numbers raw) []) pool in
            ground (
              arith,
              has_rejection-sort_rejections (rejections ++ added),
              has_rejection-append rejections added,
            )
      ]

apply_filters-has_rejection :
    (include_bots : Bool) (before after : List Pr) (pr : Pr) (reason : String)
    → filter_reason include_bots pr ≡ some reason
    → has_rejection pr.number reason ((apply_filters (before ++ pr ∷ after) include_bots).1) ≡ true
unfolding apply_filters has_rejection
apply_filters-has_rejection include_bots [] after pr reason h =
    ground (arith, ==_iff pr.number pr.number, str_eq_refl reason)
apply_filters-has_rejection include_bots (first ∷ before) after pr reason h =
    ground (arith, apply_filters-has_rejection include_bots before after pr reason h)

-- Not to be merged: a draft, in conflict, with failing checks, or a bot's where bots are left out.
unfoldable pub is_excluded : Bool → Pr → Bool
is_excluded include_bots pr =
    pr.is_draft
    || str_eq pr.mergeable "conflicting"
    || str_eq pr.ci_status "failure"
    || (pr.is_bot && not include_bots)

is_excluded-filter_reason :
    (include_bots : Bool) (pr : Pr)
    → is_excluded include_bots pr ≡ true
    → (reason : String) × (filter_reason include_bots pr ≡ some reason)
unfolding is_excluded filter_reason
is_excluded-filter_reason include_bots pr h = elim (Option-cases (filter_reason include_bots pr)) [
  | inl passed ↦ absurd (ground arith)
  | inr found ↦ found
]

-- A draft, a pull request in conflict or with failing checks, or a bot's where bots are left out, is never selected,
-- and the plan has its rejection with the reason of the filter that rejects it, where the numbers are different and
-- the search draws from the pool.
pub plan-filtered :
    (validator : PlanInputValidator) (priority : Pr → ℕ) (include_bots : Bool)
    (clusters : ℕ → Option String) (run_search : Search) (before after : List Pr) (pr : Pr)
    (target : ℤ) (mode : Option Mode) (s : Selection)
    → Distinct (numbers (before ++ pr ∷ after))
    → DrawsFromPool run_search
    → is_excluded include_bots pr ≡ true
    → plan validator priority include_bots clusters run_search (before ++ pr ∷ after) target mode
      ≡ planned s
    → (elem pr.number (numbers s.selected) ≡ false)
      × (reason : String) × (filter_reason include_bots pr ≡ some reason)
      × (has_rejection pr.number reason s.rejections ≡ true)
unfolding Placed build_candidate_pool
plan-filtered validator priority include_bots clusters run_search before after pr target mode s h
      draws x e =
    let prs = before ++ pr ∷ after in
    let (pool, rejections) = build_candidate_pool priority include_bots prs clusters in
    let (reason, r) = is_excluded-filter_reason include_bots pr x in
    let kept =
      plan_pool-has_rejection pr.number reason run_search (default_target target)
        (default_mode mode) pool rejections s
        (apply_filters-has_rejection include_bots before after pr reason r)
        (plan-plan_pool validator priority include_bots clusters run_search prs target mode s e) in
    let placed =
      plan-Placed validator priority include_bots clusters run_search prs target mode s h draws e in
    (
      ground (arith, placed.1 pr.number, has_rejection-elem pr.number reason s.rejections),
      reason,
      r,
      kept,
    )
