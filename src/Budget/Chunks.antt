-- ===== src/Budget/Chunks.antt =====
-- Chunk sizes and estimates: internal/telemetry/ratelimit/chunk.go and estimator.go, and
-- internal/sync/chunk_sizing.go. A size is never negative.
use pratc.Base.{
  ℕ, ◌+◌, ◌-◌, ◌*◌, ◌/◌, Bool, true, ℤ, pos, pos_part, ◌-ℤ◌, lebℤ, is_positive, if◌then◌else◌, List,
  [], ◌∷◌, Option, none, some, ltb,
}
use package.pratc.Budget.Manager.{BudgetManager, remaining, can_afford}

-- The options `WithRequestsPerPR`, applied in order.
unfoldable pub requests_per_pr : List ℤ → ℕ → ℕ
requests_per_pr [] current = current
requests_per_pr (n ∷ rest) current =
    requests_per_pr rest (if is_positive n then pos_part n else current)

-- `CalculateChunkSize` of the package ratelimit.
unfoldable pub calculate_chunk_size : ℤ → ℤ → ℤ → List ℤ → ℕ
unfolding requests_per_pr
calculate_chunk_size total_prs remaining_budget reserve_buffer options =
    let available = remaining_budget -ℤ reserve_buffer in
    let chunk_size = pos_part available / requests_per_pr options 3 in
    if lebℤ total_prs (pos 0)
    then 0
    else if lebℤ remaining_budget (pos 0)
    then 0
    else if lebℤ available (pos 0)
    then 0
    else if ltb (pos_part total_prs) chunk_size
    then pos_part total_prs
    else chunk_size

-- `defaultChunkSize` for a high budget, smaller ones for a lower one.
abbrev tier : ℕ → ℕ
tier left =
    if ltb 2000 left then 100 else if ltb 500 left then 50 else if ltb 200 left then 25 else 0

-- `CalculateChunkSize` of the package sync.
unfoldable pub sync_chunk_size : Option BudgetManager → ℕ
unfolding remaining can_afford
sync_chunk_size none = 100
sync_chunk_size (some b) =
    let left = remaining b in
    let size = tier (pos_part left) in
    let affordable = (pos_part left - 200) / 3 in
    if lebℤ left (pos 200)
    then 0
    else if can_afford (pos (size * 3)) b
    then size
    else if ltb affordable 10
    then 0
    else affordable

pub record EstimateOptions : Type 0 where
  pub fetch_files : Bool
  pub fetch_reviews : Bool
  pub fetch_ci : Bool
  pub per_page : ℤ

-- `FullEstimateOptions`.
abbrev pub full_estimate_options : EstimateOptions
full_estimate_options = record {
  fetch_files = true;
  fetch_reviews = true;
  fetch_ci = true;
  per_page = pos 100;
}

abbrev page_size : ℤ → ℕ
page_size n = if is_positive n then pos_part n else 100

abbrev if_fetched : Bool → ℕ → ℕ
if_fetched wanted n = if wanted then n else 0

-- `EstimateRequests`.
unfoldable pub estimate_requests : ℤ → EstimateOptions → ℕ
estimate_requests total_prs options =
    let total = pos_part total_prs in
    let page_count = (total + page_size options.per_page - 1) / page_size options.per_page in
    if is_positive total_prs
    then page_count
      + if_fetched options.fetch_files total
      + if_fetched options.fetch_reviews total
      + if_fetched options.fetch_ci total
    else 0

-- `EstimateSyncCost`.
unfoldable pub estimate_sync_cost : ℤ → ℕ
unfolding estimate_requests
estimate_sync_cost pr_count =
    if lebℤ pr_count (pos 0) then 0 else estimate_requests pr_count full_estimate_options
