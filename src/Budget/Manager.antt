-- ===== src/Budget/Manager.antt =====
-- `BudgetManager` of internal/telemetry/ratelimit/budget.go. The clock is an argument, in seconds; the metrics
-- count the pauses.
use pratc.Base.{
  ℕ, suc, Bool, true, false, ◌&&◌, ◌||◌, ℤ, pos, ◌+ℤ◌, ◌-ℤ◌, lebℤ, ltbℤ, maxℤ, List, [], ◌∷◌,
  if◌then◌else◌, Prog, ◌>>=◌, ◌>>◌, ensure, modify, gets,
}

pub record BudgetManager : Type 0 where
  pub limit : ℤ
  pub remaining_val : ℤ
  pub reset_time : ℤ
  pub last_updated : ℤ
  pub reserve_buffer : ℤ
  pub reset_buffer : ℤ
  pub reserved_count : ℤ
  -- `metrics.budgetPauses`, for a manager with metrics.
  pub budget_pauses : ℕ

-- The `Option`s.
pub data BudgetOption : Type 0 where
  with_rate_limit with_reserve_buffer with_reset_buffer : ℤ → BudgetOption

unfoldable pub apply_option : BudgetOption → BudgetManager → BudgetManager
apply_option (with_rate_limit limit) b = record b {
  limit = limit;
  remaining_val = if ltbℤ limit b.remaining_val then limit else b.remaining_val;
}
apply_option (with_reserve_buffer buffer) b = record b { reserve_buffer = buffer }
apply_option (with_reset_buffer seconds) b = record b { reset_buffer = seconds }

unfoldable pub apply_options : List BudgetOption → BudgetManager → BudgetManager
unfolding apply_option
apply_options [] b = b
apply_options (o ∷ os) b = apply_options os (apply_option o b)

-- `NewBudgetManager`.
unfoldable pub new_budget_manager : ℤ → List BudgetOption → BudgetManager
unfolding apply_options
new_budget_manager now options = apply_options options (record {
  limit = pos 5000;
  remaining_val = pos 5000;
  reset_time = now +ℤ pos 3600;
  last_updated = now;
  reserve_buffer = pos 200;
  reset_buffer = pos 15;
  reserved_count = pos 0;
  budget_pauses = 0;
})

-- `Remaining`.
unfoldable pub remaining : BudgetManager → ℤ
remaining b = b.remaining_val -ℤ b.reserved_count

-- `WouldPause` and `ShouldPause`, which counts the pause.
unfoldable pub would_pause : BudgetManager → Bool
unfolding remaining
would_pause b = lebℤ (remaining b) b.reserve_buffer

unfoldable pub should_pause : BudgetManager → Bool × BudgetManager
unfolding would_pause
should_pause b =
    if would_pause b then (true, record b { budget_pauses = suc b.budget_pauses }) else (false, b)

pub data BudgetError : Type 0 where
  negative_count insufficient_budget below_reserve : BudgetError

-- `Reserve`.
unfoldable pub reserve : ℤ → Prog BudgetManager BudgetError (Unit {0})
unfolding remaining
reserve count = do
  ensure (lebℤ (pos 0) count) negative_count
  available ← gets remaining
  ensure (lebℤ count available) insufficient_budget
  buffer ← gets (λ b. b.reserve_buffer)
  ensure (lebℤ buffer (available -ℤ count) || (lebℤ count available && lebℤ available count))
      below_reserve
  modify (λ b. record b { reserved_count = b.reserved_count +ℤ count })

-- `Release`.
unfoldable pub release : ℤ → BudgetManager → BudgetManager
release count b =
    let given = if ltbℤ b.reserved_count count then b.reserved_count else count in
    if ltbℤ count (pos 0) then b else record b { reserved_count = b.reserved_count -ℤ given }

-- `CanAfford`.
unfoldable pub can_afford : ℤ → BudgetManager → Bool
unfolding remaining
can_afford requests b =
    (lebℤ requests (pos 0) && lebℤ (pos 0) requests && lebℤ b.reserve_buffer (remaining b))
    || lebℤ b.reserve_buffer (remaining b -ℤ requests)

-- `RecordResponse`.
unfoldable pub record_response : ℤ → ℤ → ℤ → BudgetManager → BudgetManager
record_response now left reset_epoch b = record b {
  remaining_val = maxℤ left (pos 0);
  reset_time = reset_epoch;
  last_updated = now;
}

-- `time.Until(b.ResetTime)`, at least 0, and the reset buffer.
abbrev wait_for_reset : ℤ → BudgetManager → ℤ
wait_for_reset now b = maxℤ (b.reset_time -ℤ now) (pos 0) +ℤ b.reset_buffer

-- `WaitDuration`, in seconds.
unfoldable pub wait_duration : ℤ → BudgetManager → ℤ
unfolding remaining
wait_duration now b = if ltbℤ b.reserve_buffer (remaining b) then pos 0 else wait_for_reset now b

-- `EstimatedCompletionTime`, in seconds.
unfoldable pub estimated_completion_time : ℤ → ℤ → BudgetManager → ℤ
unfolding remaining
estimated_completion_time now work b =
    if lebℤ work (pos 0)
    then pos 0
    else if lebℤ work (remaining b)
    then work
    else wait_for_reset now b +ℤ work
