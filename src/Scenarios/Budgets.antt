-- ===== src/Scenarios/Budgets.antt =====
-- The rate limit budget at concrete numbers.
use pratc.Base.{
  ◌*◌, ◌≤◌, ◌<◌, suc, ◌≡◌, refl, ◌⊎◌, [], pos, pos_part, ◌-ℤ◌, ◌+ℤ◌, ◌≤ℤ◌, some, true, done, arith,
}
use pratc.Budget.Manager.{
  BudgetManager, apply_options, new_budget_manager, remaining, can_afford, reserve,
}
use pratc.Budget.Chunks.{requests_per_pr, calculate_chunk_size, sync_chunk_size}
use pratc.Budget.Bounds.{reserve_granted, calculate_chunk_size-bounds, sync_chunk_size-afforded}

abbrev fresh : BudgetManager
fresh = new_budget_manager (pos 0) []

abbrev drained : BudgetManager
drained = record fresh { reserved_count = fresh.reserved_count +ℤ pos 5000 }

-- The whole budget can be reserved, reserve buffer and all.
drains : reserve (pos 5000) fresh ≡ done tt drained
unfolding reserve remaining new_budget_manager apply_options ◌-ℤ◌ ◌+ℤ◌
drains = refl

reserve_granted_example :
    (pos 0 ≤ℤ pos 5000)
    × ((pos 0 ≤ℤ remaining drained)
        × ((drained.reserve_buffer ≤ℤ remaining drained) ⊎ (remaining drained ≤ℤ pos 0)))
reserve_granted_example = reserve_granted (pos 5000) fresh drained drains

chunk_of_fifty : calculate_chunk_size (pos 1000) (pos 350) (pos 200) [] ≡ 50
unfolding calculate_chunk_size requests_per_pr ◌-ℤ◌
chunk_of_fifty = refl

calculate_chunk_size-bounds_example :
    let size = calculate_chunk_size (pos 1000) (pos 350) (pos 200) [] in
    let cost = requests_per_pr [] 3 in
    let available = pos_part (pos 350 -ℤ pos 200) in
    (size ≤ pos_part (pos 1000))
    × ((size * cost ≤ available)
        × ((pos 350 ≤ℤ pos 0) ⊎ ((size ≡ pos_part (pos 1000)) ⊎ (available < suc size * cost))))
calculate_chunk_size-bounds_example = calculate_chunk_size-bounds (pos 1000) (pos 350) (pos 200) []

default_buffer : fresh.reserve_buffer ≤ℤ pos 200
unfolding new_budget_manager apply_options
default_buffer = omega arith

sync_chunk_size-afforded_example :
    (sync_chunk_size (some fresh) ≡ 0)
    ⊎ (can_afford (pos (sync_chunk_size (some fresh) * 3)) fresh ≡ true)
sync_chunk_size-afforded_example = sync_chunk_size-afforded fresh default_buffer
