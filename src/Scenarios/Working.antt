-- ===== src/Scenarios/Working.antt =====
-- One run of the worker: it claims an item with one intent to merge, carries the intent out and moves the
-- item on.
use pratc.Base.{
  String, true, false, ◌≡◌, refl, [], ◌∷◌, pos, final, select, for_each, trim_space, trim_left,
  trim_right, is_space, same_lower, to_lower, codes_eq, str_elem,
}
use pratc.Model.Kinds.{lane_eq, state_eq}
use pratc.Model.Records.{ActionIntent}
use pratc.Queue.Store.{
  Queue, get_unlocked, find_item, save_unlocked, append_transition, update_item,
}
use pratc.Queue.Intake.{fresh_row, intent_row, order_intents, get_intents, insert_intent}
use pratc.Executor.Ledger.{
  MemoryLedger, memory_ledger, memory_ledger-IsLedger, memory_record, memory_is_executed,
  has_executed, history, set_history, put_record,
}
use pratc.Executor.Breaker.{
  steps, new_breaker, acquire, release, find_slot, remove_slot, drop_in_flight, in_flight,
  set_in_flight, delete_repo,
}
use pratc.Executor.Limits.{steps-IsBalanced}
use pratc.Worker.Process.{
  WorkerConfig, WorkerState, process_once, process_offer, load_intents, process_item,
  process_intents, process_intent, after_execution, finish_item, fail_item,
}
use pratc.Worker.Load.{SameLoad, process_once-SameLoad}
use pratc.Worker.Dry.{DryRuns, process_once-IsDry}
use pratc.Worker.Steady.{verified_rows}
use pratc.Worker.Verified.{Accounted, process_once-Accounted}
use pratc.Queue.Leasing.{
  get_claimable, expire_leases, expired_items, order_rows, offers, insert_row, claim, holds_lease,
  transition,
}
use pratc.Queue.Lease.{valid_transition, lease_expired}
use pratc.Executor.Execute.{execute_intent, execute_fresh, gate_policy, gate_preflight, settle}
use pratc.Executor.Perform.{record_stage, perform, perform_merge, attempt}
use pratc.Executor.Policy.{
  policy_allows, profile_allows, effective_dry_run, raw_string, string_slice_from_payload,
  string_from_payload, payload_get, compact_strings, merge_options_from_payload,
}
use pratc.Executor.Preflight.{
  run_preflight_checks, check_pr_open, check_head_sha, check_base_branch, check_ci_green,
  check_mergeable, check_branch_protection, check_token_permission, check_rate_limit,
  check_idempotency, verify_state, is_green_ci,
}
use package.pratc.Scenarios.Execution.{IsOpen, hub-IsKept, hub, merge_intent, start}
use package.pratc.Scenarios.WorkQueue.{item_a, queue_at}

abbrev idle : WorkerConfig
idle = record { repo = "o/r"; worker_id = "x"; lease_ttl = pos 60; live = false }

abbrev on_call : WorkerConfig
on_call = record idle { live = true }

abbrev intent_a : ActionIntent
intent_a = record merge_intent { work_item_id = "a" }

abbrev waiting : Queue
waiting = record (queue_at 200) {
  items = fresh_row "o/r" item_a 1 ∷ [];
  intents = intent_row "o/r" intent_a 0 1 ∷ [];
}

abbrev before : WorkerState String MemoryLedger
before = record {
  queue = waiting;
  breaker = new_breaker (record { max_global = 1; max_per_repo = 1 });
  session = start;
}

process_once-SameLoad_example :
    SameLoad before.breaker (final (process_once hub memory_ledger on_call 200 before)).breaker
unfolding steps
process_once-SameLoad_example =
    process_once-SameLoad hub memory_ledger on_call 200 before
      (steps-IsBalanced (record { max_global = 1; max_per_repo = 1 }) [])

process_once-IsDry_example :
    IsOpen (final (process_once hub memory_ledger idle 200 before)).session.world
process_once-IsDry_example =
    process_once-IsDry hub memory_ledger idle 200 IsOpen refl
      (hub-IsKept (DryRuns idle) (λ kind repo pr d c. c.1)) before refl

process_once-Accounted_example :
    Accounted hub memory_ledger memory_ledger-IsLedger on_call 200 before
      (final (process_once hub memory_ledger on_call 200 before))
process_once-Accounted_example =
    process_once-Accounted hub memory_ledger memory_ledger-IsLedger on_call 200 before

abbrev after : WorkerState String MemoryLedger
after = final (process_once hub memory_ledger on_call 200 before)

-- The item is marked as verified, the pull request is merged, and the slot is given back.
verifies :
    (verified_rows after.queue.transitions ≡ 1)
    × (after.session.world ≡ "merged")
    × (after.breaker.global ≡ 0)
unfolding get_claimable expire_leases for_each expired_items order_rows select offers lane_eq
    insert_row claim holds_lease get_unlocked find_item save_unlocked append_transition get_intents
    order_intents insert_intent transition valid_transition state_eq lease_expired update_item
    verified_rows process_once process_offer load_intents process_item process_intents
    process_intent after_execution finish_item fail_item acquire release find_slot remove_slot
    drop_in_flight in_flight set_in_flight delete_repo new_breaker execute_intent execute_fresh
    record_stage gate_policy gate_preflight perform perform_merge attempt settle memory_record
    memory_is_executed has_executed history set_history put_record policy_allows profile_allows
    effective_dry_run run_preflight_checks check_pr_open check_head_sha check_base_branch
    check_ci_green check_mergeable check_branch_protection check_token_permission check_rate_limit
    check_idempotency verify_state is_green_ci raw_string string_slice_from_payload
    string_from_payload payload_get compact_strings merge_options_from_payload trim_space trim_left
    trim_right is_space same_lower to_lower codes_eq str_elem
verifies = (refl, refl, refl)
