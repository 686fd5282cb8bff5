-- ===== src/Scenarios/Execution.antt =====
-- Runs of the executor against a small GitHub: one pull request, of which only the state is kept.
use pratc.Base.{
  ℕ, arith, String, Bool, true, false, ◌≡◌, refl, ◌⊎◌, List, [], ◌∷◌, pos, Prog, Outcome, done,
  final, if◌then◌else◌, none, trim_space, trim_left, trim_right, is_space, same_lower, to_lower,
  codes_eq, str_elem,
}
use pratc.Model.Kinds.{ActionKind, merge, close, fast_merge, autonomous}
use pratc.Model.Records.{ActionIntent, ExecutionResult, instant}
use pratc.Executor.Ledger.{
  MemoryLedger, memory_ledger, memory_ledger-IsLedger, memory_is_executed, memory_record, history,
  set_history, put_record, has_executed, Stage, Snapshot, proposed, executed, failed, of_error,
}
use pratc.Executor.Mutator.{Mutator}
use pratc.Executor.Session.{Config, Session}
use pratc.Executor.Policy.{
  policy_allows, profile_allows, effective_dry_run, raw_string, string_slice_from_payload,
  string_from_payload, payload_get, compact_strings, merge_options_from_payload,
}
use pratc.Executor.Preflight.{
  run_preflight_checks, check_pr_open, check_head_sha, check_base_branch, check_ci_green,
  check_mergeable, check_branch_protection, check_token_permission, check_rate_limit,
  check_idempotency, verify_state, is_green_ci,
}
use pratc.Executor.Perform.{Failure, record_stage, perform, perform_merge, attempt}
use pratc.Executor.Execute.{execute_intent, execute_fresh, gate_policy, gate_preflight, settle}
use pratc.Executor.Facts.{Calls, IsKept}
use pratc.Executor.Safety.{Consented, execute_intent-Consented}
use pratc.Executor.Once.{execute_intent-once, record_all}
use pratc.Executor.Gated.{Passed, execute_intent-gated}

abbrev set_state : Bool → String → Prog String String (Unit {0})
set_state dry wanted w = done tt (if dry then w else wanted)

-- A GitHub whose one pull request can be merged and closed.
abbrev pub hub : Mutator String
hub = record {
  merge = λ repo pr options dry w.
      done (record { merged = true; sha = "f"; already_merged = false })
        (if dry then w else "merged");
  close = λ repo pr reason dry. set_state dry "closed";
  add_comment = λ repo pr body dry w. done tt w;
  add_labels = λ repo pr labels dry w. done tt w;
  apply_fix = λ repo pr patch dry w.
      done (record { applied = true; new_branch = "fix"; test_output = "" }) w;
  get_pr_state = λ repo pr w.
      done
        (record {
          number = pr;
          state = w;
          head_sha = "a";
          base_branch = "main";
          mergeable = true;
          ci_status = "success";
        })
        w;
  get_head_sha = λ repo pr w. done "a" w;
  get_base_branch = λ repo pr w. done "main" w;
  get_ci_status = λ repo pr w. done "success" w;
  get_mergeable = λ repo pr w. done true w;
  get_required_reviews = λ repo pr w. done true w;
  get_rate_limit_remaining = λ w. done (pos 100) w;
  get_comments = λ repo pr w. done [] w;
  get_labels = λ repo pr w. done [] w;
}

abbrev live : Config
live = record { repo = "o/r"; dry_run = false; policy_profile = autonomous }

abbrev dry : Config
dry = record { repo = "o/r"; dry_run = true; policy_profile = autonomous }

abbrev pub merge_intent : ActionIntent
merge_intent = record {
  id = "i";
  work_item_id = "w";
  action = merge;
  pr_number = 7;
  lane = fast_merge;
  dry_run = false;
  policy_profile = autonomous;
  confidence = 90;
  risk_flags = [];
  reasons = [];
  evidence_refs = [];
  preconditions = [];
  idempotency_key = "k";
  created_at = "";
  payload = [];
}

abbrev pub start : Session String MemoryLedger
start = record { world = "open"; ledger = []; writes = [] }

abbrev run :
    Config
    → Session String MemoryLedger
    → Outcome (Session String MemoryLedger) Failure ExecutionResult
run cfg s = execute_intent hub memory_ledger cfg 5 merge_intent s

abbrev live_result : ExecutionResult
live_result = record {
  intent_id = "i";
  action = merge;
  pr_number = 7;
  dry_run = false;
  executed = true;
  already_executed = false;
  result = "merged";
  error = "";
  executed_at = instant 5;
}

abbrev after : Config → Session String MemoryLedger
after cfg = final (run cfg start)

runs_live : run live start ≡ done live_result (after live)
unfolding execute_intent execute_fresh record_stage gate_policy gate_preflight perform perform_merge
    attempt settle memory_record memory_is_executed has_executed history set_history put_record
    policy_allows profile_allows effective_dry_run run_preflight_checks check_pr_open check_head_sha
    check_base_branch check_ci_green check_mergeable check_branch_protection check_token_permission
    check_rate_limit check_idempotency verify_state is_green_ci raw_string string_slice_from_payload
    string_from_payload payload_get compact_strings merge_options_from_payload trim_space trim_left
    trim_right is_space same_lower to_lower codes_eq str_elem
runs_live = refl

merges_live : (after live).world ≡ "merged"
unfolding execute_intent execute_fresh record_stage gate_policy gate_preflight perform perform_merge
    attempt settle memory_record memory_is_executed has_executed history set_history put_record
    policy_allows profile_allows effective_dry_run run_preflight_checks check_pr_open check_head_sha
    check_base_branch check_ci_green check_mergeable check_branch_protection check_token_permission
    check_rate_limit check_idempotency verify_state is_green_ci raw_string string_slice_from_payload
    string_from_payload payload_get compact_strings merge_options_from_payload trim_space trim_left
    trim_right is_space same_lower to_lower codes_eq str_elem
merges_live = refl

-- A dry run calls the mutator once, as a dry run.
dry_run_writes : (after dry).writes ≡ (record { kind = merge; pr_number = 7; dry_run = true } ∷ [])
unfolding execute_intent execute_fresh record_stage gate_policy gate_preflight perform perform_merge
    attempt settle memory_record memory_is_executed has_executed history set_history put_record
    policy_allows profile_allows effective_dry_run run_preflight_checks check_pr_open check_head_sha
    check_base_branch check_ci_green check_mergeable check_branch_protection check_token_permission
    check_rate_limit check_idempotency verify_state is_green_ci raw_string string_slice_from_payload
    string_from_payload payload_get compact_strings merge_options_from_payload trim_space trim_left
    trim_right is_space same_lower to_lower codes_eq str_elem
dry_run_writes = refl

abbrev pub IsOpen : String → Type 0
IsOpen w = w ≡ "open"

pub hub-IsKept :
    (may : Calls)
    → ((kind : ActionKind) (repo : String) (pr : ℕ) (d : Bool) → may kind repo pr d → d ≡ true)
    → IsKept hub may IsOpen
hub-IsKept may only_dry = record {
  merges = λ repo pr o d w m h. ground (arith, only_dry merge repo pr d m);
  closes = λ repo pr text d w m h. ground (arith, only_dry close repo pr d m);
  comments = λ repo pr text d w m h. h;
  labels = λ repo pr names d w m h. h;
  fixes = λ repo pr text d w m h. h;
  state = λ repo pr w h. h;
  head = λ repo pr w h. h;
  base = λ repo pr w h. h;
  ci = λ repo pr w h. h;
  mergeable = λ repo pr w h. h;
  reviews = λ repo pr w h. h;
  rate = λ w h. h;
  said = λ repo pr w h. h;
  labeled = λ repo pr w h. h;
}

consent_is_dry :
    (kind : ActionKind) (repo : String) (pr : ℕ) (d : Bool)
    → Consented dry merge_intent kind repo pr d
    → d ≡ true
consent_is_dry kind repo pr d c = ground arith

-- The dry-run switch of the configuration is on: the pull request stays open.
execute_intent-Consented_example :
    IsOpen (final (execute_intent hub memory_ledger dry 5 merge_intent start)).world
execute_intent-Consented_example =
    execute_intent-Consented hub memory_ledger dry 5 merge_intent IsOpen
      (hub-IsKept (Consented dry merge_intent) consent_is_dry) start refl

abbrev seen : Session String MemoryLedger
seen = record {
  world = "open";
  ledger =
      ("k", record { intent_id = "k"; transition = executed; snapshot = of_error "" } ∷ []) ∷ [];
  writes = [];
}

key_seen : memory_is_executed "k" seen.ledger ≡ true
unfolding memory_is_executed history has_executed
key_seen = refl

abbrev others : List (String × (Stage × Snapshot))
others = ("k", (failed, of_error "lost")) ∷ ("j", (proposed, of_error "")) ∷ []

-- After the merge someone opens the pull request again; the intent is not carried out again.
abbrev reopened : Session String MemoryLedger
reopened = record (after live) {
  world = "open";
  ledger = record_all hub memory_ledger others (after live).ledger;
}

execute_intent-once_example :
    ((final (execute_intent hub memory_ledger dry 9 merge_intent reopened)).writes
      ≡ (after live).writes)
    × ((final (execute_intent hub memory_ledger dry 9 merge_intent reopened)).world ≡ "open")
execute_intent-once_example =
    execute_intent-once hub memory_ledger memory_ledger-IsLedger live dry 5 9 merge_intent start
      (after live) live_result "open" others runs_live

execute_intent-gated_example :
    ((final (execute_intent hub memory_ledger live 5 merge_intent start)).writes ≡ [])
    ⊎ ((policy_allows live merge_intent ≡ none)
        × Passed hub memory_ledger live 5 merge_intent start)
execute_intent-gated_example = execute_intent-gated hub memory_ledger live 5 merge_intent start
