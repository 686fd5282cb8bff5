-- ===== src/Executor/Execute.antt =====
-- `ExecuteIntent` and `failIntent` of internal/executor/executor.go. The mutator is there (the source
-- refuses a nil one first), and `now` is the executor's clock, which stands still within one call.
use pratc.Base.{
  ℕ, true, false, not, none, some, if◌then◌else◌, str_eq, Prog, done, fail, ◌>>=◌, ◌>>◌, return,
  ensure, gets,
}
use pratc.Model.Records.{ActionIntent, ExecutionResult, instant}
use pratc.Executor.Ledger.{
  Ledger, proposed, preflighted, executed, failed, of_intent, of_preflight, of_error, of_result,
}
use pratc.Executor.Mutator.{Mutator}
use pratc.Executor.Session.{Config, Session, on_ledger}
use pratc.Executor.Preflight.{run_preflight_checks}
use pratc.Executor.Policy.{effective_dry_run, policy_allows}
use pratc.Executor.Perform.{Failure, no_result, record_stage, fail_intent, attempt, perform}

module _ {W L : Type 0} (gh : Mutator W) (ops : Ledger L) (cfg : Config) (now : ℕ) where
  abbrev Exec : Type 0 → Type 0
  Exec A = Prog (Session W L) Failure A

  -- The result before the switch.
  abbrev pub blank_result : ActionIntent → ExecutionResult
  blank_result intent = record {
    intent_id = intent.id;
    action = intent.action;
    pr_number = intent.pr_number;
    dry_run = effective_dry_run cfg intent;
    executed = false;
    already_executed = false;
    result = "";
    error = "";
    executed_at = instant now;
  }

  abbrev pub already_result : ActionIntent → ExecutionResult
  already_result intent = record (blank_result intent) {
    already_executed = true;
    result = "already_executed";
  }

  -- `policyAllows` and its error path.
  unfoldable pub gate_policy : ActionIntent → Exec (Unit {0})
  unfolding fail_intent
  gate_policy intent = elim (policy_allows cfg intent) [
    | none ↦ return tt
    | some denial ↦
        fail_intent gh ops cfg now intent (record (blank_result intent) { error = denial }) denial
  ]

  -- `runPreflightChecks` and its error path.
  unfoldable pub gate_preflight : ActionIntent → Exec (Unit {0})
  unfolding record_stage
  gate_preflight intent s = elim (run_preflight_checks gh ops cfg.repo intent s) [
    | done _ t ↦ done tt t
    | fail e t ↦ elim (record_stage gh ops cfg now intent.idempotency_key failed (of_error e) t) [
      | done _ u ↦ fail (record { result = no_result; cause = e }) u
      | fail f u ↦ fail f u
    ]
  ]

  -- What follows a mutation that went well: `executed` is recorded, and once more through `Record`.
  unfoldable pub settle : ActionIntent → ExecutionResult → Exec ExecutionResult
  unfolding attempt
  settle intent result = do
    attempt gh ops cfg now intent result
        (on_ledger (ops.record_transition intent.idempotency_key executed (of_result result)))
    attempt gh ops cfg now intent result
        (on_ledger (ops.record_transition intent.idempotency_key executed (of_result result)))
    return result

  -- ExecuteIntent from the idempotency test on, for a key that has not been executed.
  unfoldable pub execute_fresh : ActionIntent → Exec ExecutionResult
  execute_fresh intent = do
    gate_policy intent
    gate_preflight intent
    record_stage gh ops cfg now intent.idempotency_key preflighted (of_preflight intent.pr_number)
    result ← perform gh ops cfg now intent.action intent (blank_result intent)
    settle intent result

  -- `ExecuteIntent`.
  unfoldable pub execute_intent : ActionIntent → Exec ExecutionResult
  execute_intent intent = do
    ensure (not (str_eq intent.idempotency_key ""))
        (record { result = no_result; cause = "idempotency key is required" })
    record_stage gh ops cfg now intent.idempotency_key proposed (of_intent intent.id)
    already ← gets (λ s. ops.is_executed intent.idempotency_key s.ledger)
    if already then return (already_result intent) else execute_fresh intent
