-- ===== src/Executor/Perform.antt =====
-- The switch of `ExecuteIntent` of internal/executor/executor.go, and `failIntent`. `now` is the executor's
-- clock, which stands still within one call.
use pratc.Base.{
  ℕ, String, Bool, true, false, not, ◌&&◌, List, [], ◌∷◌, if◌then◌else◌, str_eq, ◌==◌, trim_space,
  concat_texts, Prog, done, fail, ◌>>=◌, ◌>>◌, return, throw, when,
}
use pratc.Model.Kinds.{
  ActionKind, unset, merge, close, comment, label, request_changes, apply_fix, other,
}
use pratc.Model.Records.{ActionIntent, ExecutionResult, Stamp, blank, instant}
use pratc.Executor.Ledger.{Ledger, Stage, failed, Snapshot, of_result}
use pratc.Executor.Mutator.{Mutator}
use pratc.Executor.Session.{Config, Session, write, on_ledger}
use pratc.Executor.Preflight.{verify_state, verify_comment, verify_labels}
use pratc.Executor.Policy.{
  is_unset, effective_dry_run, first_string, string_from_payload, merge_options_from_payload,
}

-- The pair `(result, err)` of a call that fails.
pub record Failure : Type 0 where
  pub result : ExecutionResult
  pub cause : String

abbrev pub no_result : ExecutionResult
no_result = record {
  intent_id = "";
  action = unset;
  pr_number = 0;
  dry_run = false;
  executed = false;
  already_executed = false;
  result = "";
  error = "";
  executed_at = blank;
}

abbrev or_default : String → String → String
or_default value fallback = if str_eq value "" then fallback else value

abbrev is_blank : Stamp → Bool
is_blank blank = true
is_blank _ = false

module _ {W L : Type 0} (gh : Mutator W) (ops : Ledger L) (cfg : Config) (now : ℕ) where
  abbrev Exec : Type 0 → Type 0
  Exec A = Prog (Session W L) Failure A

  -- `if err := ledger.RecordTransition(...); err != nil { return types.ExecutionResult{}, err }`.
  unfoldable pub record_stage : String → Stage → Snapshot → Exec (Unit {0})
  record_stage key stage snapshot s =
      elim (on_ledger (ops.record_transition key stage snapshot) s) [
        | done _ t ↦ done tt t
        | fail e t ↦ fail (record { result = no_result; cause = e }) t
      ]

  -- The defaults that `failIntent` puts into fields that are not set.
  abbrev completed : ActionIntent → ExecutionResult → String → ExecutionResult
  completed intent result cause = record result {
    intent_id = or_default result.intent_id intent.id;
    action = if is_unset result.action then intent.action else result.action;
    pr_number = if result.pr_number == 0 then intent.pr_number else result.pr_number;
    executed_at = if is_blank result.executed_at then instant now else result.executed_at;
    error = or_default result.error cause;
  }

  -- `failIntent`: the error is put into the result, and the failure is recorded. If that fails too, the
  -- cause says so.
  unfoldable pub fail_intent : {A : Type 0} → ActionIntent → ExecutionResult → String → Exec A
  fail_intent intent result cause s =
      let shown = completed intent result cause in
      elim (on_ledger (ops.record_transition intent.idempotency_key failed (of_result shown)) s) [
        | done _ t ↦ fail (record { result = shown; cause = cause }) t
        | fail e t ↦
            fail
              (record {
                result = shown;
                cause = concat_texts (cause ∷ "; failed to record failure transition: " ∷ e ∷ []);
              })
              t
      ]

  -- A call of the mutator whose error goes through `failIntent` with the result so far.
  unfoldable pub attempt :
      {A : Type 0} → ActionIntent → ExecutionResult → Prog (Session W L) String A → Exec A
  unfolding fail_intent
  attempt intent result m s = elim (m s) [
    | done a t ↦ done a t
    | fail e t ↦ fail_intent intent (record result { error = e }) e t
  ]

  unfoldable pub perform_merge : ActionIntent → ExecutionResult → Exec ExecutionResult
  unfolding attempt
  perform_merge intent result = do
    let dry = effective_dry_run cfg intent
    merged ← attempt intent result (
        write merge intent.pr_number dry
          (λ pr d. gh.merge cfg.repo pr (merge_options_from_payload intent.payload) d))
    let text = if merged.already_merged then "already_merged" else "merged"
    let shown = record result { executed = not dry; result = text }
    when (not dry) (attempt intent shown (verify_state gh ops cfg.repo "merged" intent.pr_number))
    return shown

  abbrev pub close_comment : ActionIntent → String
  close_comment intent =
      or_default (string_from_payload intent.payload "comment")
        (string_from_payload intent.payload "comment_body")

  unfoldable pub perform_close : ActionIntent → ExecutionResult → Exec ExecutionResult
  unfolding attempt fail_intent
  perform_close intent result = do
    let dry = effective_dry_run cfg intent
    let reason = first_string intent.reasons ""
    let body = close_comment intent
    when (str_eq (trim_space reason) "" && str_eq (trim_space body) "") (
        fail_intent intent
          (record result { error = "close action requires reason or comment text" })
          "close action requires reason or comment text")
    when (not (str_eq body "")) (
        attempt intent result
          (write comment intent.pr_number dry (λ pr d. gh.add_comment cfg.repo pr body d)))
    attempt intent result (
        write close intent.pr_number dry
          (λ pr d. gh.close cfg.repo pr (first_string (reason ∷ body ∷ []) "closed by prATC") d))
    let shown = record result { executed = not dry; result = "closed" }
    when (not dry) (attempt intent shown (verify_state gh ops cfg.repo "closed" intent.pr_number))
    when (not dry && not (str_eq body ""))
        (attempt intent shown (verify_comment gh ops cfg.repo intent.pr_number body))
    return shown

  unfoldable pub perform_comment : ActionIntent → ExecutionResult → Exec ExecutionResult
  unfolding attempt
  perform_comment intent result = do
    let dry = effective_dry_run cfg intent
    let body = first_string intent.reasons "prATC action intent"
    attempt intent result
        (write comment intent.pr_number dry (λ pr d. gh.add_comment cfg.repo pr body d))
    let shown = record result { executed = not dry; result = "commented" }
    when (not dry) (attempt intent shown (verify_comment gh ops cfg.repo intent.pr_number body))
    return shown

  unfoldable pub perform_label : ActionIntent → ExecutionResult → Exec ExecutionResult
  unfolding attempt
  perform_label intent result = do
    let dry = effective_dry_run cfg intent
    let labels : List String = "pratc-action" ∷ []
    attempt intent result
        (write label intent.pr_number dry (λ pr d. gh.add_labels cfg.repo pr labels d))
    let shown = record result { executed = not dry; result = "labeled" }
    when (not dry) (attempt intent shown (verify_labels gh ops cfg.repo intent.pr_number labels))
    return shown

  unfoldable pub perform_fix : ActionIntent → ExecutionResult → Exec ExecutionResult
  unfolding attempt
  perform_fix intent result = do
    let dry = effective_dry_run cfg intent
    _ ←
        attempt intent result
          (write apply_fix intent.pr_number dry (λ pr d. gh.apply_fix cfg.repo pr "" d))
    let shown = record result { executed = not dry; result = "fix_applied" }
    when (not dry) (attempt intent shown (verify_state gh ops cfg.repo "open" intent.pr_number))
    return shown

  -- The switch over `intent.Action`.
  unfoldable pub perform : ActionKind → ActionIntent → ExecutionResult → Exec ExecutionResult
  perform merge intent result = perform_merge intent result
  perform close intent result = perform_close intent result
  perform comment intent result = perform_comment intent result
  perform request_changes intent result = perform_comment intent result
  perform label intent result = perform_label intent result
  perform apply_fix intent result = perform_fix intent result
  perform unset intent result = throw (record { result = no_result; cause = "unknown action kind" })
  perform (other name) intent result =
      throw (record { result = no_result; cause = "unknown action kind" })
