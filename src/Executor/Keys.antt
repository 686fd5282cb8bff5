-- ===== src/Executor/Keys.antt =====
-- A key that is executed in the ledger stays so through every `ExecuteIntent` of
-- internal/executor/executor.go.
use pratc.Base.{
  ℕ, String, Bool, true, false, not, ◌&&◌, ◌≡◌, str_eq, arith, Prog, final, Outcome-cases, inl, inr,
  ◌>>=◌, ◌>>◌, when, return, ◌∷◌, [], trim_space,
}
use pratc.Model.Kinds.{
  ActionKind, unset, merge, close, comment, label, request_changes, apply_fix, other,
}
use pratc.Model.Records.{ActionIntent, ExecutionResult}
use pratc.Executor.Ledger.{
  Ledger, IsLedger, Stage, Snapshot, failed, proposed, preflighted, of_intent, of_preflight,
}
use pratc.Executor.Mutator.{Mutator}
use pratc.Executor.Session.{Config, Session, write}
use pratc.Executor.Preflight.{verify_state, verify_comment, verify_labels}
use pratc.Executor.Policy.{effective_dry_run, first_string}
use pratc.Executor.Perform.{
  Failure, record_stage, fail_intent, attempt, perform_merge, perform_close, perform_comment,
  perform_label, perform_fix, perform, close_comment,
}
use pratc.Executor.Execute.{
  gate_policy, gate_preflight, settle, execute_fresh, execute_intent, blank_result,
}
use pratc.Executor.Quiet.{run_preflight_checks-Quiet}

module _ {W L : Type 0} (gh : Mutator W) (ops : Ledger L) (laws : IsLedger L ops) (cfg : Config)
    (now : ℕ) (k : String) where
  abbrev Marked : Session W L → Type 0
  Marked s = ops.is_executed k s.ledger ≡ true

  -- A call that keeps the key executed, on every exit.
  abbrev Kept : {A : Type 0} → Prog (Session W L) Failure A → Type 0
  Kept m = (s : Session W L) → Marked s → Marked (final (m s))

  bind-Kept :
      {A B : Type 0} (m : Prog (Session W L) Failure A) (f : A → Prog (Session W L) Failure B)
      → Kept m
      → ((a : A) → Kept (f a))
      → Kept (m >>= f)
  bind-Kept m f first rest s h = elim (Outcome-cases (m s)) [
    | inl (a, t, e) ↦ ground (arith, first s h, rest a t)
    | inr (_, t, e) ↦ ground (arith, first s h)
  ]

  seq-Kept :
      {B : Type 0} (m : Prog (Session W L) Failure (Unit {0})) (f : Prog (Session W L) Failure B)
      → Kept m
      → Kept f
      → Kept (m >> f)
  seq-Kept m f first rest s h = elim (Outcome-cases (m s)) [
    | inl (_, t, e) ↦ ground (arith, first s h, rest t)
    | inr (_, t, e) ↦ ground (arith, first s h)
  ]

  when-Kept : (b : Bool) (m : Prog (Session W L) Failure (Unit {0})) → Kept m → Kept (when b m)
  when-Kept true m kept s h = kept s h
  when-Kept false m kept s h = h

  module _ (intent : ActionIntent) (r : ExecutionResult) where
    abbrev key : String
    key = intent.idempotency_key

    abbrev dry : Bool
    dry = effective_dry_run cfg intent

    perform_merge-Kept : Kept (perform_merge gh ops cfg now intent r)
    unfolding perform_merge fail_intent verify_state
    perform_merge-Kept s h = grind (arith, laws.keeps key k failed)

    perform_comment-Kept : Kept (perform_comment gh ops cfg now intent r)
    unfolding perform_comment fail_intent verify_comment
    perform_comment-Kept s h = grind (arith, laws.keeps key k failed)

    perform_label-Kept : Kept (perform_label gh ops cfg now intent r)
    unfolding perform_label fail_intent verify_labels
    perform_label-Kept s h = grind (arith, laws.keeps key k failed)

    perform_fix-Kept : Kept (perform_fix gh ops cfg now intent r)
    unfolding perform_fix fail_intent verify_state
    perform_fix-Kept s h = grind (arith, laws.keeps key k failed)

    attempt-Kept :
        {A : Type 0} (m : Prog (Session W L) String A)
        → ((s : Session W L) → (final (m s)).ledger ≡ s.ledger)
        → Kept (attempt gh ops cfg now intent r m)
    unfolding attempt fail_intent
    attempt-Kept m quiet s h = grind (arith, quiet s, laws.keeps key k failed)

    verify_state-Kept :
        (wanted : String)
        → Kept
            (attempt gh ops cfg now intent r (verify_state gh ops cfg.repo wanted intent.pr_number))
    unfolding verify_state
    verify_state-Kept wanted =
        attempt-Kept (verify_state gh ops cfg.repo wanted intent.pr_number) (λ s. ground arith)

    verify_comment-Kept :
        (body : String)
        → Kept
            (attempt gh ops cfg now intent r (verify_comment gh ops cfg.repo intent.pr_number body))
    unfolding verify_comment
    verify_comment-Kept body =
        attempt-Kept (verify_comment gh ops cfg.repo intent.pr_number body) (λ s. ground arith)

  module _ (intent : ActionIntent) where
    -- The end of the close action: the verifications.
    abbrev confirm : ExecutionResult → String → Prog (Session W L) Failure ExecutionResult
    confirm shown body =
        when (not (dry intent shown)) (
          attempt gh ops cfg now intent shown
            (verify_state gh ops cfg.repo "closed" intent.pr_number))
        >> (when (not (dry intent shown) && not (str_eq body "")) (
              attempt gh ops cfg now intent shown
                (verify_comment gh ops cfg.repo intent.pr_number body))
            >> return shown)

    confirm-Kept : (shown : ExecutionResult) (body : String) → Kept (confirm shown body)
    confirm-Kept shown body =
        let state =
          attempt gh ops cfg now intent shown
            (verify_state gh ops cfg.repo "closed" intent.pr_number) in
        let seen =
          attempt gh ops cfg now intent shown
            (verify_comment gh ops cfg.repo intent.pr_number body) in
        let live = not (dry intent shown) in
        seq-Kept (when live state) (when (live && not (str_eq body "")) seen >> return shown)
          (when-Kept live state (verify_state-Kept intent shown "closed"))
          (seq-Kept (when (live && not (str_eq body "")) seen) (return shown)
            (when-Kept (live && not (str_eq body "")) seen (verify_comment-Kept intent shown body))
            (λ s h. h))

    module _ (r : ExecutionResult) where
      abbrev closing : String → Prog (Session W L) Failure (Unit {0})
      closing body = attempt gh ops cfg now intent r (
          write close intent.pr_number (dry intent r) (λ pr d.
            gh.close cfg.repo pr
              (first_string (first_string intent.reasons "" ∷ body ∷ []) "closed by prATC") d))

      abbrev commenting : String → Prog (Session W L) Failure (Unit {0})
      commenting body = attempt gh ops cfg now intent r (
          write comment intent.pr_number (dry intent r) (λ pr d. gh.add_comment cfg.repo pr body d))

      abbrev refusing : Prog (Session W L) Failure (Unit {0})
      refusing =
          fail_intent gh ops cfg now intent
            (record r { error = "close action requires reason or comment text" })
            "close action requires reason or comment text"

      refusing-Kept : Kept refusing
      unfolding fail_intent
      refusing-Kept s h = grind (arith, laws.keeps (key intent r) k failed)

      perform_close-Kept : Kept (perform_close gh ops cfg now intent r)
      unfolding perform_close
      perform_close-Kept =
          let body = close_comment gh ops cfg now intent in
          let silent =
            str_eq (trim_space (first_string intent.reasons "")) ""
            && str_eq (trim_space body) "" in
          let shown = record r { executed = not (dry intent r); result = "closed" } in
          seq-Kept (when silent refusing)
            (when (not (str_eq body "")) (commenting body) >> (closing body >> confirm shown body))
            (when-Kept silent refusing refusing-Kept)
            (seq-Kept (when (not (str_eq body "")) (commenting body))
              (closing body >> confirm shown body)
              (when-Kept (not (str_eq body "")) (commenting body) (
                attempt-Kept intent r
                  (write comment intent.pr_number (dry intent r)
                    (λ pr d. gh.add_comment cfg.repo pr body d))
                  (λ s. ground arith)))
              (seq-Kept (closing body) (confirm shown body)
                (attempt-Kept intent r
                  (write close intent.pr_number (dry intent r) (λ pr d.
                    gh.close cfg.repo pr
                      (first_string (first_string intent.reasons "" ∷ body ∷ []) "closed by prATC")
                      d))
                  (λ s. ground arith))
                (confirm-Kept shown body)))

    perform-Kept : (a : ActionKind) (r : ExecutionResult) → Kept (perform gh ops cfg now a intent r)
    unfolding perform
    perform-Kept merge r = perform_merge-Kept intent r
    perform-Kept close r = perform_close-Kept r
    perform-Kept comment r = perform_comment-Kept intent r
    perform-Kept request_changes r = perform_comment-Kept intent r
    perform-Kept label r = perform_label-Kept intent r
    perform-Kept apply_fix r = perform_fix-Kept intent r
    perform-Kept unset r = λ s h. h
    perform-Kept (other name) r = λ s h. h

    record_stage-Kept :
        (stage : Stage) (snapshot : Snapshot)
        → Kept (
            record_stage gh ops cfg now
              (key intent (blank_result gh ops cfg now intent))
              stage
              snapshot)
    unfolding record_stage
    record_stage-Kept stage snapshot s h = grind (arith, laws.keeps intent.idempotency_key k stage)

    settle-Kept : (r : ExecutionResult) → Kept (settle gh ops cfg now intent r)
    unfolding settle attempt fail_intent
    settle-Kept r s h = grind (arith, laws.keeps intent.idempotency_key k)

    gate_policy-Kept : Kept (gate_policy gh ops cfg now intent)
    unfolding gate_policy fail_intent
    gate_policy-Kept s h = grind (arith, laws.keeps intent.idempotency_key k failed)

    gate_preflight-Kept : Kept (gate_preflight gh ops cfg now intent)
    unfolding gate_preflight record_stage
    gate_preflight-Kept s h = grind (
      arith,
      run_preflight_checks-Quiet gh ops cfg intent s,
      laws.keeps intent.idempotency_key k failed,
    )

    execute_fresh-Kept : Kept (execute_fresh gh ops cfg now intent)
    unfolding execute_fresh
    execute_fresh-Kept =
        let start = blank_result gh ops cfg now intent in
        let mark =
          record_stage gh ops cfg now intent.idempotency_key preflighted
            (of_preflight intent.pr_number) in
        let settling = settle gh ops cfg now intent in
        let acting = perform gh ops cfg now intent.action intent start in
        seq-Kept (gate_policy gh ops cfg now intent)
          (gate_preflight gh ops cfg now intent >> (mark >> (acting >>= settling))) gate_policy-Kept
          (seq-Kept (gate_preflight gh ops cfg now intent) (mark >> (acting >>= settling))
            gate_preflight-Kept
            (seq-Kept mark (acting >>= settling)
              (record_stage-Kept preflighted (of_preflight intent.pr_number))
              (bind-Kept acting settling (perform-Kept intent.action start) settle-Kept)))

    -- Whatever ExecuteIntent does and returns, a key that is executed stays executed.
    pub execute_intent-keeps : Kept (execute_intent gh ops cfg now intent)
    unfolding execute_intent
    execute_intent-keeps s h =
        let propose =
          record_stage gh ops cfg now intent.idempotency_key proposed (of_intent intent.id) in
        let first = record_stage-Kept proposed (of_intent intent.id) s h in
        elim (Outcome-cases (propose s)) [
          | inl (_, t, e) ↦ ground (arith, first, execute_fresh-Kept t)
          | inr (_, t, e) ↦ ground (arith, first)
        ]
