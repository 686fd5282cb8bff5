-- ===== src/Worker/Rounds.antt =====
-- The loop over the intents of `ProcessOnce` of internal/executor/worker.go: it goes on to its end only if
-- every intent was executed, and it marks nothing as verified.
use pratc.Base.{
  ℕ, String, true, ◌≡◌, inl, inr, List, [], ◌∷◌, done, fail, final, Outcome, Outcome-cases,
  Bool-cases, All, arith, subst,
}
use pratc.Model.Kinds.{ActionWorkItemState, failed}
use pratc.Model.Records.{ActionWorkItem, ActionIntent, ExecutionResult}
use pratc.Queue.Store.{Queue}
use pratc.Queue.Leasing.{transition}
use pratc.Executor.Ledger.{Ledger, IsLedger, circuit_denied, of_error}
use pratc.Executor.Mutator.{Mutator}
use pratc.Executor.Session.{Session}
use pratc.Executor.Perform.{Failure}
use pratc.Executor.Execute.{execute_intent}
use pratc.Executor.Once.{execute_intent-IsExecuted}
use pratc.Executor.Keys.{execute_intent-keeps}
use pratc.Executor.Breaker.{acquire, release}
use package.pratc.Worker.Process.{
  WorkerConfig, WorkerState, proceed, stop, is_live, config_for, fail_item, after_execution, deny,
  process_intent, process_intents, load_intents,
}
use package.pratc.Worker.Exits.{
  Keeps, after_execution-Keeps, deny-Keeps, load_intents-Keeps, process_intents-Keeps,
}
use package.pratc.Worker.Steady.{SameQueue, transition-Steady, get_intents-Steady}

module _ {W L : Type 0} (ops : Ledger L) where
  abbrev pub Executed : String → WorkerState W L → Type 0
  Executed k s = ops.is_executed k s.session.ledger ≡ true

  abbrev pub AllExecuted : List ActionIntent → WorkerState W L → Type 0
  AllExecuted intents t = All (λ i. Executed i.idempotency_key t) intents

module _ {W L : Type 0} (gh : Mutator W) (ops : Ledger L) (laws : IsLedger L ops)
    (cfg : WorkerConfig) (now : ℕ) where
  -- What has been executed stays so through a round.
  process_intent-Executed :
      (k : String) (intent : ActionIntent) (current : ActionWorkItem)
      → Keeps (Executed ops k) (process_intent gh ops cfg now intent current)
  unfolding process_intent
  process_intent-Executed k intent current s h =
      let ex = config_for gh ops cfg now intent in
      let run = execute_intent gh ops ex now intent s.session in
      let kept = execute_intent-keeps gh ops laws ex now k intent s.session h in
      let after = λ (t : WorkerState W L).
        after_execution-Keeps (Executed ops k) gh ops cfg now (λ _ _ _ _ _ q. q) current run t
          kept in
      elim (Bool-cases (is_live gh ops cfg now intent)) [
        | inl live ↦ elim (Outcome-cases (acquire cfg.repo s.breaker)) [
          | inl (slot, c, e) ↦ ground (arith, after (record s { breaker = release slot c }))
          | inr (cause, c, e) ↦ ground (
            arith,
            deny-Keeps (Executed ops k) gh ops cfg now (λ _ _ _ _ _ q. q) intent current cause
                (record s { breaker = c })
                (ground (
                  arith,
                  laws.keeps intent.idempotency_key k circuit_denied (of_error cause)
                      s.session.ledger h,
                )),
          )
        ]
        | inr dry ↦ ground (arith, after s)
      ]

  -- A round goes on only after its intent was executed.
  after_execution-proceeds :
      (current : ActionWorkItem) (o : Outcome (Session W L) Failure ExecutionResult)
      (s t : WorkerState W L)
      → after_execution gh ops cfg now current o s ≡ done proceed t
      → (r : ExecutionResult) × (o ≡ done r t.session)
  unfolding after_execution fail_item
  after_execution-proceeds current (fail e u) s t h = absurd (ground arith)
  after_execution-proceeds current (done r u) s t h = (r, ground arith)

  process_intent-proceeds :
      (intent : ActionIntent) (current : ActionWorkItem) (s t : WorkerState W L)
      → process_intent gh ops cfg now intent current s ≡ done proceed t
      → Executed ops intent.idempotency_key t
  unfolding process_intent deny fail_item
  process_intent-proceeds intent current s t h =
      let ex = config_for gh ops cfg now intent in
      let run = execute_intent gh ops ex now intent s.session in
      let marks =
        λ (u : WorkerState W L) (k : after_execution gh ops cfg now current run u ≡ done proceed t).
          let (r, e) = after_execution-proceeds current run u t k in
          execute_intent-IsExecuted gh ops laws ex now intent s.session t.session r e in
      elim (Bool-cases (is_live gh ops cfg now intent)) [
        | inl live ↦ elim (Outcome-cases (acquire cfg.repo s.breaker)) [
          | inl (slot, c, e) ↦ ground (arith, marks (record s { breaker = release slot c }))
          | inr (cause, c, e) ↦ absurd (ground arith)
        ]
        | inr dry ↦ ground (arith, marks s)
      ]

  -- The loop goes on to its end only if every intent was executed.
  pub process_intents-AllExecuted :
      (intents : List ActionIntent) (current : ActionWorkItem) (s t : WorkerState W L)
      → process_intents gh ops cfg now intents current s ≡ done proceed t
      → AllExecuted ops intents t
  unfolding process_intents
  process_intents-AllExecuted [] current s t h = tt
  process_intents-AllExecuted (i ∷ rest) current s t h =
      elim (Outcome-cases (process_intent gh ops cfg now i current s)) [
        | inl (proceed, u, e) ↦
            let go : process_intents gh ops cfg now rest current u ≡ done proceed t =
              ground arith in
            let key = i.idempotency_key in
            let kept =
              process_intents-Keeps (Executed ops key) gh ops cfg now (λ _ _ _ _ _ q. q)
                (process_intent-Executed key) rest current u
                (process_intent-proceeds i current s u e) in
            (
              subst (λ o. Executed ops key (final o)) go kept,
              process_intents-AllExecuted rest current u t go,
            )
        | inl (stop, u, e) ↦ absurd (ground arith)
        | inr (_, u, e) ↦ absurd (ground arith)
      ]

  module _ (b : Queue) where
    abbrev Same : WorkerState W L → Type 0
    Same s = SameQueue b s.queue

    fails-Same :
        (id actor : String) (from : ActionWorkItemState) (reason : String) (s : WorkerState W L)
        → Same s
        → Same (record s { queue = final (transition id actor from failed reason s.queue) })
    fails-Same id actor from reason s h =
        ground (arith, transition-Steady id actor from reason s.queue)

    process_intent-Same :
        (intent : ActionIntent) (current : ActionWorkItem)
        → Keeps Same (process_intent gh ops cfg now intent current)
    unfolding process_intent
    process_intent-Same intent current s h =
        let run = execute_intent gh ops (config_for gh ops cfg now intent) now intent s.session in
        let after = λ (t : WorkerState W L).
          after_execution-Keeps Same gh ops cfg now fails-Same current run t in
        elim (Bool-cases (is_live gh ops cfg now intent)) [
          | inl live ↦ elim (Outcome-cases (acquire cfg.repo s.breaker)) [
            | inl (slot, c, e) ↦ ground (arith, after (record s { breaker = release slot c }))
            | inr (cause, c, e) ↦ ground (
              arith,
              deny-Keeps Same gh ops cfg now fails-Same intent current cause
                  (record s { breaker = c }),
            )
          ]
          | inr dry ↦ ground (arith, after s)
        ]

    pub process_intents-Same :
        (intents : List ActionIntent) (current : ActionWorkItem)
        → Keeps Same (process_intents gh ops cfg now intents current)
    process_intents-Same = process_intents-Keeps Same gh ops cfg now fails-Same process_intent-Same

    pub load_intents-Same :
        (claimed : ActionWorkItem) → Keeps Same (load_intents gh ops cfg now claimed)
    load_intents-Same =
        load_intents-Keeps Same gh ops cfg now fails-Same
          (λ repo id s h. ground (arith, get_intents-Steady repo id s.queue))
