-- ===== src/Worker/Dry.antt =====
-- `ProcessOnce` of internal/executor/worker.go for a worker that is not live.
use pratc.Base.{ℕ, true, false, ◌≡◌, final, arith}
use pratc.Model.Records.{ActionWorkItem, ActionIntent}
use pratc.Executor.Ledger.{Ledger}
use pratc.Executor.Mutator.{Mutator}
use pratc.Executor.Execute.{execute_intent}
use pratc.Executor.Facts.{Calls, IsKept, IsKept-weaken}
use pratc.Executor.Safety.{Consented, execute_intent-Consented}
use package.pratc.Worker.Process.{
  WorkerConfig, WorkerState, config_for, process_intent, process_once,
}
use package.pratc.Worker.Exits.{after_execution-Keeps, process_once-Keeps}

-- Dry runs on the worker's repository.
abbrev pub DryRuns : WorkerConfig → Calls
DryRuns cfg kind repo pr dry = (repo ≡ cfg.repo) × (dry ≡ true)

module _ {W L : Type 0} (gh : Mutator W) (ops : Ledger L) (cfg : WorkerConfig) (now : ℕ)
    (P : W → Type 0) (off : cfg.live ≡ false) (kept : IsKept gh (DryRuns cfg) P) where
  abbrev Unmoved : WorkerState W L → Type 0
  Unmoved s = P s.session.world

  process_intent-Unmoved :
      (intent : ActionIntent) (current : ActionWorkItem) (s : WorkerState W L)
      → Unmoved s
      → Unmoved (final (process_intent gh ops cfg now intent current s))
  unfolding process_intent
  process_intent-Unmoved intent current s h =
      let ex = config_for gh ops cfg now intent in
      let run = execute_intent gh ops ex now intent s.session in
      let dry =
        execute_intent-Consented gh ops ex now intent P
          (IsKept-weaken gh (DryRuns cfg) (Consented ex intent) P
            (λ kind repo pr d c. ground (arith, off)) kept)
          s.session h in
      ground (
        arith,
        off,
        after_execution-Keeps Unmoved gh ops cfg now (λ _ _ _ _ _ k. k) current run s dry,
      )

  -- A worker that is not live makes no mutating call but dry runs on its repository, whatever the queue offers and
  -- whatever the intents say, on every exit of ProcessOnce: whatever these and the reading calls keep of
  -- GitHub's state, ProcessOnce keeps.
  pub process_once-IsDry :
      (s : WorkerState W L)
      → P s.session.world
      → P (final (process_once gh ops cfg now s)).session.world
  process_once-IsDry = process_once-Keeps Unmoved gh ops cfg now (λ _ _ k. k) process_intent-Unmoved
