-- ===== src/Worker/Process.antt =====
-- `NewWorker`, `ProcessOnce` and `fail` of internal/executor/worker.go, over the queue, the circuit breaker and
-- the executor. Queue and mutator are there (the source refuses a nil one first); `now` is the clock of
-- the executors that it makes.
use pratc.Base.{
  ℕ, ℤ, pos, String, Bool, true, false, not, ◌&&◌, List, [], ◌∷◌, if◌then◌else◌, is_positive,
  str_eq, Prog, Outcome, done, fail, ◌>>=◌, ◌>>◌, return, throw, final,
}
use pratc.Model.Kinds.{
  ActionLane, ActionWorkItemState, preflighted, approved_for_execution, executed, verified, failed,
}
use pratc.Model.Records.{ActionWorkItem, ActionIntent, ExecutionResult}
use pratc.Queue.Store.{Queue, QueueError, Op}
use pratc.Queue.Leasing.{claim, transition, get_claimable}
use pratc.Queue.Intake.{get_intents}
use pratc.Executor.Ledger.{Ledger, circuit_denied, of_error}
use pratc.Executor.Mutator.{Mutator}
use pratc.Executor.Session.{Config, Session, on_ledger}
use pratc.Executor.Perform.{Failure}
use pratc.Executor.Execute.{execute_intent}
use pratc.Executor.Breaker.{MutationCircuitBreaker, acquire, release}

-- The fields of `WorkerConfig` that ProcessOnce reads; the circuit breaker is in the state.
pub record WorkerConfig : Type 0 where
  pub repo : String
  pub worker_id : String
  pub lease_ttl : ℤ
  pub live : Bool

pub record WorkerState (W L : Type 0) : Type 0 where
  pub queue : Queue
  pub breaker : MutationCircuitBreaker
  pub session : Session W L

-- What an error of ProcessOnce stands for.
pub data Cause : Type 0 where
  queue_error : QueueError → Cause
  no_intents : Cause
  execution : String → Cause

-- The pair `(processed, err)` of a call that fails.
pub record WorkerError : Type 0 where
  pub processed : Bool
  pub cause : Cause

-- The defaults of `NewWorker`.
unfoldable pub new_worker : WorkerConfig → WorkerConfig
new_worker cfg = record cfg {
  worker_id = if str_eq cfg.worker_id "" then "executor-worker" else cfg.worker_id;
  lease_ttl = if is_positive cfg.lease_ttl then cfg.lease_ttl else pos 600;
}

-- Whether the loop over the intents goes on, or ProcessOnce returns `true, nil`.
pub data Flow : Type 0 where
  proceed stop : Flow

abbrev pub Work : Type 0 → Type 0 → Type 0 → Type 0
Work W L A = Prog (WorkerState W L) WorkerError A

module _ {W L : Type 0} where
  -- A call of the queue whose error is returned with `processed`.
  abbrev pub on_queue : {A : Type 0} → Bool → Op A → Work W L A
  on_queue processed m s = elim (m s.queue) [
    | done a q ↦ done a (record s { queue = q })
    | fail e q ↦
        fail (record { processed = processed; cause = queue_error e }) (record s { queue = q })
  ]

  -- `_ = call`: the error is dropped.
  abbrev pub ignoring : {A : Type 0} → Work W L A → Work W L (Unit {0})
  ignoring m s = elim (m s) [ done _ t ↦ done tt t | fail _ t ↦ done tt t ]

abbrev pub or_worker_failed : String → String
or_worker_failed reason = if str_eq reason "" then "worker_failed" else reason

module _ {W L : Type 0} (gh : Mutator W) (ops : Ledger L) (cfg : WorkerConfig) (now : ℕ) where
  -- `_ = w.fail(...)`.
  unfoldable pub fail_item : ActionWorkItem → String → Work W L (Unit {0})
  fail_item item reason =
      ignoring (
        on_queue true
          (transition item.id cfg.worker_id item.state failed (or_worker_failed reason)))

  -- `actualLiveWrite`.
  abbrev pub is_live : ActionIntent → Bool
  is_live intent = cfg.live && not intent.dry_run

  abbrev pub config_for : ActionIntent → Config
  config_for intent = record {
    repo = cfg.repo;
    dry_run = not (is_live intent);
    policy_profile = intent.policy_profile;
  }

  -- What follows ExecuteIntent; the slot is back by then.
  unfoldable pub after_execution :
      ActionWorkItem → Outcome (Session W L) Failure ExecutionResult → Work W L Flow
  unfolding fail_item
  after_execution current (fail e t) s =
      (fail_item current e.result.error
          >> throw (record { processed = true; cause = execution e.cause }))
        (record s { session = t })
  after_execution current (done result t) s =
      (if not result.executed && not result.already_executed && not result.dry_run
          then fail_item current "intent_not_executed" >> return stop
          else return proceed)
        (record s { session = t })

  -- The breaker has no slot left.
  unfoldable pub deny : ActionIntent → ActionWorkItem → String → Work W L Flow
  unfolding fail_item
  deny intent current cause s =
      let t = final (
        on_ledger (ops.record_transition intent.idempotency_key circuit_denied (of_error cause))
          s.session) in
      (fail_item current "circuit_breaker_denied" >> return stop) (record s { session = t })

  -- One round of the loop over the intents.
  unfoldable pub process_intent : ActionIntent → ActionWorkItem → Work W L Flow
  unfolding after_execution deny
  process_intent intent current s =
      let executing = execute_intent gh ops (config_for intent) now intent s.session in
      if is_live intent
      then (elim (acquire cfg.repo s.breaker) [
        | fail e b ↦ deny intent current e (record s { breaker = b })
        | done slot b ↦ after_execution current executing (record s { breaker = release slot b })
      ])
      else after_execution current executing s

  -- The loop over the intents.
  unfoldable pub process_intents : List ActionIntent → ActionWorkItem → Work W L Flow
  unfolding process_intent
  process_intents [] current s = done proceed s
  process_intents (i ∷ rest) current s = elim (process_intent i current s) [
    | fail e t ↦ fail e t
    | done stop t ↦ done stop t
    | done proceed t ↦ process_intents rest current t
  ]

  abbrev pub moving : ActionWorkItem → ActionWorkItemState → String → Work W L ActionWorkItem
  moving item to reason = on_queue true (transition item.id cfg.worker_id item.state to reason)

  -- The four transitions at the end.
  unfoldable pub finish_item : ActionWorkItem → Work W L Bool
  finish_item current = do
    preflighted_item ← moving current preflighted "worker_preflighted"
    approved ← moving preflighted_item approved_for_execution "worker_approved"
    executed_item ← moving approved executed "worker_executed"
    _ ← moving executed_item verified "worker_verified"
    return true

  -- From the intents on, for an item that was claimed.
  unfoldable pub process_item : ActionWorkItem → List ActionIntent → Work W L Bool
  unfolding fail_item process_intents finish_item
  process_item claimed [] s =
      (fail_item claimed "missing_action_intent"
          >> throw (record { processed = true; cause = no_intents }))
        s
  process_item claimed (i ∷ rest) s = elim (process_intents (i ∷ rest) claimed s) [
    | fail e t ↦ fail e t
    | done stop t ↦ done true t
    | done proceed t ↦ finish_item claimed t
  ]

  -- The claimed item's intents are read; a failure marks the item as failed.
  unfoldable pub load_intents : ActionWorkItem → Work W L (List ActionIntent)
  unfolding fail_item
  load_intents claimed s =
      elim (on_queue {W = W} {L = L} true (get_intents cfg.repo claimed.id) s) [
        | done intents t ↦ done intents t
        | fail e t ↦ (fail_item claimed "load_intents_failed" >> throw e) t
      ]

  unfoldable pub process_offer : List ActionWorkItem → Work W L Bool
  unfolding load_intents process_item
  process_offer [] = return false
  process_offer (item ∷ rest) = do
    claimed ← on_queue false (claim item.id cfg.worker_id cfg.lease_ttl)
    intents ← load_intents claimed
    process_item claimed intents

  -- `ProcessOnce`.
  unfoldable pub process_once : Work W L Bool
  unfolding process_offer
  process_once = do
    items ← on_queue false (get_claimable cfg.repo ActionLane.unset (pos 1))
    process_offer items
