-- ===== src/Worker/Exits.antt =====
-- What every exit of `ProcessOnce` of internal/executor/worker.go keeps, if the queue's calls and the
-- intents' rounds keep it.
use pratc.Base.{
  ℕ, String, Bool, true, false, List, [], ◌∷◌, inl, inr, Outcome, done, fail, ◌>>=◌, ◌>>◌, final,
  throw, Outcome-cases, arith, pos, return,
}
use pratc.Model.Kinds.{
  ActionLane, ActionWorkItemState, preflighted, approved_for_execution, executed, verified, failed,
}
use pratc.Model.Records.{ActionWorkItem, ActionIntent, ExecutionResult}
use pratc.Queue.Store.{Queue, Op}
use pratc.Queue.Leasing.{claim, transition, get_claimable}
use pratc.Queue.Intake.{get_intents}
use pratc.Executor.Ledger.{Ledger, circuit_denied, of_error}
use pratc.Executor.Mutator.{Mutator}
use pratc.Executor.Session.{Session, on_ledger}
use pratc.Executor.Perform.{Failure}
use package.pratc.Worker.Process.{
  WorkerConfig, WorkerState, no_intents, execution, Work, or_worker_failed, proceed, stop, on_queue,
  ignoring, fail_item, after_execution, deny, process_intent, process_intents, moving, finish_item,
  process_item, load_intents, process_offer, process_once,
}

module _ {W L : Type 0} (P : WorkerState W L → Type 0) where
  -- A call that keeps P on every exit.
  abbrev pub Keeps : {A : Type 0} → Work W L A → Type 0
  Keeps m = (s : WorkerState W L) → P s → P (final (m s))

  bind-Keeps :
      {A B : Type 0} (m : Work W L A) (f : A → Work W L B)
      → Keeps m
      → ((a : A) → Keeps (f a))
      → Keeps (m >>= f)
  bind-Keeps m f first rest s h = elim (Outcome-cases (m s)) [
    | inl (a, t, e) ↦ ground (arith, first s h, rest a t)
    | inr (_, t, e) ↦ ground (arith, first s h)
  ]

  seq-Keeps :
      {B : Type 0} (m : Work W L (Unit {0})) (k : Work W L B) → Keeps m → Keeps k → Keeps (m >> k)
  seq-Keeps m k first rest s h = elim (Outcome-cases (m s)) [
    | inl (_, t, e) ↦ ground (arith, first s h, rest t)
    | inr (_, t, e) ↦ ground (arith, first s h)
  ]

  -- A call of the queue that keeps P.
  abbrev pub Free : {A : Type 0} → Op A → Type 0
  Free m = (s : WorkerState W L) → P s → P (record s { queue = final (m s.queue) })

  pub on_queue-Keeps :
      {A : Type 0} (processed : Bool) (m : Op A)
      → Free m
      → Keeps (on_queue {W = W} {L = L} processed m)
  on_queue-Keeps processed m free s h = elim (Outcome-cases (m s.queue)) [
    | inl (_, q, e) ↦ ground (arith, free s h)
    | inr (_, q, e) ↦ ground (arith, free s h)
  ]

  ignoring-Keeps : {A : Type 0} (m : Work W L A) → Keeps m → Keeps (ignoring m)
  ignoring-Keeps m kept s h = elim (Outcome-cases (m s)) [
    | inl (_, t, e) ↦ ground (arith, kept s h)
    | inr (_, t, e) ↦ ground (arith, kept s h)
  ]

  module _ (gh : Mutator W) (ops : Ledger L) (cfg : WorkerConfig) (now : ℕ)
      (fails : (id actor : String) (from : ActionWorkItemState) (reason : String)
        → Free (transition id actor from failed reason)) where
    fail_item-Keeps :
        (item : ActionWorkItem) (reason : String) → Keeps (fail_item gh ops cfg now item reason)
    unfolding fail_item
    fail_item-Keeps item reason =
        ignoring-Keeps (moving gh ops cfg now item failed (or_worker_failed reason)) (
          on_queue-Keeps true
            (transition item.id cfg.worker_id item.state failed (or_worker_failed reason))
            (fails item.id cfg.worker_id item.state (or_worker_failed reason)))

    failing-Keeps :
        {B : Type 0} (item : ActionWorkItem) (reason : String) (k : Work W L B)
        → Keeps k
        → Keeps (fail_item gh ops cfg now item reason >> k)
    failing-Keeps item reason k =
        seq-Keeps (fail_item gh ops cfg now item reason) k (fail_item-Keeps item reason)

    -- The rest of a round, from the session that the execution reached.
    pub after_execution-Keeps :
        (current : ActionWorkItem) (o : Outcome (Session W L) Failure ExecutionResult)
        (s : WorkerState W L)
        → P (record s { session = final o })
        → P (final (after_execution gh ops cfg now current o s))
    unfolding after_execution
    after_execution-Keeps current (fail e t) s h =
        failing-Keeps current e.result.error
          (throw (record { processed = true; cause = execution e.cause })) (λ u k. k)
          (record s { session = t }) h
    after_execution-Keeps current (done result t) s h = ground (
      arith,
      failing-Keeps current "intent_not_executed" (λ u. done stop u) (λ u k. k)
          (record s { session = t }) h,
    )

    pub deny-Keeps :
        (intent : ActionIntent) (current : ActionWorkItem) (cause : String) (s : WorkerState W L)
        → P (record s {
          session = final (
              on_ledger
                (ops.record_transition intent.idempotency_key circuit_denied (of_error cause))
                s.session);
        })
        → P (final (deny gh ops cfg now intent current cause s))
    unfolding deny
    deny-Keeps intent current cause s h =
        failing-Keeps current "circuit_breaker_denied" (λ u. done stop u) (λ u k. k)
          (record s {
            session = final (
                on_ledger
                  (ops.record_transition intent.idempotency_key circuit_denied (of_error cause))
                  s.session);
          })
          h

    pub load_intents-Keeps :
        (loads : (repo id : String) → Free (get_intents repo id)) (claimed : ActionWorkItem)
        → Keeps (load_intents gh ops cfg now claimed)
    unfolding load_intents
    load_intents-Keeps loads claimed s h =
        let loading = on_queue {W = W} {L = L} true (get_intents cfg.repo claimed.id) in
        let kept =
          on_queue-Keeps true (get_intents cfg.repo claimed.id) (loads cfg.repo claimed.id) s h in
        elim (Outcome-cases (loading s)) [
          | inl (intents, t, e) ↦ ground (arith, kept)
          | inr (err, t, e) ↦ ground (
            arith,
            kept,
            failing-Keeps claimed "load_intents_failed" (throw {A = List ActionIntent} err)
                (λ u k. k) t,
          )
        ]

    module _
        (rounds : (intent : ActionIntent) (current : ActionWorkItem)
          → Keeps (process_intent gh ops cfg now intent current)) where
      pub process_intents-Keeps :
          (intents : List ActionIntent) (current : ActionWorkItem)
          → Keeps (process_intents gh ops cfg now intents current)
      unfolding process_intents
      process_intents-Keeps [] current s h = h
      process_intents-Keeps (i ∷ rest) current s h =
          elim (Outcome-cases (process_intent gh ops cfg now i current s)) [
            | inl (proceed, t, e) ↦
                ground (arith, rounds i current s h, process_intents-Keeps rest current t)
            | inl (stop, t, e) ↦ ground (arith, rounds i current s h)
            | inr (_, t, e) ↦ ground (arith, rounds i current s h)
          ]

  module _ (gh : Mutator W) (ops : Ledger L) (cfg : WorkerConfig) (now : ℕ)
      (queue_free : (s : WorkerState W L) (q : Queue) → P s → P (record s { queue = q })) where
    abbrev free : {A : Type 0} (m : Op A) → Free m
    free m s h = queue_free s (final (m s.queue)) h

    abbrev pub fails_free :
        (id actor : String) (from : ActionWorkItemState) (reason : String)
        → Free (transition id actor from failed reason)
    fails_free id actor from reason = free (transition id actor from failed reason)

    module _
        (rounds : (intent : ActionIntent) (current : ActionWorkItem)
          → Keeps (process_intent gh ops cfg now intent current)) where
      moving-Keeps :
          (item : ActionWorkItem) (to : ActionWorkItemState) (reason : String)
          → Keeps (moving gh ops cfg now item to reason)
      moving-Keeps item to reason =
          on_queue-Keeps true (transition item.id cfg.worker_id item.state to reason)
            (free (transition item.id cfg.worker_id item.state to reason))

      abbrev verify : ActionWorkItem → Work W L Bool
      verify d = moving gh ops cfg now d verified "worker_verified" >>= λ _. return true

      abbrev execute : ActionWorkItem → Work W L Bool
      execute c = moving gh ops cfg now c executed "worker_executed" >>= verify

      abbrev approve : ActionWorkItem → Work W L Bool
      approve b = moving gh ops cfg now b approved_for_execution "worker_approved" >>= execute

      finish_item-Keeps : (current : ActionWorkItem) → Keeps (finish_item gh ops cfg now current)
      unfolding finish_item
      finish_item-Keeps current =
          bind-Keeps (moving gh ops cfg now current preflighted "worker_preflighted") approve
            (moving-Keeps current preflighted "worker_preflighted")
            (λ b.
              bind-Keeps (moving gh ops cfg now b approved_for_execution "worker_approved") execute
                (moving-Keeps b approved_for_execution "worker_approved")
                (λ c.
                  bind-Keeps (moving gh ops cfg now c executed "worker_executed") verify
                    (moving-Keeps c executed "worker_executed")
                    (λ d.
                      bind-Keeps (moving gh ops cfg now d verified "worker_verified")
                        (λ _. return true) (moving-Keeps d verified "worker_verified")
                        (λ _ s h. h))))

      process_item-Keeps :
          (claimed : ActionWorkItem) (intents : List ActionIntent)
          → Keeps (process_item gh ops cfg now claimed intents)
      unfolding process_item
      process_item-Keeps claimed [] s h =
          failing-Keeps gh ops cfg now fails_free claimed "missing_action_intent"
            (throw (record { processed = true; cause = no_intents })) (λ u k. k) s h
      process_item-Keeps claimed (i ∷ rest) s h =
          elim (Outcome-cases (process_intents gh ops cfg now (i ∷ rest) claimed s)) [
            | inl (proceed, t, e) ↦ ground (
              arith,
              process_intents-Keeps gh ops cfg now fails_free rounds (i ∷ rest) claimed s h,
              finish_item-Keeps claimed t,
            )
            | inl (stop, t, e) ↦ ground (
              arith,
              process_intents-Keeps gh ops cfg now fails_free rounds (i ∷ rest) claimed s h,
            )
            | inr (_, t, e) ↦ ground (
              arith,
              process_intents-Keeps gh ops cfg now fails_free rounds (i ∷ rest) claimed s h,
            )
          ]

      process_offer-Keeps :
          (items : List ActionWorkItem) → Keeps (process_offer gh ops cfg now items)
      unfolding process_offer
      process_offer-Keeps [] s h = h
      process_offer-Keeps (item ∷ rest) s h =
          let claiming = claim item.id cfg.worker_id cfg.lease_ttl in
          bind-Keeps (on_queue {W = W} {L = L} false claiming)
            (λ claimed. load_intents gh ops cfg now claimed >>= process_item gh ops cfg now claimed)
            (on_queue-Keeps false claiming (free claiming))
            (λ claimed.
              bind-Keeps (load_intents gh ops cfg now claimed) (process_item gh ops cfg now claimed)
                (load_intents-Keeps gh ops cfg now fails_free
                  (λ repo id. free (get_intents repo id)) claimed)
                (process_item-Keeps claimed))
            s h

      pub process_once-Keeps : Keeps (process_once gh ops cfg now)
      unfolding process_once
      process_once-Keeps =
          let listing = get_claimable cfg.repo ActionLane.unset (pos 1) in
          bind-Keeps (on_queue {W = W} {L = L} false listing) (process_offer gh ops cfg now)
            (on_queue-Keeps false listing (free listing)) process_offer-Keeps
