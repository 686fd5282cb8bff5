-- ===== src/Worker/Verified.antt =====
-- When `ProcessOnce` of internal/executor/worker.go marks an item as verified.
use pratc.Base.{
  ℕ, String, ◌≡◌, ◌⊎◌, refl, inl, inr, List, [], ◌∷◌, done, final, Outcome-cases, arith, subst, sym,
  pos, ◌&&◌, ◌>>=◌, str_eq, select, map, All-map,
}
use pratc.Model.Kinds.{ActionLane}
use pratc.Model.Records.{ActionWorkItem, ActionIntent}
use pratc.Queue.Store.{Queue, IntentRow}
use pratc.Queue.Leasing.{claim, get_claimable}
use pratc.Queue.Intake.{get_intents, order_intents}
use pratc.Executor.Ledger.{Ledger, IsLedger}
use pratc.Executor.Mutator.{Mutator}
use package.pratc.Worker.Rounds.{
  Executed, AllExecuted, process_intents-AllExecuted, process_intents-Same, load_intents-Same,
}
use package.pratc.Worker.Process.{
  WorkerConfig, WorkerState, proceed, stop, fail_item, process_intents, finish_item, process_item,
  load_intents, process_offer, process_once,
}
use package.pratc.Worker.Steady.{
  verified_rows, SameQueue, claim-Steady, transition-Steady, get_claimable-Steady,
}

module _ {W L : Type 0} (gh : Mutator W) (ops : Ledger L) (laws : IsLedger L ops)
    (cfg : WorkerConfig) (now : ℕ) where
  finish_item-session :
      (current : ActionWorkItem) (s : WorkerState W L)
      → (final (finish_item gh ops cfg now current s)).session ≡ s.session
  unfolding finish_item
  finish_item-session current s = ground arith

  -- Either no row of the log says verified that did not before, or the intents are all executed.
  abbrev Vouched : Queue → List ActionIntent → WorkerState W L → Type 0
  Vouched q intents t =
      (verified_rows t.queue.transitions ≡ verified_rows q.transitions)
      ⊎ ((i : ActionIntent) × (rest : List ActionIntent) × (intents ≡ i ∷ rest)
          × AllExecuted ops intents t)

  process_item-Vouched :
      (claimed : ActionWorkItem) (intents : List ActionIntent) (q : Queue) (s : WorkerState W L)
      → SameQueue q s.queue
      → Vouched q intents (final (process_item gh ops cfg now claimed intents s))
  unfolding process_item fail_item
  process_item-Vouched claimed [] q s h = inl (
      ground (
        arith,
        h,
        transition-Steady claimed.id cfg.worker_id claimed.state "missing_action_intent" s.queue,
      ))
  process_item-Vouched claimed (i ∷ rest) q s h =
      let kept = process_intents-Same gh ops laws cfg now q (i ∷ rest) claimed s h in
      elim (Outcome-cases (process_intents gh ops cfg now (i ∷ rest) claimed s)) [
        | inl (proceed, t, e) ↦ inr (
          i,
          rest,
          refl,
          let all = process_intents-AllExecuted gh ops laws cfg now (i ∷ rest) claimed s t e in
              let same : (final (process_item gh ops cfg now claimed (i ∷ rest) s)).session
                  ≡ t.session =
                ground (arith, finish_item-session claimed t) in
              All-map
                {Q = λ j.
                  Executed ops j.idempotency_key
                    (final (process_item gh ops cfg now claimed (i ∷ rest) s))}
                (λ j k. ground (arith, same)) (i ∷ rest) all,
        )
        | inl (stop, t, e) ↦ inl (ground (arith, kept))
        | inr (_, t, e) ↦ inl (ground (arith, kept))
      ]

  -- What the table holds for an item, in the order of GetIntentsForWorkItem.
  abbrev pub intents_of : String → List IntentRow → List ActionIntent
  intents_of id rows =
      map (λ r. r.payload)
        (order_intents (select (λ r. str_eq r.repo cfg.repo && str_eq r.work_item_id id) rows))

  loaded :
      (claimed : ActionWorkItem) (s t : WorkerState W L) (intents : List ActionIntent)
      → load_intents gh ops cfg now claimed s ≡ done intents t
      → intents ≡ intents_of claimed.id s.queue.intents
  unfolding load_intents get_intents fail_item
  loaded claimed s t intents h = ground arith

  abbrev pub Accounted : WorkerState W L → WorkerState W L → Type 0
  Accounted s t =
      (verified_rows t.queue.transitions ≡ verified_rows s.queue.transitions)
      ⊎ ((id : String) × (i : ActionIntent) × (rest : List ActionIntent) × (intents_of id
              s.queue.intents
            ≡ i ∷ rest)
          × AllExecuted ops (i ∷ rest) t)

  process_claimed-Accounted :
      (claimed : ActionWorkItem) (s u : WorkerState W L)
      → SameQueue s.queue u.queue
      → Accounted s
          (final ((load_intents gh ops cfg now claimed >>= process_item gh ops cfg now claimed) u))
  process_claimed-Accounted claimed s u h =
      let kept = load_intents-Same gh ops laws cfg now s.queue claimed u h in
      elim (Outcome-cases (load_intents gh ops cfg now claimed u)) [
        | inl (intents, t, e) ↦
            let same : SameQueue s.queue t.queue = ground (arith, kept) in
            let from = loaded claimed u t intents e in
            let same_end : (load_intents gh ops cfg now claimed
                    >>= process_item gh ops cfg now claimed)
                  u
                ≡ process_item gh ops cfg now claimed intents t =
              ground arith in
            elim (process_item-Vouched claimed intents s.queue t same) [
              | inl quiet ↦ inl (ground (arith, quiet))
              | inr (i, rest, shape, all) ↦ inr (
                claimed.id,
                i,
                rest,
                ground (arith, from, h),
                subst (λ o. AllExecuted ops (i ∷ rest) (final o)) (sym same_end)
                    (subst
                      (λ l.
                        AllExecuted ops l (final (process_item gh ops cfg now claimed intents t)))
                      shape all),
              )
            ]
        | inr (_, t, e) ↦ inl (ground (arith, kept))
      ]

  process_offer-Accounted :
      (items : List ActionWorkItem) (s u : WorkerState W L)
      → SameQueue s.queue u.queue
      → Accounted s (final (process_offer gh ops cfg now items u))
  unfolding process_offer
  process_offer-Accounted [] s u h = inl h.0
  process_offer-Accounted (item ∷ rest) s u h =
      let steady = claim-Steady item.id cfg.worker_id cfg.lease_ttl u.queue in
      elim (Outcome-cases (claim item.id cfg.worker_id cfg.lease_ttl u.queue)) [
        | inl (claimed, q, e) ↦
            let same_end : process_offer gh ops cfg now (item ∷ rest) u
                ≡ (load_intents gh ops cfg now claimed >>= process_item gh ops cfg now claimed)
                    (record u { queue = q }) =
              ground arith in
            subst (λ o. Accounted s (final o)) (sym same_end)
              (process_claimed-Accounted claimed s (record u { queue = q })
                (ground (arith, h, steady)))
        | inr (_, q, e) ↦ inl (ground (arith, h, steady))
      ]

  -- With a ledger that meets IsLedger, on every exit of ProcessOnce, either the log has no new row that
  -- marks an item as verified, or some item of the worker's repository has at least one intent stored, and
  -- the idempotency keys of all its intents are executed in the ledger at the end.
  pub process_once-Accounted :
      (s : WorkerState W L) → Accounted s (final (process_once gh ops cfg now s))
  unfolding process_once
  process_once-Accounted s =
      let listing = get_claimable cfg.repo ActionLane.unset (pos 1) in
      let steady = get_claimable-Steady cfg.repo ActionLane.unset (pos 1) s.queue in
      elim (Outcome-cases (listing s.queue)) [
        | inl (items, q, e) ↦
            let same_end : process_once gh ops cfg now s
                ≡ process_offer gh ops cfg now items (record s { queue = q }) =
              ground arith in
            subst (λ o. Accounted s (final o)) (sym same_end)
              (process_offer-Accounted items s (record s { queue = q }) (ground (arith, steady)))
        | inr (_, q, e) ↦ inl (ground (arith, steady))
      ]
