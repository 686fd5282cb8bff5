-- ===== src/Queue/Columns.antt =====
-- Every operation of the work queue keeps the invariant of `action_work_items`.
use pratc.Base.{
  ℕ, String, List, [], ◌∷◌, ℤ, arith, inl, inr, subst, for_each_keeps, suc, Outcome-cases, final,
}
use pratc.Model.Kinds.{ActionWorkItemState, ActionLane}
use pratc.Model.Records.{ActionWorkItem, ActionIntent, ActionPlan, ProofBundle}
use pratc.Queue.Store.{Queue, get_unlocked, save_unlocked, append_transition}
use pratc.Queue.Leasing.{
  claim, release, heartbeat, transition, expired_items, expire_item, expire_leases, get_claimable,
}
use pratc.Queue.Intake.{upsert, upsert_intent, enqueue_item, enqueue_intents, enqueue_action_plan}
use pratc.Queue.Evidence.{attach_proof, attach_new, attach_existing, get_proof}
use pratc.Queue.System.{
  Call, upserts, upserts_intent, enqueues, claims, releases, heartbeats, transitions_to, attaches,
  expires, lists, waits, step, run, run_keeps,
}
use pratc.Queue.Consistent.{InSync, update_item-InSync, upsert_item-InSync}

module _ (id worker : String) (q : Queue) (h : InSync q) where
  pub claim-InSync : (ttl : ℤ) → InSync (final (claim id worker ttl q))
  unfolding claim get_unlocked save_unlocked append_transition
  claim-InSync ttl = grind (arith, update_item-InSync)

  pub release-InSync : InSync (final (release id worker q))
  unfolding release get_unlocked save_unlocked append_transition
  release-InSync = grind (arith, update_item-InSync)

  pub heartbeat-InSync : (ttl : ℤ) → InSync (final (heartbeat id worker ttl q))
  unfolding heartbeat get_unlocked save_unlocked
  heartbeat-InSync ttl = grind (arith, update_item-InSync)

  pub transition-InSync :
      (from to : ActionWorkItemState) (reason : String)
      → InSync (final (transition id worker from to reason q))
  unfolding transition get_unlocked save_unlocked append_transition
  transition-InSync from to reason = grind (arith, update_item-InSync)

  pub attach_proof-InSync :
      (bundle : ProofBundle) → InSync (final (attach_proof id worker bundle q))
  unfolding attach_proof attach_new attach_existing get_proof get_unlocked save_unlocked
      append_transition
  attach_proof-InSync bundle = grind (arith, update_item-InSync)

expire_item-InSync :
    (item : ActionWorkItem) (q : Queue) → InSync q → InSync (final (expire_item item q))
unfolding expire_item save_unlocked append_transition
expire_item-InSync item q h = grind (arith, update_item-InSync)

upsert-InSync :
    (repo : String) (item : ActionWorkItem) (q : Queue)
    → InSync q
    → InSync (final (upsert repo item q))
unfolding upsert
upsert-InSync repo item q h = grind (arith, upsert_item-InSync)

enqueue_item-InSync :
    (repo : String) (item : ActionWorkItem) (q : Queue)
    → InSync q
    → InSync (final (enqueue_item repo item q))
unfolding enqueue_item upsert append_transition
enqueue_item-InSync repo item q h = grind (arith, upsert_item-InSync)

upsert_intent-InSync :
    (repo : String) (intent : ActionIntent) (n : ℕ) (q : Queue)
    → InSync q
    → InSync (final (upsert_intent repo intent n q))
unfolding upsert_intent
upsert_intent-InSync repo intent n q h = ground arith

enqueue_intents-InSync :
    (repo : String) (n : ℕ) (intents : List ActionIntent) (q : Queue)
    → InSync q
    → InSync (final (enqueue_intents repo n intents q))
unfolding enqueue_intents
enqueue_intents-InSync repo n [] q h = h
enqueue_intents-InSync repo n (intent ∷ rest) q h =
    elim (Outcome-cases (upsert_intent repo intent n q)) [
      | inl (_, t, e) ↦
          rw (e, enqueue_intents)
            (enqueue_intents-InSync repo (suc n) rest t
              (subst (λ o. InSync (final o)) e (upsert_intent-InSync repo intent n q h)))
      | inr (_, t, e) ↦
          rw (e, enqueue_intents)
            (subst (λ o. InSync (final o)) e (upsert_intent-InSync repo intent n q h))
    ]

pub expire_leases-InSync : (q : Queue) → InSync q → InSync (final (expire_leases q))
unfolding expire_leases
expire_leases-InSync q h =
    let q' = record q { ticks = suc q.ticks } in
    ground (
      arith,
      for_each_keeps InSync expire_item expire_item-InSync (expired_items q.now q.items) q' h,
    )

get_claimable-InSync :
    (repo : String) (lane : ActionLane) (limit : ℤ) (q : Queue)
    → InSync q
    → InSync (final (get_claimable repo lane limit q))
unfolding get_claimable
get_claimable-InSync repo lane limit q h = ground (arith, expire_leases-InSync q h)

enqueue_action_plan-InSync :
    (plan : ActionPlan) (q : Queue) → InSync q → InSync (final (enqueue_action_plan plan q))
unfolding enqueue_action_plan
enqueue_action_plan-InSync plan q h = grind (
  arith,
  enqueue_intents-InSync,
  for_each_keeps InSync (enqueue_item plan.repo) (enqueue_item-InSync plan.repo) plan.work_items q
      h,
)

-- Every call keeps the columns of each row equal to its payload's id, state and lease.
step-InSync : (c : Call) (q : Queue) → InSync q → InSync (step c q)
unfolding step
step-InSync (upserts repo item) q h = upsert-InSync repo item q h
step-InSync (upserts_intent repo intent n) q h = upsert_intent-InSync repo intent n q h
step-InSync (enqueues plan) q h = enqueue_action_plan-InSync plan q h
step-InSync (claims id worker ttl) q h = claim-InSync id worker q h ttl
step-InSync (releases id worker) q h = release-InSync id worker q h
step-InSync (heartbeats id worker ttl) q h = heartbeat-InSync id worker q h ttl
step-InSync (transitions_to id actor from to reason) q h =
    transition-InSync id actor q h from to reason
step-InSync (attaches id worker bundle) q h = attach_proof-InSync id worker q h bundle
step-InSync expires q h = expire_leases-InSync q h
step-InSync (lists repo lane limit) q h = get_claimable-InSync repo lane limit q h
step-InSync (waits d) q h = h

-- After any sequence of calls, failed statements included, the columns of each row of the item table
-- equal the id, the state and the lease of its JSON payload, if they did at the start.
pub run-InSync : (cs : List Call) (q : Queue) → InSync q → InSync (run cs q)
run-InSync cs q h = run_keeps InSync step-InSync cs q h
