-- ===== src/Queue/Held.antt =====
-- What each operation of internal/workqueue/queue.go leaves of a lease that somebody else holds.
use pratc.Base.{
  ◌⊎◌, ℕ, suc, ◌<◌, String, ◌≢◌, ◌≡◌, Bool-cases, Option-cases, List, [], ◌∷◌, ℤ, All, arith, inl,
  inr, subst, str_eq, str_eq_iff, sym, final, Outcome-cases, for_each_keeps_all,
}
use pratc.Model.Kinds.{ActionLane, ActionWorkItemState, claimable, claimed, state_eq_iff}
use pratc.Model.Records.{ActionWorkItem, ActionIntent, ActionPlan, ProofBundle, no_lease}
use pratc.Queue.Store.{ItemRow, Queue, find_item, get_unlocked, save_unlocked, append_transition}
use pratc.Queue.Lease.{lease_expired}
use pratc.Queue.Consistent.{Consistent, DistinctIds, RowInSync}
use pratc.Queue.Leasing.{
  claim, claimed_item, release, heartbeat, transition, expire_item, expired_items, expire_leases,
  get_claimable,
}
use pratc.Queue.Intake.{
  upsert, upsert_intent, enqueued, enqueue_item, enqueue_intents, enqueue_action_plan,
}
use pratc.Queue.Evidence.{attach_proof, attach_new, attach_existing, get_proof}
use pratc.Queue.HeldRows.{
  IsHeld, HeldIn, found-Held, save-Held, save-Held_same, away_from, upsert-Held_row,
}

module _ (id w : String) (e n : ℕ) (live : n < e) where
  -- At time `n`, before `e`, `w` holds the item `id` until `e`.
  abbrev pub Held : Queue → Type 0
  Held q = (q.now ≡ n) × HeldIn id w e q.items

  pub claim-Held :
      (i x : String) (ttl : ℤ) (q : Queue) → x ≢ w → Held q → Held (final (claim i x ttl q))
  unfolding claim get_unlocked save_unlocked append_transition lease_expired
  claim-Held i x ttl q other h = elim (Option-cases (find_item i q.items)) [
    | inl missing ↦ ground arith
    | inr (r, found) ↦ elim (found-Held id w e i q.items r h.1 found) [
      | inl away ↦
          ground
            (arith, save-Held id w e (claimed_item r.payload x q.now ttl) q.now q.items away h.1)
      | inr mine ↦ ground (arith, str_eq_iff r.payload.lease_state.claimed_by x)
    ]
  ]

  pub release-Held : (i x : String) (q : Queue) → x ≢ w → Held q → Held (final (release i x q))
  unfolding release get_unlocked save_unlocked append_transition
  release-Held i x q other h = elim (Option-cases (find_item i q.items)) [
    | inl missing ↦ ground arith
    | inr (r, found) ↦ elim (found-Held id w e i q.items r h.1 found) [
      | inl away ↦ ground (
        arith,
        save-Held id w e (record (r.payload) { state = claimable; lease_state = no_lease }) q.now
            q.items away h.1,
      )
      | inr mine ↦ ground (arith, str_eq_iff r.payload.lease_state.claimed_by x)
    ]
  ]

  pub heartbeat-Held :
      (i x : String) (ttl : ℤ) (q : Queue) → x ≢ w → Held q → Held (final (heartbeat i x ttl q))
  unfolding heartbeat get_unlocked save_unlocked
  heartbeat-Held i x ttl q other h = elim (Option-cases (find_item i q.items)) [
    | inl missing ↦ ground arith
    | inr (r, found) ↦ elim (found-Held id w e i q.items r h.1 found) [
      | inl away ↦ grind (arith, save-Held id w e)
      | inr mine ↦ ground (arith, str_eq_iff r.payload.lease_state.claimed_by x)
    ]
  ]

  pub transition-Held :
      (i actor : String) (from to : ActionWorkItemState) (reason : String) (q : Queue)
      → (i ≢ id) ⊎ (from ≢ claimed)
      → Held q
      → Held (final (transition i actor from to reason q))
  unfolding transition get_unlocked save_unlocked append_transition
  transition-Held i actor from to reason q other h = elim (Option-cases (find_item i q.items)) [
    | inl missing ↦ ground arith
    | inr (r, found) ↦ elim (found-Held id w e i q.items r h.1 found) [
      | inl away ↦ grind (arith, save-Held id w e)
      | inr mine ↦ elim other [
        | inl elsewhere ↦
            let away : r.payload.id ≢ id = away_from id w e i q.items r elsewhere h.1 found in
            grind (arith, save-Held id w e)
        | inr unclaimed ↦ ground (arith, mine.0, state_eq_iff r.payload.state from)
      ]
    ]
  ]

  pub attach_proof-Held :
      (i x : String) (bundle : ProofBundle) (q : Queue)
      → x ≢ w
      → Held q
      → Held (final (attach_proof i x bundle q))
  unfolding attach_proof attach_existing attach_new get_proof get_unlocked save_unlocked
      append_transition
  attach_proof-Held i x bundle q other h = elim (Option-cases (find_item i q.items)) [
    | inl missing ↦ ground arith
    | inr (r, found) ↦ elim (found-Held id w e i q.items r h.1 found) [
      | inl away ↦ grind (arith, save-Held id w e)
      | inr mine ↦
          grind (arith, save-Held_same id w e, str_eq_iff r.payload.lease_state.claimed_by x)
    ]
  ]

  pub upsert-Held :
      (repo : String) (item : ActionWorkItem) (q : Queue)
      → item.id ≢ id
      → Held q
      → Held (final (upsert repo item q))
  unfolding upsert
  upsert-Held repo item q other h = grind (arith, upsert-Held_row id w e)

  pub upsert_intent-Held :
      (repo : String) (intent : ActionIntent) (k : ℕ) (q : Queue)
      → Held q
      → Held (final (upsert_intent repo intent k q))
  unfolding upsert_intent
  upsert_intent-Held repo intent k q h = ground arith

  expire_item-Held :
      (item : ActionWorkItem) (q : Queue)
      → item.id ≢ id
      → Held q
      → Held (final (expire_item item q))
  unfolding expire_item save_unlocked append_transition
  expire_item-Held item q away h = grind (arith, save-Held id w e)

  expired_items-away :
      (rows : List ItemRow)
      → All RowInSync rows
      → All (λ r. r.id ≢ id) rows
      → All (λ item. item.id ≢ id) (expired_items n rows)
  unfolding expired_items
  expired_items-away [] sync away = tt
  expired_items-away (r ∷ rs) sync away = ground (arith, expired_items-away rs sync.1 away.1)

  -- ExpireLeases does not collect the held item.
  expired_items-Held :
      (rows : List ItemRow)
      → All RowInSync rows
      → DistinctIds rows
      → IsHeld w e (find_item id rows)
      → All (λ item. item.id ≢ id) (expired_items n rows)
  unfolding find_item expired_items lease_expired
  expired_items-Held [] sync keys held = tt
  expired_items-Held (r ∷ rs) sync keys held = elim (Bool-cases (str_eq r.id id)) [
    | inl hit ↦
        let others : All (λ s. s.id ≢ id) rs =
          subst (λ j. All (λ s. s.id ≢ j) rs) ((str_eq_iff r.id id).0 hit) keys.0 in
        ground (arith, expired_items-away rs sync.1 others)
    | inr miss ↦ ground (arith, str_eq_iff r.id id, expired_items-Held rs sync.1 keys.1)
  ]

  pub expire_leases-Held : (q : Queue) → Held q → Held (final (expire_leases q))
  unfolding expire_leases HeldIn Consistent
  expire_leases-Held q h =
      let q' = record q { ticks = suc q.ticks } in
      let away : All (λ item. item.id ≢ id) (expired_items q.now q.items) =
        subst (λ t. All (λ item. item.id ≢ id) (expired_items t q.items)) (sym h.0)
          (expired_items-Held q.items h.1.0.0 h.1.0.1 h.1.1) in
      ground (
        arith,
        for_each_keeps_all Held (λ item. item.id ≢ id) expire_item
            (λ item s a k. expire_item-Held item s a k) (expired_items q.now q.items) q' away h,
      )

  pub get_claimable-Held :
      (repo : String) (lane : ActionLane) (limit : ℤ) (q : Queue)
      → Held q
      → Held (final (get_claimable repo lane limit q))
  unfolding get_claimable
  get_claimable-Held repo lane limit q h = ground (arith, expire_leases-Held q h)

  enqueue_item-Held :
      (repo : String) (item : ActionWorkItem) (q : Queue)
      → item.id ≢ id
      → Held q
      → Held (final (enqueue_item repo item q))
  unfolding enqueue_item append_transition
  enqueue_item-Held repo item q other h = ground (arith, upsert-Held repo (enqueued item) q other h)

  enqueue_intents-Held :
      (repo : String) (k : ℕ) (intents : List ActionIntent) (q : Queue)
      → Held q
      → Held (final (enqueue_intents repo k intents q))
  unfolding enqueue_intents
  enqueue_intents-Held repo k [] q h = h
  enqueue_intents-Held repo k (intent ∷ rest) q h =
      elim (Outcome-cases (upsert_intent repo intent k q)) [
        | inl (_, t, e) ↦
            rw (e, enqueue_intents)
              (enqueue_intents-Held repo (suc k) rest t
                (subst (λ o. Held (final o)) e (upsert_intent-Held repo intent k q h)))
        | inr (_, t, e) ↦
            rw (e, enqueue_intents)
              (subst (λ o. Held (final o)) e (upsert_intent-Held repo intent k q h))
      ]

  pub enqueue_action_plan-Held :
      (plan : ActionPlan) (q : Queue)
      → All (λ item. item.id ≢ id) plan.work_items
      → Held q
      → Held (final (enqueue_action_plan plan q))
  unfolding enqueue_action_plan
  enqueue_action_plan-Held plan q others h = grind (
    arith,
    enqueue_intents-Held,
    for_each_keeps_all Held (λ item. item.id ≢ id) (enqueue_item plan.repo)
        (λ item s a k. enqueue_item-Held plan.repo item s a k) plan.work_items q others h,
  )
