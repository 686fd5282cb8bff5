-- ===== src/Queue/Grants.antt =====
-- What Claim and Release of internal/workqueue/queue.go do when the database answers, state by state.
use pratc.Base.{
  ℕ, suc, ◌+◌, ◌<◌, ◌≤◌, String, false, ◌≢◌, ◌≡◌, refl, sym, ap, ◌∙◌, Option-cases, ◌∷◌, ℤ,
  pos_part, arith, inl, inr, str_eq_iff, some, done,
}
use pratc.Model.Kinds.{ActionWorkItemState, claimed, claimable, proposed, state_eq}
use pratc.Model.Records.{ActionWorkItem, blank, instant, no_lease}
use pratc.Queue.Store.{
  ItemRow, Queue, TransitionRow, find_item, update_item, upsert_item, saved, get_unlocked,
  save_unlocked, append_transition,
}
use pratc.Queue.Lease.{lease_expired, valid_transition}
use pratc.Queue.Rows.{find_item-update_item, find_item-upsert_item_self}
use pratc.Queue.Consistent.{InSync, find_item-RowInSync}
use pratc.Queue.Leasing.{claim, claimed_item, release, transition}
use pratc.Queue.Intake.{enqueue_item, upsert, enqueued, fresh_row}
use pratc.Queue.HeldRows.{IsHeld}

-- No statement of the database fails.
abbrev pub Reliable : Queue → Type 0
Reliable q = (n : ℕ) → q.fails n ≡ false

abbrev pub log_row :
    String → ActionWorkItemState → ActionWorkItemState → String → String → ℕ → TransitionRow
log_row id from to actor reason now = record {
  work_item_id = id;
  from_state = from;
  to_state = to;
  actor = actor;
  reason = reason;
  created_at = now;
}

-- Claiming a claimable item saves it under the caller's lease, and logs exactly that step.
claim_claimable :
    (id w : String) (ttl : ℤ) (q : Queue) (r : ItemRow)
    → Reliable q
    → find_item id q.items ≡ some r
    → r.payload.state ≡ claimable
    → w ≢ ""
    → 0 < pos_part ttl
    → let item = claimed_item r.payload w q.now ttl in
      claim id w ttl q
      ≡ done item (record q {
        items = update_item item q.now q.items;
        transitions = log_row id claimable claimed w "claim" q.now ∷ q.transitions;
        ticks = q.ticks + 3;
      })
unfolding claim get_unlocked save_unlocked append_transition
claim_claimable id w ttl q r ok found free named lasting =
    ground (arith, ok q.ticks, ok (suc q.ticks), ok (suc (suc q.ticks)), str_eq_iff w "")

-- Claiming an item whose lease another worker let expire logs two steps: `claimed -> claimable` by the
-- system and, on top, `claimed -> claimed` by the caller, which is no step that Transition allows.
pub claim_expired_log :
    (id w : String) (ttl : ℤ) (q : Queue) (r : ItemRow) (e : ℕ)
    → Reliable q
    → find_item id q.items ≡ some r
    → r.payload.state ≡ claimed
    → r.payload.lease_state.claimed_by ≢ w
    → r.payload.lease_state.expires_at ≡ instant e
    → e ≤ q.now
    → w ≢ ""
    → 0 < pos_part ttl
    → let item = claimed_item r.payload w q.now ttl in
      (claim id w ttl q
        ≡ done item (record q {
          items = update_item item q.now q.items;
          transitions =
              log_row id claimed claimed w "claim" q.now
              ∷ log_row id claimed claimable "system" "lease_expired_before_claim" q.now
              ∷ q.transitions;
          ticks = q.ticks + 4;
        }))
      × (valid_transition claimed claimed ≡ false)
unfolding claim get_unlocked save_unlocked append_transition lease_expired valid_transition state_eq
claim_expired_log id w ttl q r e ok found held other until over named lasting = (
  ground (
    arith,
    ok q.ticks,
    ok (suc q.ticks),
    ok (suc (suc q.ticks)),
    ok (suc (suc (suc q.ticks))),
    str_eq_iff w "",
    str_eq_iff r.payload.lease_state.claimed_by w,
  ),
  refl,
)

-- A lease that was cleared reads as expired, so Claim takes an item in any state but `claimed` that has
-- no lease, finished and cancelled items too: it becomes claimed, whatever `valid_transition` says.
claim_without_lease :
    (id w : String) (ttl : ℤ) (q : Queue) (r : ItemRow)
    → Reliable q
    → find_item id q.items ≡ some r
    → r.payload.state ≢ claimed
    → r.payload.lease_state.expires_at ≡ blank
    → w ≢ ""
    → 0 < pos_part ttl
    → let item = claimed_item r.payload w q.now ttl in
      claim id w ttl q
      ≡ done item (record q {
        items = update_item item q.now q.items;
        transitions = log_row id r.payload.state claimed w "claim" q.now ∷ q.transitions;
        ticks = q.ticks + 3;
      })
unfolding claim get_unlocked save_unlocked append_transition lease_expired
claim_without_lease id w ttl q r ok found free cleared named lasting =
    ground (arith, ok q.ticks, ok (suc q.ticks), ok (suc (suc q.ticks)), str_eq_iff w "")

-- What a successful Transition leaves in the table.
transition-found :
    (id actor : String) (from to : ActionWorkItemState) (reason : String) (q q' : Queue)
    (moved : ActionWorkItem)
    → InSync q
    → transition id actor from to reason q ≡ done moved q'
    → (r : ItemRow) × (find_item id q'.items ≡ some (saved moved q.now r))
      × (moved.state ≡ to)
      × (to ≢ claimed → moved.lease_state ≡ no_lease)
      × (q'.fails ≡ q.fails)
unfolding transition get_unlocked save_unlocked append_transition
transition-found id actor from to reason q q' moved sync went =
    elim (Option-cases (find_item id q.items)) [
      | inl missing ↦ absurd (ground arith)
      | inr (r, found) ↦
          let (row, key) = find_item-RowInSync id q.items r sync found in
          let lookup : find_item id q'.items ≡ some (saved moved q.now r) =
            ground (arith, str_eq_iff moved.id id, find_item-update_item id moved q.now q.items) in
          (r, lookup, ground arith, ground arith, ground arith)
    ]

-- So a successful Transition out of the queue does not last: whatever state other than `claimed` it set,
-- any worker may claim the item afterwards.
pub claim-transition :
    (id actor w : String) (from to : ActionWorkItemState) (reason : String) (ttl : ℤ) (q q' : Queue)
    (moved : ActionWorkItem)
    → Reliable q
    → InSync q
    → transition id actor from to reason q ≡ done moved q'
    → to ≢ claimed
    → w ≢ ""
    → 0 < pos_part ttl
    → (t : Queue) × (claim id w ttl q' ≡ done (claimed_item moved w q'.now ttl) t)
claim-transition id actor w from to reason ttl q q' moved ok sync went out named lasting =
    let (r, found, state, cleared, same) =
      transition-found id actor from to reason q q' moved sync went in
    let ok' : Reliable q' = λ n. ap (λ f. f n) same ∙ ok n in
    (
      _,
      claim_without_lease id w ttl q' (saved moved q.now r) ok' found (λ e. out (sym state ∙ e))
          (ap (λ l. l.expires_at) (cleared out)) named lasting,
    )

-- Release of an item under the caller's own lease gives it back: claimable, with no lease, logged.
release_own :
    (id w : String) (q : Queue) (r : ItemRow)
    → Reliable q
    → find_item id q.items ≡ some r
    → r.payload.state ≡ claimed
    → r.payload.lease_state.claimed_by ≡ w
    → let free = record (r.payload) { state = claimable; lease_state = no_lease } in
      release id w q
      ≡ done free (record q {
        items = update_item free q.now q.items;
        transitions = log_row id claimed claimable w "release" q.now ∷ q.transitions;
        ticks = q.ticks + 3;
      })
unfolding release get_unlocked save_unlocked append_transition
release_own id w q r ok found held mine = ground (
  arith,
  ok q.ticks,
  ok (suc q.ticks),
  ok (suc (suc q.ticks)),
  str_eq_iff r.payload.lease_state.claimed_by w,
)

-- Planning an item again clears its lease, whoever holds it: after EnqueueActionPlan has stored it,
-- another worker's claim succeeds although the first lease has not run out.
claim-enqueue_item :
    (repo w x : String) (item : ActionWorkItem) (e : ℕ) (ttl : ℤ) (q : Queue)
    → Reliable q
    → IsHeld w e (find_item item.id q.items)
    → q.now < e
    → x ≢ w
    → item.id ≢ ""
    → repo ≢ ""
    → x ≢ ""
    → 0 < pos_part ttl
    → (q' t : Queue) × (enqueue_item repo item q ≡ done tt q')
      × (q'.now ≡ q.now)
      × (claim item.id x ttl q' ≡ done (claimed_item (enqueued item) x q.now ttl) t)
unfolding enqueue_item upsert append_transition
claim-enqueue_item repo w x item e ttl q ok held live other given at named lasting =
    let (t, found) = find_item-upsert_item_self (fresh_row repo (enqueued item) q.now) q.items in
    let q' : Queue = record q {
      items = upsert_item (fresh_row repo (enqueued item) q.now) q.items;
      transitions =
          log_row item.id proposed claimable "system" "enqueue_action_plan" q.now ∷ q.transitions;
      ticks = suc (suc q.ticks);
    } in
    (
      q',
      _,
      ground (arith, ok q.ticks, ok (suc q.ticks), str_eq_iff item.id "", str_eq_iff repo ""),
      refl,
      claim_claimable item.id x ttl q'
          (record (fresh_row repo (enqueued item) q.now) { created_at = t }) ok found refl named
          lasting,
    )
