-- ===== src/Queue/Exclusion.antt =====
-- The lease excludes: what takes an item from its holder while it lasts, and what does not.
use pratc.Base.{
  ℕ, suc, ◌+◌, ◌<◌, String, ◌≢◌, ◌≡◌, refl, if◌then◌else◌, Option-cases, List, [], ◌∷◌, ℤ, pos_part,
  All, arith, inl, inr, subst, str_eq_iff, some, done, fail, ◌⊎◌,
}
use pratc.Model.Kinds.{claimed}
use pratc.Model.Records.{ActionWorkItem}
use pratc.Queue.Store.{
  Queue, not_claimable, database, find_item, get_unlocked, save_unlocked, append_transition,
}
use pratc.Queue.Lease.{lease_expired}
use pratc.Queue.Rows.{find_item-update_item}
use pratc.Queue.Consistent.{InSync, find_item-RowInSync, update_item-InSync}
use pratc.Queue.Leasing.{claim, claimed_item}
use pratc.Queue.System.{
  Call, upserts, upserts_intent, enqueues, claims, releases, heartbeats, transitions_to, attaches,
  expires, lists, waits, step, run,
}
use pratc.Queue.HeldRows.{IsHeld, HeldIn}
use pratc.Queue.Held.{
  Held, claim-Held, release-Held, heartbeat-Held, transition-Held, attach_proof-Held, upsert-Held,
  upsert_intent-Held, expire_leases-Held, get_claimable-Held, enqueue_action_plan-Held,
}

-- A call that does not act for the worker `w`, nor sets the item `id` by force: Upsert, EnqueueActionPlan and
-- a Transition out of the state claimed overwrite it whoever holds it, since they do not look at the lease.
abbrev pub Foreign : String → String → Call → Type 0
Foreign id w (upserts repo item) = item.id ≢ id
Foreign id w (upserts_intent repo intent k) = Unit
Foreign id w (enqueues plan) = All (λ item. item.id ≢ id) plan.work_items
Foreign id w (claims i x ttl) = x ≢ w
Foreign id w (releases i x) = x ≢ w
Foreign id w (heartbeats i x ttl) = x ≢ w
Foreign id w (transitions_to i actor from to reason) = (i ≢ id) ⊎ (from ≢ claimed)
Foreign id w (attaches i x bundle) = x ≢ w
Foreign id w expires = Unit
Foreign id w (lists repo lane limit) = Unit
Foreign id w (waits d) = Unit

abbrev pub delay : Call → ℕ
delay (waits d) = d
delay _ = 0

-- The time that a history takes.
abbrev pub elapsed : List Call → ℕ
elapsed [] = 0
elapsed (c ∷ cs) = delay c + elapsed cs

step-Held :
    (id w : String) (e n : ℕ) (live : n < e) (c : Call) (q : Queue)
    → Foreign id w c
    → Held id w e n live q
    → ((step c q).now ≡ n + delay c) × HeldIn id w e (step c q).items
unfolding step
step-Held id w e n live (upserts repo item) q f h =
    grind (arith, upsert-Held id w e n live repo item q f h)
step-Held id w e n live (upserts_intent repo intent k) q f h =
    grind (arith, upsert_intent-Held id w e n live repo intent k q h)
step-Held id w e n live (enqueues plan) q f h =
    grind (arith, enqueue_action_plan-Held id w e n live plan q f h)
step-Held id w e n live (claims i x ttl) q f h =
    grind (arith, claim-Held id w e n live i x ttl q f h)
step-Held id w e n live (releases i x) q f h = grind (arith, release-Held id w e n live i x q f h)
step-Held id w e n live (heartbeats i x ttl) q f h =
    grind (arith, heartbeat-Held id w e n live i x ttl q f h)
step-Held id w e n live (transitions_to i actor from to reason) q f h =
    grind (arith, transition-Held id w e n live i actor from to reason q f h)
step-Held id w e n live (attaches i x bundle) q f h =
    grind (arith, attach_proof-Held id w e n live i x bundle q f h)
step-Held id w e n live expires q f h = grind (arith, expire_leases-Held id w e n live q h)
step-Held id w e n live (lists repo lane limit) q f h =
    grind (arith, get_claimable-Held id w e n live repo lane limit q h)
step-Held id w e n live (waits d) q f h = grind arith

run-Held :
    (id w : String) (e : ℕ) (cs : List Call) (q : Queue)
    → All (Foreign id w) cs
    → HeldIn id w e q.items
    → q.now + elapsed cs < e
    → HeldIn id w e (run cs q).items × ((run cs q).now ≡ q.now + elapsed cs)
unfolding run
run-Held id w e [] q f h t = (h, omega arith)
run-Held id w e (c ∷ cs) q f h t =
    let (clock, kept) = step-Held id w e q.now (omega arith) c q f.0 (refl, h) in
    let (held, later) = run-Held id w e cs (step c q) f.1 kept (omega arith) in (held, omega arith)

-- While the lease of `w` on an item lasts, the item stays claimed by `w` until the same instant, through any
-- sequence of queue calls, with any database failures, except the calls made for `w` and those that
-- overwrite this item whoever holds it: Upsert and EnqueueActionPlan of it, and a Transition of it out of
-- the state claimed.
pub lease_stable :
    (id w : String) (e : ℕ) (cs : List Call) (q : Queue)
    → InSync q
    → IsHeld w e (find_item id q.items)
    → All (Foreign id w) cs
    → q.now + elapsed cs < e
    → IsHeld w e (find_item id (run cs q).items)
unfolding HeldIn
lease_stable id w e cs q sync held f t = (run-Held id w e cs q f (sync, held) t).0.1

-- A successful claim makes its caller the holder until the clock plus the ttl.
claim-holds :
    (id w : String) (ttl : ℤ) (q q' : Queue) (item : ActionWorkItem)
    → InSync q
    → claim id w ttl q ≡ done item q'
    → HeldIn id w (q.now + pos_part ttl) q'.items × (q'.now ≡ q.now)
unfolding claim get_unlocked save_unlocked append_transition HeldIn
claim-holds id w ttl q q' item sync granted = elim (Option-cases (find_item id q.items)) [
  | inl missing ↦ ground arith
  | inr (r, found) ↦
      let (row, key) = find_item-RowInSync id q.items r sync found in
      ground (
        arith,
        str_eq_iff r.payload.id id,
        find_item-update_item id (claimed_item r.payload w q.now ttl) q.now q.items,
        update_item-InSync (claimed_item r.payload w q.now ttl) q.now q.items sync,
      )
]

-- One statement, the lookup, has run; the rest of the queue is as it was.
abbrev pub looked_up : Queue → Queue
looked_up q = record q { ticks = suc q.ticks }

-- A claim on an item that somebody else holds is refused, or the lookup fails; nothing is written.
claim-refused :
    (id w x : String) (e : ℕ) (ttl : ℤ) (q : Queue)
    → IsHeld w e (find_item id q.items)
    → q.now < e
    → x ≢ w
    → x ≢ ""
    → 0 < pos_part ttl
    → claim id x ttl q ≡ fail (if q.fails q.ticks then database else not_claimable) (looked_up q)
unfolding claim get_unlocked lease_expired
claim-refused id w x e ttl q held live other named lasting =
    elim (Option-cases (find_item id q.items)) [
      | inl missing ↦ absurd (subst (IsHeld w e) missing held)
      | inr (r, found) ↦
          let mine : IsHeld w e (some r) = subst (IsHeld w e) found held in
          ground (arith, str_eq_iff x "", str_eq_iff r.payload.lease_state.claimed_by x)
    ]

-- After worker `w` has claimed an item for `ttl`, and after any sequence of queue calls that together take less
-- than `ttl`, a claim of the item by another worker is refused as not claimable (or its lookup fails in
-- the database), and writes nothing. Excepted are the calls made for `w` and those that overwrite this item
-- whoever holds it: Upsert and EnqueueActionPlan of it, and a Transition of it out of the state claimed.
-- Any statement of the calls may have failed.
pub lease_exclusive :
    (id w x : String) (ttl ttl' : ℤ) (q q' : Queue) (item : ActionWorkItem) (cs : List Call)
    → InSync q
    → claim id w ttl q ≡ done item q'
    → All (Foreign id w) cs
    → elapsed cs < pos_part ttl
    → x ≢ w
    → x ≢ ""
    → 0 < pos_part ttl'
    → let t = run cs q' in
      claim id x ttl' t ≡ fail (if t.fails t.ticks then database else not_claimable) (looked_up t)
unfolding HeldIn
lease_exclusive id w x ttl ttl' q q' item cs sync granted f short other named lasting =
    let (held, now) = claim-holds id w ttl q q' item sync granted in
    let (still, later) = run-Held id w (q.now + pos_part ttl) cs q' f held (omega arith) in
    claim-refused id w x (q.now + pos_part ttl) ttl' (run cs q') still.1 (omega arith) other named
      lasting
