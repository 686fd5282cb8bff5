-- ===== src/Queue/Keys.antt =====
-- The UNIQUE constraint on `idempotency_key` in internal/workqueue/queue.go, over any history of calls.
use pratc.Base.{
  ℕ, suc, String, false, ◌≢◌, ◌≡◌, subst, Bool-cases, List, [], ◌∷◌, ℤ, All, arith, inl, inr,
  str_eq, str_eq_iff, final, for_each_keeps, Outcome-cases,
}
use pratc.Model.Kinds.{ActionLane, ActionWorkItemState}
use pratc.Model.Records.{ActionWorkItem, ActionIntent, ActionPlan, ProofBundle}
use pratc.Queue.Store.{IntentRow, Queue, get_unlocked, save_unlocked, append_transition}
use pratc.Queue.Leasing.{
  claim, release, heartbeat, transition, expire_item, expired_items, expire_leases, get_claimable,
}
use pratc.Queue.Intake.{
  upsert, key_taken, upsert_row, intent_row, upsert_intent, enqueue_item, enqueue_intents,
  enqueue_action_plan,
}
use pratc.Queue.Evidence.{attach_proof, attach_new, attach_existing, get_proof}
use pratc.Queue.System.{
  Call, upserts, upserts_intent, enqueues, claims, releases, heartbeats, transitions_to, attaches,
  expires, lists, waits, step, run, run_keeps,
}

-- Another intent than `row`, under another key.
abbrev pub Apart : IntentRow → IntentRow → Type 0
Apart row r = (r.id ≢ row.id) × (r.idempotency_key ≢ row.idempotency_key)

-- No two rows share an id or an idempotency key.
abbrev pub DistinctKeys : List IntentRow → Type 0
DistinctKeys [] = Unit {0}
DistinctKeys (r ∷ rs) = All (Apart r) rs × DistinctKeys rs

abbrev pub KeysHold : Queue → Type 0
KeysHold q = DistinctKeys q.intents

Apart-upsert :
    (x row : IntentRow) (rows : List IntentRow)
    → Apart x row
    → All (Apart x) rows
    → All (Apart x) (upsert_row row rows)
unfolding upsert_row
Apart-upsert x row [] a h = (a, tt)
Apart-upsert x row (r ∷ rs) a h = ground (arith, Apart-upsert x row rs a h.1)

-- A free key stays free of the rows behind the one that is replaced.
Apart-free :
    (row : IntentRow) (rows : List IntentRow)
    → key_taken row rows ≡ false
    → All (λ r. r.id ≢ row.id) rows
    → All (Apart row) rows
unfolding key_taken
Apart-free row [] free away = tt
Apart-free row (r ∷ rs) free away = ground (
  arith,
  str_eq_iff r.id row.id,
  str_eq_iff r.idempotency_key row.idempotency_key,
  Apart-free row rs,
  away.1,
)

same_id_away :
    (r row : IntentRow) (rs : List IntentRow)
    → r.id ≡ row.id
    → All (Apart r) rs
    → All (λ s. s.id ≢ row.id) rs
same_id_away r row [] e h = tt
same_id_away r row (s ∷ rs) e h = ((λ k. ground arith), same_id_away r row rs e h.1)

-- A row's creation time is no part of its keys.
Apart-time :
    (row : IntentRow) (t : ℕ) (rs : List IntentRow)
    → All (Apart row) rs
    → All (Apart (record row { created_at = t })) rs
Apart-time row t [] h = tt
Apart-time row t (r ∷ rs) h = (h.0, Apart-time row t rs h.1)

pub upsert_row-Distinct :
    (row : IntentRow) (rows : List IntentRow)
    → key_taken row rows ≡ false
    → DistinctKeys rows
    → DistinctKeys (upsert_row row rows)
unfolding upsert_row key_taken
upsert_row-Distinct row [] free h = (tt, tt)
upsert_row-Distinct row (r ∷ rs) free h = elim (Bool-cases (str_eq r.id row.id)) [
  | inl hit ↦
      let free' : key_taken row rs ≡ false = ground arith in
      let rest =
        Apart-free row rs free' (same_id_away r row rs ((str_eq_iff r.id row.id).0 hit) h.0) in
      rw hit (Apart-time row r.created_at rs rest, h.1)
  | inr miss ↦
      let away : Apart r row =
        ground (arith, str_eq_iff r.id row.id, str_eq_iff r.idempotency_key row.idempotency_key) in
      let free' : key_taken row rs ≡ false = ground arith in
      rw miss (Apart-upsert r row rs away h.0, upsert_row-Distinct row rs free' h.1)
]

upsert_intent-Keys :
    (repo : String) (intent : ActionIntent) (k : ℕ) (q : Queue)
    → KeysHold q
    → KeysHold (final (upsert_intent repo intent k q))
unfolding upsert_intent
upsert_intent-Keys repo intent k q h =
    ground (arith, upsert_row-Distinct (intent_row repo intent k q.now) q.intents)

enqueue_intents-Keys :
    (repo : String) (k : ℕ) (intents : List ActionIntent) (q : Queue)
    → KeysHold q
    → KeysHold (final (enqueue_intents repo k intents q))
unfolding enqueue_intents
enqueue_intents-Keys repo k [] q h = h
enqueue_intents-Keys repo k (intent ∷ rest) q h =
    elim (Outcome-cases (upsert_intent repo intent k q)) [
      | inl (_, t, e) ↦
          rw (e, enqueue_intents)
            (enqueue_intents-Keys repo (suc k) rest t
              (subst (λ o. KeysHold (final o)) e (upsert_intent-Keys repo intent k q h)))
      | inr (_, t, e) ↦
          rw (e, enqueue_intents)
            (subst (λ o. KeysHold (final o)) e (upsert_intent-Keys repo intent k q h))
    ]

-- Most operations do not touch the table of intents.
module _ (P : List IntentRow → Type 0) (id worker : String) (q : Queue) (h : P q.intents) where
  claim-intents : (ttl : ℤ) → P (final (claim id worker ttl q)).intents
  unfolding claim get_unlocked save_unlocked append_transition
  claim-intents ttl = ground arith

  release-intents : P (final (release id worker q)).intents
  unfolding release get_unlocked save_unlocked append_transition
  release-intents = ground arith

  heartbeat-intents : (ttl : ℤ) → P (final (heartbeat id worker ttl q)).intents
  unfolding heartbeat get_unlocked save_unlocked
  heartbeat-intents ttl = ground arith

  transition-intents :
      (from to : ActionWorkItemState) (reason : String)
      → P (final (transition id worker from to reason q)).intents
  unfolding transition get_unlocked save_unlocked append_transition
  transition-intents from to reason = ground arith

  attach_proof-intents :
      (bundle : ProofBundle) → P (final (attach_proof id worker bundle q)).intents
  unfolding attach_proof attach_new attach_existing get_proof get_unlocked save_unlocked
      append_transition
  attach_proof-intents bundle = ground arith

expire_item-Keys :
    (item : ActionWorkItem) (q : Queue) → KeysHold q → KeysHold (final (expire_item item q))
unfolding expire_item save_unlocked append_transition
expire_item-Keys item q h = ground arith

expire_leases-Keys : (q : Queue) → KeysHold q → KeysHold (final (expire_leases q))
unfolding expire_leases
expire_leases-Keys q h = ground (
  arith,
  for_each_keeps KeysHold expire_item expire_item-Keys (expired_items q.now q.items)
      (record q { ticks = suc q.ticks }) h,
)

get_claimable-Keys :
    (repo : String) (lane : ActionLane) (limit : ℤ) (q : Queue)
    → KeysHold q
    → KeysHold (final (get_claimable repo lane limit q))
unfolding get_claimable
get_claimable-Keys repo lane limit q h = ground (arith, expire_leases-Keys q h)

upsert-Keys :
    (repo : String) (item : ActionWorkItem) (q : Queue)
    → KeysHold q
    → KeysHold (final (upsert repo item q))
unfolding upsert
upsert-Keys repo item q h = ground arith

enqueue_item-Keys :
    (repo : String) (item : ActionWorkItem) (q : Queue)
    → KeysHold q
    → KeysHold (final (enqueue_item repo item q))
unfolding enqueue_item upsert append_transition
enqueue_item-Keys repo item q h = ground arith

enqueue_action_plan-Keys :
    (plan : ActionPlan) (q : Queue) → KeysHold q → KeysHold (final (enqueue_action_plan plan q))
unfolding enqueue_action_plan
enqueue_action_plan-Keys plan q h = grind (
  arith,
  enqueue_intents-Keys,
  for_each_keeps KeysHold (enqueue_item plan.repo) (enqueue_item-Keys plan.repo) plan.work_items q
      h,
)

step-Keys : (c : Call) (q : Queue) → KeysHold q → KeysHold (step c q)
unfolding step
step-Keys (upserts repo item) q h = upsert-Keys repo item q h
step-Keys (upserts_intent repo intent k) q h = upsert_intent-Keys repo intent k q h
step-Keys (enqueues plan) q h = enqueue_action_plan-Keys plan q h
step-Keys (claims id worker ttl) q h = claim-intents DistinctKeys id worker q h ttl
step-Keys (releases id worker) q h = release-intents DistinctKeys id worker q h
step-Keys (heartbeats id worker ttl) q h = heartbeat-intents DistinctKeys id worker q h ttl
step-Keys (transitions_to id actor from to reason) q h =
    transition-intents DistinctKeys id actor q h from to reason
step-Keys (attaches id worker bundle) q h = attach_proof-intents DistinctKeys id worker q h bundle
step-Keys expires q h = expire_leases-Keys q h
step-Keys (lists repo lane limit) q h = get_claimable-Keys repo lane limit q h
step-Keys (waits d) q h = h

-- After any calls, no two stored intents share an id or an idempotency key, if none did at the start.
pub run-DistinctKeys :
    (cs : List Call) (q : Queue) → DistinctKeys q.intents → DistinctKeys (run cs q).intents
run-DistinctKeys cs q h = run_keeps KeysHold step-Keys cs q h
