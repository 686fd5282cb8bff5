-- ===== src/Queue/Leasing.antt =====
-- The lease operations of internal/workqueue/queue.go: Claim, Release, Heartbeat, ExpireLeases,
-- GetClaimable and Transition.
use pratc.Base.{
  ℕ, ◌+◌, String, Bool, not, ◌&&◌, ◌||◌, List, [], ◌∷◌, map, if◌then◌else◌, str_eq, ltb, leb, ◌==◌,
  ℤ, pos_part, is_positive, take, select, ◌>>=◌, ◌>>◌, return, ensure, when, gets, for_each,
}
use pratc.Model.Kinds.{
  ActionLane, unset, ActionWorkItemState, claimed, claimable, is_claimed, is_claimable, state_eq,
  lane_eq,
}
use pratc.Model.Records.{ActionWorkItem, ActionLease, instant, no_lease}
use pratc.Queue.Store.{
  ItemRow, Op, worker_required, ttl_not_positive, not_claimable, not_claimed_by, state_mismatch,
  invalid_transition, statement, get_unlocked, save_unlocked, append_transition,
}
use pratc.Queue.Lease.{lease_expired, valid_transition}

-- `item.State == claimed && item.LeaseState.ClaimedBy == workerID`.
unfoldable pub holds_lease : String → ActionWorkItem → Bool
holds_lease worker item = is_claimed item.state && str_eq item.lease_state.claimed_by worker

abbrev pub lease_until : String → ℕ → ℤ → ActionLease
lease_until worker now ttl = record {
  claimed_by = worker;
  claimed_at = instant now;
  expires_at = instant (now + pos_part ttl);
}

abbrev pub claimed_item : ActionWorkItem → String → ℕ → ℤ → ActionWorkItem
claimed_item item worker now ttl = record item {
  state = claimed;
  lease_state = lease_until worker now ttl;
}

-- `Claim`.
unfoldable pub claim : String → String → ℤ → Op ActionWorkItem
unfolding holds_lease
claim id worker ttl = do
  ensure (not (str_eq worker "")) worker_required
  ensure (is_positive ttl) ttl_not_positive
  item ← get_unlocked id
  now ← gets (λ q. q.now)
  let expired = lease_expired item.lease_state.expires_at now
  let same_worker = holds_lease worker item
  ensure (is_claimable item.state || same_worker || expired) not_claimable
  when (is_claimed item.state && not same_worker && expired)
      (append_transition id item.state claimable "system" "lease_expired_before_claim")
  save_unlocked (claimed_item item worker now ttl)
  when (not same_worker) (append_transition id item.state claimed worker "claim")
  return (claimed_item item worker now ttl)

-- `Release`.
unfoldable pub release : String → String → Op ActionWorkItem
unfolding holds_lease
release id worker = do
  item ← get_unlocked id
  ensure (holds_lease worker item) not_claimed_by
  let free = record item { state = claimable; lease_state = no_lease }
  save_unlocked free
  append_transition id item.state claimable worker "release"
  return free

-- `Heartbeat`.
unfoldable pub heartbeat : String → String → ℤ → Op ActionWorkItem
unfolding holds_lease
heartbeat id worker ttl = do
  ensure (is_positive ttl) ttl_not_positive
  item ← get_unlocked id
  ensure (holds_lease worker item) not_claimed_by
  now ← gets (λ q. q.now)
  let lease = record (item.lease_state) { expires_at = instant (now + pos_part ttl) }
  let renewed = record item { lease_state = lease }
  save_unlocked renewed
  return renewed

-- `Transition`.
unfoldable pub transition :
    String → String → ActionWorkItemState → ActionWorkItemState → String → Op ActionWorkItem
transition id actor from to reason = do
  item ← get_unlocked id
  ensure (state_eq item.state from) state_mismatch
  ensure (valid_transition from to) invalid_transition
  let lease = if is_claimed to then item.lease_state else no_lease
  let moved = record item { state = to; lease_state = lease }
  save_unlocked moved
  append_transition id from to actor reason
  return moved

-- The rows that ExpireLeases collects: claimed by their column, expired by their payload.
unfoldable pub expired_items : ℕ → List ItemRow → List ActionWorkItem
expired_items now [] = []
expired_items now (r ∷ rs) =
    let rest = expired_items now rs in
    if is_claimed r.state && lease_expired r.payload.lease_state.expires_at now
    then r.payload ∷ rest
    else rest

-- One round of the second loop of ExpireLeases.
unfoldable pub expire_item : ActionWorkItem → Op (Unit {0})
expire_item item = do
  save_unlocked (record item { state = claimable; lease_state = no_lease })
  append_transition item.id item.state claimable "system" "lease_expired"

-- `ExpireLeases`.
unfoldable pub expire_leases : Op (List String)
expire_leases = do
  statement
  expired ← gets (λ q. expired_items q.now q.items)
  for_each expired expire_item
  return (map (λ item. item.id) expired)

-- `ORDER BY priority_score DESC, pr_number ASC`; rows that tie keep the order of the table.
unfoldable pub before : ItemRow → ItemRow → Bool
before a b =
    ltb b.priority_score a.priority_score
    || (a.priority_score == b.priority_score && leb a.pr_number b.pr_number)

unfoldable pub insert_row : ItemRow → List ItemRow → List ItemRow
insert_row r [] = r ∷ []
insert_row r (s ∷ ss) = if before r s then r ∷ s ∷ ss else s ∷ insert_row r ss

unfoldable pub order_rows : List ItemRow → List ItemRow
order_rows [] = []
order_rows (r ∷ rs) = insert_row r (order_rows rs)

-- `WHERE repo = ? AND state = 'claimable'`, with `AND lane = ?` for a lane that is not empty.
unfoldable pub offers : String → ActionLane → ItemRow → Bool
offers repo lane r =
    str_eq r.repo repo && is_claimable r.state && (lane_eq lane unset || lane_eq r.lane lane)

abbrev pub effective_limit : ℤ → ℕ
effective_limit limit = if is_positive limit then pos_part limit else 100

-- `GetClaimable`.
unfoldable pub get_claimable : String → ActionLane → ℤ → Op (List ActionWorkItem)
get_claimable repo lane limit = do
  expired ← expire_leases
  statement
  rows ← gets (λ q. q.items)
  return (
      map (λ r. r.payload)
        (take (effective_limit limit) (order_rows (select (offers repo lane) rows))))
