-- ===== src/Queue/Lifecycle.antt =====
-- The state machine of Transition in internal/workqueue/queue.go.
use pratc.Base.{
  suc, ◌+◌, String, Bool, true, false, not, ◌≡◌, refl, ◌∷◌, arith, inl, inr, ◌⊎◌, if◌then◌else◌,
  some, done, fail,
}
use pratc.Model.Kinds.{
  ActionWorkItemState, proposed, claimed, preflighted, patched, tested, approved_for_execution,
  executed, verified, is_claimed, state_eq,
}
use pratc.Model.Records.{no_lease}
use pratc.Queue.Store.{
  ItemRow, Queue, state_mismatch, invalid_transition, find_item, update_item, get_unlocked,
  save_unlocked, append_transition,
}
use pratc.Queue.Lease.{valid_transition}
use pratc.Queue.Leasing.{transition}
use pratc.Queue.Exclusion.{looked_up}
use pratc.Queue.Grants.{Reliable, log_row}

-- Transition on every branch, when the database answers and the item is there: it refuses a wrong
-- `from` and a step that is not allowed, and writes nothing then; otherwise it saves the item in its new
-- state, without its lease unless the new state is `claimed`, and logs the step.
transition_branches :
    (id actor : String) (from to : ActionWorkItemState) (reason : String) (q : Queue) (r : ItemRow)
    → Reliable q
    → find_item id q.items ≡ some r
    → let moved = record (r.payload) {
      state = to;
      lease_state = if is_claimed to then r.payload.lease_state else no_lease;
    } in
      transition id actor from to reason q ≡ (
        if not (state_eq r.payload.state from)
        then fail state_mismatch (looked_up q)
        else if not (valid_transition from to)
        then fail invalid_transition (looked_up q)
        else done moved (record q {
          items = update_item moved q.now q.items;
          transitions = log_row id from to actor reason q.now ∷ q.transitions;
          ticks = q.ticks + 3;
        }))
unfolding transition get_unlocked save_unlocked append_transition
transition_branches id actor from to reason q r ok found =
    ground (arith, ok q.ticks, ok (suc q.ticks), ok (suc (suc q.ticks)))

-- A history of allowed steps.
pub data Walk (s : ActionWorkItemState) : ActionWorkItemState → Type 0 where
  here : Walk s s
  next : {t u : ActionWorkItemState} → Walk s t → valid_transition t u ≡ true → Walk s u

-- The history was in the state `v` before its last step.
pub Visits : {s t : ActionWorkItemState} → ActionWorkItemState → Walk s t → Type 0
Visits v here = ⊥
Visits v (next {t = t} w h) = (t ≡ v) ⊎ Visits v w

-- Where only the state `v` leads into a set of states, a history that ends there has visited `v`.
crossing :
    (v : ActionWorkItemState) (inside : ActionWorkItemState → Bool)
    → ((t u : ActionWorkItemState)
        → valid_transition t u ≡ true
        → inside u ≡ true
        → (t ≡ v) ⊎ (inside t ≡ true))
    → {s t : ActionWorkItemState} (w : Walk s t) → inside s ≡ false
    → inside t ≡ true
    → Visits v w
unfolding Visits
crossing v inside gate here out within = absurd (ground arith)
crossing v inside gate (next {t = t} {u = u} w h) out within = elim (gate t u h within) [
  | inl at ↦ inl at
  | inr before ↦ inr (crossing v inside gate w out before)
]

abbrev is_done : ActionWorkItemState → Bool
is_done executed = true
is_done verified = true
is_done _ = false

abbrev is_past_preflight : ActionWorkItemState → Bool
is_past_preflight patched = true
is_past_preflight tested = true
is_past_preflight approved_for_execution = true
is_past_preflight executed = true
is_past_preflight verified = true
is_past_preflight _ = false

abbrev is_past_claim : ActionWorkItemState → Bool
is_past_claim preflighted = true
is_past_claim s = is_past_preflight s

done_gate :
    (t u : ActionWorkItemState)
    → valid_transition t u ≡ true
    → is_done u ≡ true
    → (t ≡ approved_for_execution) ⊎ (is_done t ≡ true)
unfolding valid_transition state_eq
done_gate t u h within = ground arith

preflight_gate :
    (t u : ActionWorkItemState)
    → valid_transition t u ≡ true
    → is_past_preflight u ≡ true
    → (t ≡ preflighted) ⊎ (is_past_preflight t ≡ true)
unfolding valid_transition state_eq
preflight_gate t u h within = ground arith

claim_gate :
    (t u : ActionWorkItemState)
    → valid_transition t u ≡ true
    → is_past_claim u ≡ true
    → (t ≡ claimed) ⊎ (is_past_claim t ≡ true)
unfolding valid_transition state_eq
claim_gate t u h within = ground arith

-- Every history of allowed steps from `proposed` to `executed` or `verified` has been claimed,
-- preflighted and approved for execution on its way.
pub walk-executed :
    {t : ActionWorkItemState} (w : Walk proposed t)
    → is_done t ≡ true
    → Visits claimed w × Visits preflighted w × Visits approved_for_execution w
walk-executed {t} w h = (
  crossing claimed is_past_claim claim_gate w refl (ground arith),
  crossing preflighted is_past_preflight preflight_gate w refl (ground arith),
  crossing approved_for_execution is_done done_gate w refl h,
)
