-- ===== src/Queue/System.antt =====
-- The work queue under any sequence of calls, as its mutex orders them. A call that fails leaves the
-- state that it reached; between calls the clock moves on.
use pratc.Base.{ℕ, ◌+◌, String, List, [], ◌∷◌, ℤ, final}
use pratc.Model.Kinds.{ActionLane, ActionWorkItemState}
use pratc.Model.Records.{ActionWorkItem, ActionIntent, ActionPlan, ProofBundle}
use pratc.Queue.Store.{Queue}
use pratc.Queue.Leasing.{claim, release, heartbeat, transition, expire_leases, get_claimable}
use pratc.Queue.Intake.{upsert, upsert_intent, enqueue_action_plan}
use pratc.Queue.Evidence.{attach_proof}

pub data Call : Type 0 where
  upserts : String → ActionWorkItem → Call
  upserts_intent : String → ActionIntent → ℕ → Call
  enqueues : ActionPlan → Call
  claims : String → String → ℤ → Call
  releases : String → String → Call
  heartbeats : String → String → ℤ → Call
  transitions_to : String → String → ActionWorkItemState → ActionWorkItemState → String → Call
  attaches : String → String → ProofBundle → Call
  expires : Call
  lists : String → ActionLane → ℤ → Call
  waits : ℕ → Call

unfoldable pub step : Call → Queue → Queue
step (upserts repo item) q = final (upsert repo item q)
step (upserts_intent repo intent ordinal) q = final (upsert_intent repo intent ordinal q)
step (enqueues plan) q = final (enqueue_action_plan plan q)
step (claims id worker ttl) q = final (claim id worker ttl q)
step (releases id worker) q = final (release id worker q)
step (heartbeats id worker ttl) q = final (heartbeat id worker ttl q)
step (transitions_to id actor from to reason) q = final (transition id actor from to reason q)
step (attaches id worker bundle) q = final (attach_proof id worker bundle q)
step expires q = final (expire_leases q)
step (lists repo lane limit) q = final (get_claimable repo lane limit q)
step (waits d) q = record q { now = q.now + d }

unfoldable pub run : List Call → Queue → Queue
run [] q = q
run (c ∷ cs) q = run cs (step c q)

-- What every call keeps holds after any history.
pub run_keeps :
    (P : Queue → Type 0)
    → ((c : Call) (q : Queue) → P q → P (step c q))
    → (cs : List Call) (q : Queue) → P q
    → P (run cs q)
unfolding run
run_keeps P keep [] q h = h
run_keeps P keep (c ∷ cs) q h = run_keeps P keep cs (step c q) (keep c q h)
