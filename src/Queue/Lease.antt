-- ===== src/Queue/Lease.antt =====
-- `leaseExpired` and `validTransition` of internal/workqueue/queue.go.
use pratc.Base.{ℕ, Bool, true, false, List, [], ◌∷◌, leb, if◌then◌else◌}
use pratc.Model.Kinds.{
  ActionWorkItemState, proposed, claimable, claimed, preflighted, patched, tested,
  approved_for_execution, executed, verified, failed, escalated, canceled, state_eq,
}
use pratc.Model.Records.{Stamp, blank, instant, unreadable}

-- An empty or unreadable expiry counts as expired.
unfoldable pub lease_expired : Stamp → ℕ → Bool
lease_expired blank now = true
lease_expired (unreadable s) now = true
lease_expired (instant expires) now = leb expires now

-- The table `allowed`.
unfoldable pub allowed : ActionWorkItemState → List ActionWorkItemState
allowed proposed = claimable ∷ canceled ∷ []
allowed claimable = claimed ∷ canceled ∷ escalated ∷ []
allowed claimed = claimable ∷ preflighted ∷ failed ∷ escalated ∷ []
allowed preflighted = patched ∷ tested ∷ approved_for_execution ∷ failed ∷ []
allowed patched = tested ∷ failed ∷ []
allowed tested = approved_for_execution ∷ failed ∷ []
allowed approved_for_execution = executed ∷ failed ∷ []
allowed executed = verified ∷ failed ∷ []
allowed _ = []

unfoldable pub is_candidate : ActionWorkItemState → List ActionWorkItemState → Bool
is_candidate to [] = false
is_candidate to (candidate ∷ rest) = if state_eq candidate to then true else is_candidate to rest

unfoldable pub valid_transition : ActionWorkItemState → ActionWorkItemState → Bool
unfolding allowed is_candidate
valid_transition from to = is_candidate to (allowed from)
