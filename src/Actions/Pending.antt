-- ===== src/Actions/Pending.antt =====
-- The classifier and the policy gate of internal/actions together.
use pratc.Base.{
  Bool, true, false, ◌≡◌, ◌≢◌, refl, sym, ap, subst, ◌∙◌, All, All-map, arith, select, select-All,
}
use pratc.Model.Kinds.{PolicyProfile, ActionLane, ActionKind, merge, close}
use pratc.Actions.Signals.{ReviewResult, ClassificationEvidence}
use pratc.Actions.Classifier.{LaneDecision, fast_merge_preflight_checks, classify_lane}
use pratc.Actions.Policy.{apply_policy}
use pratc.Actions.Lanes.{lane_checks, classify_lane-Coherent}
use pratc.Actions.Gate.{cleared, passes, permitted, escalates, apply_policy-permitted}

lane_checks_pending : (lane : ActionLane) → cleared (lane_checks lane) ≡ false
unfolding fast_merge_preflight_checks
lane_checks_pending ActionLane.fast_merge = refl
lane_checks_pending _ = refl

passes_pending :
    (escalated : Bool) (profile : PolicyProfile) (d : LaneDecision) (a : ActionKind)
    → cleared d.required_preflight_checks ≡ false
    → passes escalated profile d a ≡ true
    → (a ≢ merge) × (a ≢ close)
passes_pending escalated profile d a h p = (λ e. ground arith, λ e. ground arith)

-- No decision of the classifier lets a merge or a close through the gate, under any profile: the
-- preflight checks of a merge are still pending then, and a close has none.
pub apply_policy-classify_lane :
    (result : ReviewResult) (evidence : ClassificationEvidence) (profile : PolicyProfile)
    → All
        (λ a. (a ≢ merge) × (a ≢ close))
        (apply_policy (classify_lane result evidence) profile).executable_actions
apply_policy-classify_lane result evidence profile =
    let d = classify_lane result evidence in
    let pending =
      ap cleared (classify_lane-Coherent result evidence).1.0 ∙ lane_checks_pending d.lane in
    subst (All (λ a. (a ≢ merge) × (a ≢ close))) (sym (apply_policy-permitted d profile).0) (
      All-map (λ a p. passes_pending (escalates d.lane) profile d a pending p)
        (select (permitted profile d) d.allowed_actions)
        (select-All (permitted profile d) d.allowed_actions))
