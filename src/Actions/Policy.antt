-- ===== src/Actions/Policy.antt =====
-- internal/actions/policy.go: the policy gate over a lane decision.
use pratc.Base.{
  String, Bool, true, false, List, [], ◌∷◌, ◌++◌, Option, none, some, if◌then◌else◌, str_eq,
}
use pratc.Model.Kinds.{
  PolicyProfile, advisory, guarded, autonomous, human_escalate, lane_eq, ActionKind, merge, close,
  comment, label,
}
use pratc.Model.Records.{ActionPreflight}
use pratc.Actions.Classifier.{LaneDecision, Reason}

-- The texts that a denial gives as its reason.
pub data DenialReason : Type 0 where
  human_escalate_non_executable advisory_zero_write guarded_non_destructive_only
        missing_required_preflight :
      DenialReason
  preflight_not_passed : String → DenialReason

pub record ActionDenial : Type 0 where
  pub action : ActionKind
  pub reason : DenialReason

pub record PolicyGateResult : Type 0 where
  pub profile : PolicyProfile
  pub dry_run : Bool
  pub proposed_actions : List ActionKind
  pub executable_actions : List ActionKind
  pub denied_actions : List ActionDenial
  pub reasons : List Reason

-- `NormalizePolicyProfile`.
unfoldable pub normalize_policy_profile : PolicyProfile → PolicyProfile
normalize_policy_profile guarded = guarded
normalize_policy_profile autonomous = autonomous
normalize_policy_profile _ = advisory

abbrev is_advisory : PolicyProfile → Bool
is_advisory advisory = true
is_advisory _ = false

abbrev pub gate_of : LaneDecision → PolicyProfile → PolicyGateResult
gate_of decision normalized = record {
  profile = normalized;
  dry_run = is_advisory normalized;
  proposed_actions = decision.allowed_actions;
  executable_actions = [];
  denied_actions = [];
  reasons = decision.reason_trail;
}

abbrev pub executing : ActionKind → PolicyGateResult → PolicyGateResult
executing action g = record g { executable_actions = g.executable_actions ++ (action ∷ []) }

abbrev pub denying : ActionKind → DenialReason → PolicyGateResult → PolicyGateResult
denying action reason g = record g {
  denied_actions = g.denied_actions ++ (record { action = action; reason = reason } ∷ []);
}

-- `denyAll`.
unfoldable pub deny_all : List ActionKind → DenialReason → PolicyGateResult → PolicyGateResult
deny_all [] reason g = g
deny_all (a ∷ as') reason g = deny_all as' reason (denying a reason g)

abbrev pub is_talk_action : ActionKind → Bool
is_talk_action comment = true
is_talk_action label = true
is_talk_action _ = false

-- The loop for the guarded profile.
unfoldable pub gate_guarded : List ActionKind → PolicyGateResult → PolicyGateResult
gate_guarded [] g = g
gate_guarded (a ∷ as') g =
    gate_guarded as'
      (if is_talk_action a then executing a g else denying a guarded_non_destructive_only g)

-- `requiresLivePreflight`.
unfoldable pub requires_live_preflight : ActionKind → Bool
requires_live_preflight merge = true
requires_live_preflight close = true
requires_live_preflight _ = false

-- The loop of `preflightDenialReason`, from a check on; `none` is the empty text.
unfoldable pub denial_scan : List ActionPreflight → Bool → Option DenialReason
denial_scan [] seen = if seen then none else some missing_required_preflight
denial_scan (c ∷ cs) seen =
    let rest = denial_scan cs (if c.required then true else seen) in
    if c.required
    then (if str_eq c.status "passed"
        then rest
        else if str_eq c.check ""
        then some (preflight_not_passed "unknown")
        else some (preflight_not_passed c.check))
    else rest

unfoldable pub preflight_denial_reason : List ActionPreflight → Option DenialReason
unfolding denial_scan
preflight_denial_reason checks = denial_scan checks false

abbrev live_reason : LaneDecision → ActionKind → Option DenialReason
live_reason decision a =
    if requires_live_preflight a
    then preflight_denial_reason decision.required_preflight_checks
    else none

-- One round of the loop for the autonomous profile.
unfoldable pub gate_live : LaneDecision → ActionKind → PolicyGateResult → PolicyGateResult
gate_live decision a g = elim (live_reason decision a) [
  | none ↦ executing a g
  | some reason ↦ denying a reason g
]

-- The loop for the autonomous profile.
unfoldable pub gate_autonomous :
    LaneDecision → List ActionKind → PolicyGateResult → PolicyGateResult
gate_autonomous decision [] g = g
gate_autonomous decision (a ∷ as') g = gate_autonomous decision as' (gate_live decision a g)

-- The switch over the normalized profile.
unfoldable pub apply_profile : LaneDecision → PolicyProfile → PolicyGateResult → PolicyGateResult
apply_profile decision guarded g = gate_guarded decision.allowed_actions g
apply_profile decision autonomous g = gate_autonomous decision decision.allowed_actions g
apply_profile decision _ g = deny_all decision.allowed_actions advisory_zero_write g

-- `ApplyPolicy`.
unfoldable pub apply_policy : LaneDecision → PolicyProfile → PolicyGateResult
apply_policy decision profile =
    let normalized = normalize_policy_profile profile in
    let g = gate_of decision normalized in
    if lane_eq decision.lane human_escalate
    then deny_all decision.allowed_actions human_escalate_non_executable g
    else apply_profile decision normalized g
