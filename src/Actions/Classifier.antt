-- ===== src/Actions/Classifier.antt =====
-- `ClassifyLane` of internal/actions/classifier.go.
use pratc.Base.{
  ℕ, ℤ, String, Bool, true, not, ◌&&◌, ◌||◌, List, [], ◌∷◌, ◌++◌, if◌then◌else◌, is_positive, ltb,
  leb, str_eq,
}
use pratc.Model.Kinds.{
  ActionLane, unset, fast_merge, fix_and_merge, duplicate_close, reject_or_close, focused_review,
  future_or_reengage, human_escalate, ActionKind, merge, close, comment, label, apply_fix,
}
use pratc.Model.Records.{ActionPreflight, blank}
use pratc.Actions.Signals.{
  ReviewResult, ClassificationEvidence, is_duplicate_signal, is_problematic_signal,
  is_clean_fast_merge, is_repairable_blocked, has_conflicting_evidence, compute_priority_score,
}

-- An entry of the reason trail: a fixed code or a review's own reason, or a code with a value that the
-- source formats into the text.
pub data Reason : Type 0 where
  code : String → Reason
  duplicate_group : String → Reason
  canonical_pr : ℤ → Reason
  duplicate_confidence problematic_confidence : ℕ → Reason

pub record LaneDecision : Type 0 where
  pub pr_number : ℕ
  pub lane : ActionLane
  pub confidence : ℕ
  pub risk_flags : List String
  pub reason_trail : List Reason
  pub evidence_refs : List String
  pub allowed_actions : List ActionKind
  pub blocked_reasons : List String
  pub required_preflight_checks : List ActionPreflight
  pub priority_score : ℕ

abbrev codes : List String → List Reason
codes [] = []
codes (s ∷ ss) = code s ∷ codes ss

abbrev decision_of : ReviewResult → LaneDecision
decision_of result = record {
  pr_number = result.pr_number;
  lane = unset;
  confidence = result.confidence;
  risk_flags = [];
  reason_trail = codes result.reasons;
  evidence_refs = result.evidence_references;
  allowed_actions = [];
  blocked_reasons = [];
  required_preflight_checks = [];
  priority_score = 0;
}

-- A decision to escalate: what blocks, the risk flags, and what the trail says.
abbrev escalate : ReviewResult → List String → List String → List String → LaneDecision
escalate result blocked risks trail = record (decision_of result) {
  lane = human_escalate;
  blocked_reasons = blocked;
  risk_flags = risks;
  reason_trail = codes result.reasons ++ codes trail;
}

-- A decision for a lane that allows actions.
abbrev assign : ReviewResult → ActionLane → List ActionKind → List Reason → LaneDecision
assign result lane actions trail = record (decision_of result) {
  lane = lane;
  allowed_actions = actions;
  reason_trail = codes result.reasons ++ trail;
}

abbrev pending : String → ActionPreflight
pending check = record {
  check = check;
  status = "pending";
  reason = "live preflight";
  evidence_refs = [];
  required = true;
  checked_at = blank;
}

-- `buildFastMergePreflightChecks`.
unfoldable pub fast_merge_preflight_checks : List ActionPreflight
fast_merge_preflight_checks =
    pending "pr_still_open"
    ∷ pending "head_sha_unchanged"
    ∷ pending "ci_green"
    ∷ pending "mergeable_clean"
    ∷ pending "policy_profile_allows_merge"
    ∷ []

abbrev is_high : ReviewResult → Bool
is_high result = str_eq result.blast_radius "high"

-- The codes of rule b that a security-sensitive change or a high blast radius brings.
abbrev sensitive_codes : ReviewResult → ClassificationEvidence → List String
sensitive_codes result evidence =
    (if evidence.security_sensitive then "security_sensitive" ∷ [] else [])
    ++ (if is_high result then "high_blast_radius" ∷ [] else [])

-- The condition of rule c.
unfoldable pub has_duplicate_metadata : ClassificationEvidence → Bool
has_duplicate_metadata evidence =
    not (str_eq evidence.duplicate_group_id "")
    && is_positive evidence.canonical_pr_number
    && leb 80 evidence.duplicate_confidence
    && not evidence.canonical_conflict

-- The condition of rule g.
abbrev waits : ReviewResult → Bool
waits result =
    str_eq result.temporal_bucket "future"
    || str_eq result.next_action "author_response"
    || str_eq result.next_action "product_wait"

-- Rules e to h.
unfoldable pub classify_mergeable : ReviewResult → LaneDecision
classify_mergeable result =
    if is_clean_fast_merge result
    then record (assign result fast_merge (merge ∷ []) (code "clean_fast_merge" ∷ [])) {
      required_preflight_checks = fast_merge_preflight_checks;
      priority_score = compute_priority_score result;
    }
    else if is_repairable_blocked result && leb 65 result.confidence
    then record (assign result fix_and_merge (apply_fix ∷ comment ∷ [])
        (code "repairable_blocked" ∷ [])) { priority_score = compute_priority_score result }
    else if is_repairable_blocked result
    then escalate result ("repairable_below_confidence_threshold" ∷ []) []
        ("repairable_blocked_low_confidence" ∷ [])
    else if waits result
    then record (assign result future_or_reengage (comment ∷ label ∷ [])
        (code "future_reengage_temporal_bucket" ∷ [])) {
          priority_score = compute_priority_score result;
        }
    else record (assign result focused_review (comment ∷ label ∷ [])
        (code "default_focused_review" ∷ [])) { priority_score = compute_priority_score result }

-- Rules c and d, and the rest.
unfoldable pub classify_signals : ReviewResult → ClassificationEvidence → LaneDecision
classify_signals result evidence =
    if is_duplicate_signal result
    then (if has_duplicate_metadata evidence
        then assign result duplicate_close (comment ∷ close ∷ []) (
            duplicate_group evidence.duplicate_group_id
            ∷ canonical_pr evidence.canonical_pr_number
            ∷ duplicate_confidence evidence.duplicate_confidence
            ∷ [])
        else escalate result ("duplicate_missing_metadata" ∷ []) []
            ("duplicate_incomplete_metadata" ∷ []))
    else if is_problematic_signal result
    then (if leb 80 result.confidence
        then assign result reject_or_close (comment ∷ close ∷ label ∷ [])
            (problematic_confidence result.confidence ∷ [])
        else escalate result ("problematic_low_confidence" ∷ []) []
            ("problematic_confidence_below_0.80" ∷ []))
    else classify_mergeable result

-- `ClassifyLane`: rules a and b, and the rest.
unfoldable pub classify_lane : ReviewResult → ClassificationEvidence → LaneDecision
classify_lane result evidence =
    if ltb result.confidence 50
    then escalate result ("low_confidence" ∷ []) [] ("confidence_below_0.50" ∷ [])
    else if evidence.security_sensitive || is_high result
    then escalate result (sensitive_codes result evidence) (sensitive_codes result evidence)
        (sensitive_codes result evidence)
    else if evidence.legal_or_license_risk
    then escalate result ("legal_or_license_risk" ∷ []) ("legal_or_license_risk" ∷ [])
        ("legal_or_license_risk" ∷ [])
    else if evidence.unclear_ownership
    then escalate result ("unclear_ownership" ∷ []) [] ("unclear_ownership" ∷ [])
    else if has_conflicting_evidence result.reasons
    then escalate result ("conflicting_evidence" ∷ []) [] ("conflicting_evidence" ∷ [])
    else classify_signals result evidence
