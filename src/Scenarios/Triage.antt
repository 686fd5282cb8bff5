-- ===== src/Scenarios/Triage.antt =====
-- Reviews that the classifier sorts into lanes, and its theorems there.
use pratc.Base.{
  true, false, not, ◌≡◌, ◌≢◌, refl, [], ◌∷◌, map, All, select, pos, to_lower, contains, has_prefix,
}
use pratc.Model.Kinds.{fast_merge, duplicate_close, guarded, autonomous, merge, close}
use pratc.Actions.Signals.{
  ReviewResult, ClassificationEvidence, PriorityTier, merge_now, duplicate_superseded,
  is_duplicate_signal, is_problematic_signal, is_clean_fast_merge, has_conflicting_evidence,
  conflict_scan, text_has_any, any_text_has_any,
}
use pratc.Actions.Classifier.{
  classify_lane, classify_signals, classify_mergeable, has_duplicate_metadata,
}
use pratc.Actions.Policy.{apply_policy}
use pratc.Actions.Lanes.{
  Coherent, Mergeable, is_closing, classify_lane-Coherent, classify_lane_merges,
}
use pratc.Actions.Gate.{permitted, apply_policy-permitted}
use pratc.Actions.Pending.{apply_policy-classify_lane}

abbrev clean : ReviewResult
clean = record {
  pr_number = 7;
  category = merge_now;
  priority_tier = PriorityTier.fast_merge;
  confidence = 92;
  reasons = "ci_passing" ∷ [];
  blockers = [];
  evidence_references = [];
  next_action = "merge";
  temporal_bucket = "now";
  blast_radius = "low";
  mergeable = "clean";
}

abbrev copy : ReviewResult
copy = record clean { category = duplicate_superseded }

abbrev in_group : ClassificationEvidence
in_group = record {
  duplicate_group_id = "g";
  canonical_pr_number = pos 3;
  duplicate_confidence = 90;
  canonical_conflict = false;
  security_sensitive = false;
  legal_or_license_risk = false;
  unclear_ownership = false;
}

clean_merges : (classify_lane clean in_group).lane ≡ fast_merge
unfolding classify_lane classify_signals classify_mergeable is_clean_fast_merge is_duplicate_signal
    is_problematic_signal has_conflicting_evidence conflict_scan text_has_any any_text_has_any
    contains has_prefix to_lower
clean_merges = refl

copy_closes : (classify_lane copy in_group).lane ≡ duplicate_close
unfolding classify_lane classify_signals has_duplicate_metadata is_duplicate_signal
    has_conflicting_evidence conflict_scan text_has_any contains has_prefix to_lower
copy_closes = refl

copy-is_closing : is_closing (classify_lane copy in_group).lane ≡ true
unfolding classify_lane classify_signals has_duplicate_metadata is_duplicate_signal
    has_conflicting_evidence conflict_scan text_has_any contains has_prefix to_lower
copy-is_closing = refl

classify_lane-Coherent_example : Coherent (classify_lane clean in_group)
classify_lane-Coherent_example = classify_lane-Coherent clean in_group

classify_lane_merges_example : Mergeable clean in_group
classify_lane_merges_example = classify_lane_merges clean in_group clean_merges

apply_policy-permitted_example :
    ((apply_policy (classify_lane copy in_group) guarded).executable_actions
      ≡ select
          (permitted guarded (classify_lane copy in_group))
          (classify_lane copy in_group).allowed_actions)
    × (map (λ x. x.action) (apply_policy (classify_lane copy in_group) guarded).denied_actions
        ≡ select
            (λ a. not (permitted guarded (classify_lane copy in_group) a))
            (classify_lane copy in_group).allowed_actions)
apply_policy-permitted_example = apply_policy-permitted (classify_lane copy in_group) guarded

apply_policy-classify_lane_example :
    All
      (λ a. (a ≢ merge) × (a ≢ close))
      (apply_policy (classify_lane clean in_group) autonomous).executable_actions
apply_policy-classify_lane_example = apply_policy-classify_lane clean in_group autonomous
