-- ===== src/Actions/Lanes.antt =====
-- What the lane that `ClassifyLane` of internal/actions/classifier.go assigns says about the decision and
-- about the review.
use pratc.Base.{
  ◌≤◌, Bool, true, false, ◌||◌, ◌≡◌, sym, ap, ◌∙◌, ◌≢◌, ◌⊎◌, List, [], ◌∷◌, arith, str_eq,
}
use pratc.Model.Kinds.{
  ActionLane, unset, fast_merge, fix_and_merge, duplicate_close, reject_or_close, focused_review,
  future_or_reengage, human_escalate, ActionKind, merge, close, comment, label, apply_fix,
}
use pratc.Model.Records.{ActionPreflight}
use pratc.Model.Proof.{is_empty}
use pratc.Actions.Signals.{
  ReviewResult, ClassificationEvidence, is_duplicate_signal, is_problematic_signal,
  is_clean_fast_merge, has_conflicting_evidence, is_mergeable, is_merge_now, is_fast_tier,
}
use pratc.Actions.Classifier.{
  LaneDecision, fast_merge_preflight_checks, has_duplicate_metadata, classify_mergeable,
  classify_signals, classify_lane,
}

-- The table of actions for each lane.
abbrev pub lane_actions : ActionLane → List ActionKind
lane_actions fast_merge = merge ∷ []
lane_actions fix_and_merge = apply_fix ∷ comment ∷ []
lane_actions duplicate_close = comment ∷ close ∷ []
lane_actions reject_or_close = comment ∷ close ∷ label ∷ []
lane_actions focused_review = comment ∷ label ∷ []
lane_actions future_or_reengage = comment ∷ label ∷ []
lane_actions human_escalate = []
lane_actions unset = []

abbrev pub not_escalated : ActionLane → Bool
not_escalated human_escalate = false
not_escalated _ = true

abbrev pub lane_checks : ActionLane → List ActionPreflight
lane_checks fast_merge = fast_merge_preflight_checks
lane_checks _ = []

-- The actions are those of the table for the lane, a reason blocks exactly where the lane is
-- human_escalate, only fast_merge brings checks, and some lane is always assigned.
abbrev pub Coherent : LaneDecision → Type 0
Coherent d =
    ((d.allowed_actions ≡ lane_actions d.lane)
      × (is_empty d.blocked_reasons ≡ not_escalated d.lane))
    × ((d.required_preflight_checks ≡ lane_checks d.lane) × (d.lane ≢ unset))

classify_mergeable-Coherent : (result : ReviewResult) → Coherent (classify_mergeable result)
unfolding classify_mergeable
classify_mergeable-Coherent result = ground arith

classify_signals-Coherent :
    (result : ReviewResult) (evidence : ClassificationEvidence)
    → Coherent (classify_signals result evidence)
unfolding classify_signals
classify_signals-Coherent result evidence = ground (arith, classify_mergeable-Coherent result)

-- Every review gets one lane, whose actions are those of the documented table; a reason blocks exactly
-- the decisions of the lane human_escalate, and exactly fast_merge brings preflight checks.
pub classify_lane-Coherent :
    (result : ReviewResult) (evidence : ClassificationEvidence)
    → Coherent (classify_lane result evidence)
unfolding classify_lane
classify_lane-Coherent result evidence = ground (arith, classify_signals-Coherent result evidence)

-- What the review itself must say.
abbrev pub Clean : ReviewResult → Type 0
Clean result =
    (((85 ≤ result.confidence) × (is_empty result.blockers ≡ true))
      × ((is_mergeable result.mergeable ≡ true)
          × ((is_merge_now result.category || is_fast_tier result.priority_tier) ≡ true)))
    × (((str_eq result.blast_radius "" || str_eq result.blast_radius "low") ≡ true)
        × ((str_eq result.temporal_bucket "" || str_eq result.temporal_bucket "now") ≡ true))

-- What the lane fast_merge means: a confidence of 0.85 at least, no blocker, an explicit mergeable state,
-- a review that asks for the merge now, a low blast radius or none given, and none of the triggers of
-- the earlier rules, of which a high blast radius is one.
abbrev pub Mergeable : ReviewResult → ClassificationEvidence → Type 0
Mergeable result evidence =
    Clean result
    × ((((evidence.security_sensitive ≡ false) × (evidence.legal_or_license_risk ≡ false))
          × ((evidence.unclear_ownership ≡ false)
              × (has_conflicting_evidence result.reasons ≡ false)))
        × ((is_duplicate_signal result ≡ false) × (is_problematic_signal result ≡ false)))

is_clean_fast_merge_lem : (result : ReviewResult) → is_clean_fast_merge result ≡ true → Clean result
unfolding is_clean_fast_merge
is_clean_fast_merge_lem result h = ground arith

classify_mergeable_clean :
    (result : ReviewResult)
    → (classify_mergeable result).lane ≡ fast_merge
    → is_clean_fast_merge result ≡ true
unfolding classify_mergeable
classify_mergeable_clean result h = ground arith

classify_signals_clean :
    (result : ReviewResult) (evidence : ClassificationEvidence)
    → (classify_signals result evidence).lane ≡ fast_merge
    → (is_clean_fast_merge result ≡ true)
      × ((is_duplicate_signal result ≡ false) × (is_problematic_signal result ≡ false))
unfolding classify_signals
classify_signals_clean result evidence h = ground (arith, classify_mergeable_clean result)

-- The rules a and b let a review pass.
abbrev pub Untriggered : ReviewResult → ClassificationEvidence → Type 0
Untriggered result evidence =
    ((evidence.security_sensitive ≡ false) × (evidence.legal_or_license_risk ≡ false))
    × ((evidence.unclear_ownership ≡ false) × (has_conflicting_evidence result.reasons ≡ false))

classify_lane-Untriggered :
    (result : ReviewResult) (evidence : ClassificationEvidence)
    → (classify_lane result evidence).lane ≢ human_escalate
    → ((50 ≤ result.confidence) × (str_eq result.blast_radius "high" ≡ false))
      × (Untriggered result evidence
          × (classify_lane result evidence ≡ classify_signals result evidence))
unfolding classify_lane
classify_lane-Untriggered result evidence h = ground arith

-- A review gets the lane fast_merge only if it is mergeable in that sense: blocked, duplicate,
-- problematic, sensitive and contradictory reviews never do.
pub classify_lane_merges :
    (result : ReviewResult) (evidence : ClassificationEvidence)
    → (classify_lane result evidence).lane ≡ fast_merge
    → Mergeable result evidence
classify_lane_merges result evidence h =
    let facts = classify_lane-Untriggered result evidence (λ e. ground arith) in
    let clean = classify_signals_clean result evidence (ap (λ d. d.lane) (sym facts.1.1) ∙ h) in
    let merges = is_clean_fast_merge_lem result clean.0 in (merges, (facts.1.0, clean.1))

-- What the lane duplicate_close or reject_or_close means.
abbrev pub Closable : ReviewResult → ClassificationEvidence → Type 0
Closable result evidence =
    (50 ≤ result.confidence)
    × (((is_duplicate_signal result ≡ true) × (has_duplicate_metadata evidence ≡ true))
        ⊎ ((is_problematic_signal result ≡ true) × (80 ≤ result.confidence)))

-- A lane that closes.
abbrev pub is_closing : ActionLane → Bool
is_closing duplicate_close = true
is_closing reject_or_close = true
is_closing _ = false

classify_mergeable_closes :
    (result : ReviewResult) → is_closing (classify_mergeable result).lane ≡ false
unfolding classify_mergeable
classify_mergeable_closes result = ground arith

classify_signals_closes :
    (result : ReviewResult) (evidence : ClassificationEvidence)
    → is_closing (classify_signals result evidence).lane ≡ true
    → ((is_duplicate_signal result ≡ true) × (has_duplicate_metadata evidence ≡ true))
      ⊎ ((is_problematic_signal result ≡ true) × (80 ≤ result.confidence))
unfolding classify_signals
classify_signals_closes result evidence h = ground (arith, classify_mergeable_closes result)

-- A review gets the lane duplicate_close or reject_or_close only if it is a duplicate with the group, the
-- canonical pull request and a confidence of 0.80, or problematic with a confidence of 0.80, and no
-- trigger of the rules a and b holds.
pub classify_lane_closes :
    (result : ReviewResult) (evidence : ClassificationEvidence)
    → is_closing (classify_lane result evidence).lane ≡ true
    → Closable result evidence × Untriggered result evidence
classify_lane_closes result evidence h =
    let facts = classify_lane-Untriggered result evidence (λ e. ground arith) in
    let why =
      classify_signals_closes result evidence (ap (λ d. is_closing d.lane) (sym facts.1.1) ∙ h) in
    ((facts.0.0, why), facts.1.0)
