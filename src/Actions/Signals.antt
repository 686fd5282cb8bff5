-- ===== src/Actions/Signals.antt =====
-- The inputs and the predicates of internal/actions/classifier.go. A confidence (float64) counts
-- hundredths here: it is compared, added and stored, and never divided.
use pratc.Base.{
  ℕ, ◌+◌, ◌-◌, ℤ, String, Bool, true, false, not, ◌&&◌, ◌||◌, List, [], ◌∷◌, ◌++◌, if◌then◌else◌,
  ltb, str_eq, to_lower, contains,
}
use pratc.Model.Proof.{is_empty}

pub data ReviewCategory : Type 0 where
  merge_now merge_after_focused_review duplicate_superseded problematic_quarantine
        unknown_escalate :
      ReviewCategory
  other : String → ReviewCategory

pub data PriorityTier : Type 0 where
  fast_merge review_required blocked : PriorityTier
  other : String → PriorityTier

-- The fields of `types.ReviewResult` that the classifier reads.
pub record ReviewResult : Type 0 where
  pub pr_number : ℕ
  pub category : ReviewCategory
  pub priority_tier : PriorityTier
  pub confidence : ℕ
  pub reasons : List String
  pub blockers : List String
  pub evidence_references : List String
  pub next_action : String
  pub temporal_bucket : String
  pub blast_radius : String
  pub mergeable : String

pub record ClassificationEvidence : Type 0 where
  pub duplicate_group_id : String
  pub canonical_pr_number : ℤ
  pub duplicate_confidence : ℕ
  pub canonical_conflict : Bool
  pub security_sensitive : Bool
  pub legal_or_license_risk : Bool
  pub unclear_ownership : Bool

-- `textHasAny`.
unfoldable pub text_has_any : String → List String → Bool
unfolding contains to_lower
text_has_any value [] = false
text_has_any value (needle ∷ needles) =
    contains (to_lower value) (to_lower needle) || text_has_any value needles

-- `anyTextHasAny`.
unfoldable pub any_text_has_any : List String → List String → Bool
any_text_has_any [] needles = false
any_text_has_any (item ∷ items) needles =
    text_has_any item needles || any_text_has_any items needles

abbrev is_duplicate_category : ReviewCategory → Bool
is_duplicate_category duplicate_superseded = true
is_duplicate_category _ = false

abbrev is_problematic_category : ReviewCategory → Bool
is_problematic_category problematic_quarantine = true
is_problematic_category _ = false

abbrev pub is_merge_now : ReviewCategory → Bool
is_merge_now merge_now = true
is_merge_now _ = false

abbrev pub is_fast_tier : PriorityTier → Bool
is_fast_tier fast_merge = true
is_fast_tier _ = false

unfoldable pub is_duplicate_signal : ReviewResult → Bool
is_duplicate_signal result =
    let needles : List String = "duplicate" ∷ "superseded" ∷ [] in
    is_duplicate_category result.category
    || text_has_any result.temporal_bucket needles
    || text_has_any result.next_action needles
    || any_text_has_any result.reasons needles

unfoldable pub is_problematic_signal : ReviewResult → Bool
is_problematic_signal result =
    let needles : List String = "junk" ∷ "spam" ∷ "reject" ∷ "close" ∷ "quarantine" ∷ [] in
    is_problematic_category result.category
    || text_has_any result.temporal_bucket needles
    || text_has_any result.next_action needles
    || any_text_has_any result.reasons (
        "junk" ∷ "spam" ∷ "malformed" ∷ "unsafe" ∷ "malicious" ∷ "reject" ∷ "close" ∷ "quarantine"
        ∷ [])

-- The three accepted values of `Mergeable`.
abbrev pub is_mergeable : String → Bool
is_mergeable m = str_eq m "clean" || str_eq m "mergeable" || str_eq m "true"

unfoldable pub is_clean_fast_merge : ReviewResult → Bool
is_clean_fast_merge result =
    if ltb result.confidence 85
    then false
    else if not (is_empty result.blockers)
    then false
    else if not (is_merge_now result.category) && not (is_fast_tier result.priority_tier)
    then false
    else if not (is_mergeable result.mergeable)
    then false
    else if not (str_eq result.temporal_bucket "") && not (str_eq result.temporal_bucket "now")
    then false
    else if not (str_eq result.blast_radius "") && not (str_eq result.blast_radius "low")
    then false
    else true

abbrev pub small_repair_keywords : List String
small_repair_keywords =
    "test_gap" ∷ "test gap" ∷ "missing_test" ∷ "lint" ∷ "lint_error" ∷ "lint_failure" ∷ "format"
    ∷ "ci_failure" ∷ "ci failure" ∷ "ci_failing" ∷ "resolve_ci" ∷ "conflict" ∷ "rebase"
    ∷ "needs_rebase" ∷ "merge_conflict" ∷ "missing_generated" ∷ "generated_file"
    ∷ "missing_artifact" ∷ "review_comment" ∷ "review_feedback" ∷ "address_comments" ∷ []

unfoldable pub is_repairable_blocked : ReviewResult → Bool
is_repairable_blocked result =
    any_text_has_any (result.blockers ++ (result.reasons ++ (result.next_action ∷ [])))
      small_repair_keywords

-- The loop of `hasConflictingEvidence` with its two flags.
unfoldable pub conflict_scan : List String → Bool → Bool → Bool
conflict_scan [] passing failing = passing && failing
conflict_scan (r ∷ rs) passing failing =
    conflict_scan rs (passing || text_has_any r ("ci_passing" ∷ "ci green" ∷ "ci pass" ∷ []))
      (failing || text_has_any r ("ci_failing" ∷ "ci failure" ∷ "ci fail" ∷ []))

unfoldable pub has_conflicting_evidence : List String → Bool
unfolding conflict_scan
has_conflicting_evidence reasons = conflict_scan reasons false false

abbrev gain : ReviewResult → ℕ
gain result =
    result.confidence
    + (if str_eq result.blast_radius "low"
        then 10
        else if str_eq result.blast_radius "medium"
        then 5
        else 0)
    + (if is_fast_tier result.priority_tier then 10 else 0)

-- `computePriorityScore`: the sum is kept between 0 and 100 hundredths.
unfoldable pub compute_priority_score : ReviewResult → ℕ
compute_priority_score result =
    let score = gain result - (if str_eq result.blast_radius "high" then 5 else 0) in
    if ltb 100 score then 100 else score
