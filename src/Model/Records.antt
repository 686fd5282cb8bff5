-- ===== src/Model/Records.antt =====
-- The structs of internal/types/models.go that the action engine moves around. Scores are float64 in
-- the source; they are stored and compared only, and stand here for non-negative scaled integers.
use pratc.Base.{ℕ, String, Bool, List}
use pratc.Model.Kinds.{ActionLane, PolicyProfile, ActionKind, ActionWorkItemState}

-- A time in a string field: empty, the RFC 3339 text of an instant (nanoseconds), or other text.
pub data Stamp : Type 0 where
  blank : Stamp
  instant : ℕ → Stamp
  unreadable : String → Stamp

pub record ActionPreflight : Type 0 where
  pub check : String
  pub status : String
  pub reason : String
  pub evidence_refs : List String
  pub required : Bool
  pub checked_at : Stamp

pub record ProofBundle : Type 0 where
  pub id : String
  pub work_item_id : String
  pub pr_number : ℕ
  pub summary : String
  pub evidence_refs : List String
  pub artifact_refs : List String
  pub test_commands : List String
  pub test_results : List String
  pub created_by : String
  pub created_at : String

pub record ActionLease : Type 0 where
  pub claimed_by : String
  pub claimed_at : Stamp
  pub expires_at : Stamp

-- `types.ActionLease{}`.
abbrev pub no_lease : ActionLease
no_lease = record { claimed_by = ""; claimed_at = blank; expires_at = blank }

pub record ActionWorkItem : Type 0 where
  pub id : String
  pub pr_number : ℕ
  pub lane : ActionLane
  pub state : ActionWorkItemState
  pub priority_score : ℕ
  pub confidence : ℕ
  pub risk_flags : List String
  pub reason_trail : List String
  pub evidence_refs : List String
  pub required_preflight_checks : List ActionPreflight
  pub idempotency_key : String
  pub lease_state : ActionLease
  pub allowed_actions : List ActionKind
  pub blocked_reasons : List String
  pub proof_bundle_refs : List String

-- A value of `map[string]any`.
pub data PayloadValue : Type 0 where
  text : String → PayloadValue
  texts : List String → PayloadValue
  opaque_value : PayloadValue

pub record ActionIntent : Type 0 where
  pub id : String
  pub work_item_id : String
  pub action : ActionKind
  pub pr_number : ℕ
  pub lane : ActionLane
  pub dry_run : Bool
  pub policy_profile : PolicyProfile
  pub confidence : ℕ
  pub risk_flags : List String
  pub reasons : List String
  pub evidence_refs : List String
  pub preconditions : List ActionPreflight
  pub idempotency_key : String
  pub created_at : String
  pub payload : List (String × PayloadValue)

pub record ActionPlan : Type 0 where
  pub repo : String
  pub policy_profile : PolicyProfile
  pub work_items : List ActionWorkItem
  pub action_intents : List ActionIntent

pub record ExecutionResult : Type 0 where
  pub intent_id : String
  pub action : ActionKind
  pub pr_number : ℕ
  pub dry_run : Bool
  pub executed : Bool
  pub already_executed : Bool
  pub result : String
  pub error : String
  pub executed_at : Stamp
