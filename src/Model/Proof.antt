-- ===== src/Model/Proof.antt =====
-- `ValidateProofBundle` of internal/types/models.go, which internal/executor/preflight.go repeats.
use pratc.Base.{
  String, Bool, true, false, ◌||◌, not, List, [], ◌∷◌, Option, none, some, if◌then◌else◌, str_eq,
  ◌==◌, trim_space,
}
use pratc.Model.Records.{ActionWorkItem, ProofBundle}

abbrev pub is_empty {ℓ} : {A : Type ℓ} → List A → Bool
is_empty [] = true
is_empty (_ ∷ _) = false

-- The first complaint, or `none` for a valid bundle.
unfoldable pub validate_proof_bundle : ActionWorkItem → ProofBundle → Option String
validate_proof_bundle item bundle =
    if str_eq bundle.id ""
    then some "proof bundle id is required"
    else if not (str_eq bundle.work_item_id item.id)
    then some "proof bundle work item mismatch"
    else if not (bundle.pr_number == item.pr_number)
    then some "proof bundle PR mismatch"
    else if str_eq (trim_space bundle.summary) ""
    then some "proof bundle summary is required"
    else if is_empty bundle.evidence_refs || is_empty bundle.artifact_refs
    then some "proof bundle evidence and artifacts are required"
    else if is_empty bundle.test_commands || is_empty bundle.test_results
    then some "proof bundle test commands and results are required"
    else if str_eq bundle.created_by "" || str_eq bundle.created_at ""
    then some "proof bundle creator and timestamp are required"
    else none
