-- ===== src/Executor/Preflight.antt =====
-- The nine preflight gates of internal/executor/preflight.go, `runPreflightChecks` of executor.go, and
-- the verifications of internal/executor/verification.go.
use pratc.Base.{
  ℕ, String, Bool, true, false, not, ◌||◌, List, [], ◌∷◌, if◌then◌else◌, is_positive, str_eq,
  str_elem, trim_space, same_lower, Prog, ◌>>=◌, ◌>>◌, return, ensure, when, gets,
}
use pratc.Model.Kinds.{ActionKind, merge}
use pratc.Model.Records.{ActionIntent}
use pratc.Model.Proof.{is_empty}
use pratc.Executor.Ledger.{Ledger}
use pratc.Executor.Mutator.{Mutator}
use pratc.Executor.Session.{Session, query}
use pratc.Executor.Policy.{raw_string, string_slice_from_payload}

-- `isGreenCI`.
unfoldable pub is_green_ci : String → Bool
unfolding trim_space same_lower
is_green_ci status =
    let s = trim_space status in
    same_lower s "success" || same_lower s "passed" || same_lower s "green" || same_lower s "clean"

abbrev pub is_merge : ActionKind → Bool
is_merge merge = true
is_merge _ = false

-- Every wanted label is there, whatever its case.
unfoldable pub has_label : List String → String → Bool
has_label [] wanted = false
has_label (l ∷ ls) wanted = same_lower l wanted || has_label ls wanted

unfoldable pub has_labels : List String → List String → Bool
has_labels present [] = true
has_labels present (wanted ∷ rest) =
    let others = has_labels present rest in if has_label present wanted then others else false

unfoldable pub has_comment : List String → String → Bool
has_comment [] body = false
has_comment (c ∷ cs) body = str_eq (trim_space c) (trim_space body) || has_comment cs body

module _ {W L : Type 0} (gh : Mutator W) (ops : Ledger L) (repo : String) where
  abbrev Check : Type 0
  Check = Prog (Session W L) String (Unit {0})

  unfoldable pub check_pr_open : ℕ → Check
  check_pr_open pr = do
    state ← query (gh.get_pr_state repo pr)
    ensure (same_lower state.state "open") "PR is not open"

  unfoldable pub check_head_sha : ℕ → String → Check
  check_head_sha pr expected = if str_eq expected "" then return tt else (do
    current ← query (gh.get_head_sha repo pr)
    ensure (str_eq current expected) "head SHA changed")

  unfoldable pub check_base_branch : ℕ → List String → Check
  check_base_branch pr allowed = if is_empty allowed then return tt else (do
    base ← query (gh.get_base_branch repo pr)
    ensure (str_elem base allowed) "base branch is not in allowed list")

  unfoldable pub check_ci_green : ℕ → Check
  check_ci_green pr = do
    status ← query (gh.get_ci_status repo pr)
    ensure (is_green_ci status) "CI is not green"

  unfoldable pub check_mergeable : ℕ → Check
  check_mergeable pr = do
    mergeable ← query (gh.get_mergeable repo pr)
    ensure mergeable "PR is not mergeable"

  unfoldable pub check_branch_protection : ℕ → Check
  check_branch_protection pr = do
    satisfied ← query (gh.get_required_reviews repo pr)
    ensure satisfied "required reviews not satisfied"

  unfoldable pub check_token_permission : Check
  check_token_permission = do _ ← query gh.get_rate_limit_remaining; return tt

  unfoldable pub check_rate_limit : Check
  check_rate_limit = do
    remaining ← query gh.get_rate_limit_remaining
    ensure (is_positive remaining) "rate limit budget exhausted"

  unfoldable pub check_idempotency : String → Check
  check_idempotency key = do
    ensure (not (str_eq key "")) "idempotency key is required"
    done_before ← gets (λ s. ops.is_executed key s.ledger)
    ensure (not done_before) "idempotency key has already been executed"

  -- `runPreflightChecks`.
  unfoldable pub run_preflight_checks : ActionIntent → Check
  run_preflight_checks intent = do
    check_pr_open intent.pr_number
    check_head_sha intent.pr_number (raw_string intent.payload "expected_head_sha")
    check_base_branch intent.pr_number (string_slice_from_payload intent.payload "allowed_branches")
    when (is_merge intent.action) (check_ci_green intent.pr_number)
    when (is_merge intent.action) (check_mergeable intent.pr_number)
    when (is_merge intent.action) (check_branch_protection intent.pr_number)
    check_token_permission
    check_rate_limit
    check_idempotency intent.idempotency_key

  -- `VerifyMerge`, `VerifyClose` and `VerifyFixApplied`: the state that the pull request must show.
  unfoldable pub verify_state : String → ℕ → Check
  verify_state wanted pr = do
    state ← query (gh.get_pr_state repo pr)
    ensure (str_eq state.state wanted) "PR is not in the expected state"

  unfoldable pub verify_comment : ℕ → String → Check
  verify_comment pr body = do
    comments ← query (gh.get_comments repo pr)
    ensure (has_comment comments body) "comment not found"

  unfoldable pub verify_labels : ℕ → List String → Check
  verify_labels pr wanted = do
    present ← query (gh.get_labels repo pr)
    ensure (has_labels present wanted) "label not found"
