-- ===== src/Executor/Quiet.antt =====
-- The preflight checks of internal/executor/preflight.go make no mutating call and record nothing.
use pratc.Base.{
  ℕ, String, Bool, true, false, ◌≡◌, refl, ◌>>◌, when, Outcome-cases, inl, inr, List, arith, Prog,
  final,
}
use pratc.Model.Records.{ActionIntent}
use pratc.Executor.Ledger.{Ledger}
use pratc.Executor.Mutator.{Mutator}
use pratc.Executor.Session.{Config, Session}
use pratc.Executor.Preflight.{
  check_pr_open, check_head_sha, check_base_branch, check_ci_green, check_mergeable,
  check_branch_protection, check_token_permission, check_rate_limit, check_idempotency,
  run_preflight_checks, is_merge,
}
use pratc.Executor.Policy.{raw_string, string_slice_from_payload}

module _ {W L : Type 0} (gh : Mutator W) (ops : Ledger L) (cfg : Config) where
  -- A check that writes nothing, neither on GitHub nor in the ledger, whether it passes or not.
  abbrev Quiet : Prog (Session W L) String (Unit {0}) → Type 0
  Quiet m =
      (s : Session W L) → ((final (m s)).writes ≡ s.writes) × ((final (m s)).ledger ≡ s.ledger)

  seq-Quiet : (m k : Prog (Session W L) String (Unit {0})) → Quiet m → Quiet k → Quiet (m >> k)
  seq-Quiet m k first rest s = elim (Outcome-cases (m s)) [
    | inl (_, t, e) ↦ ground (arith, first s, rest t)
    | inr (_, t, e) ↦ ground (arith, first s)
  ]

  when-Quiet : (b : Bool) (m : Prog (Session W L) String (Unit {0})) → Quiet m → Quiet (when b m)
  when-Quiet true m quiet s = quiet s
  when-Quiet false m quiet s = (refl, refl)

  module _ (repo : String) (pr : ℕ) where
    check_pr_open-Quiet : Quiet (check_pr_open gh ops repo pr)
    unfolding check_pr_open
    check_pr_open-Quiet s = ground arith

    check_head_sha-Quiet : (sha : String) → Quiet (check_head_sha gh ops repo pr sha)
    unfolding check_head_sha
    check_head_sha-Quiet sha s = ground arith

    check_base_branch-Quiet :
        (allowed : List String) → Quiet (check_base_branch gh ops repo pr allowed)
    unfolding check_base_branch
    check_base_branch-Quiet allowed s = ground arith

    check_ci_green-Quiet : Quiet (check_ci_green gh ops repo pr)
    unfolding check_ci_green
    check_ci_green-Quiet s = ground arith

    check_mergeable-Quiet : Quiet (check_mergeable gh ops repo pr)
    unfolding check_mergeable
    check_mergeable-Quiet s = ground arith

    check_branch_protection-Quiet : Quiet (check_branch_protection gh ops repo pr)
    unfolding check_branch_protection
    check_branch_protection-Quiet s = ground arith

  check_token_permission-Quiet : (repo : String) → Quiet (check_token_permission gh ops repo)
  unfolding check_token_permission
  check_token_permission-Quiet repo s = ground arith

  check_rate_limit-Quiet : (repo : String) → Quiet (check_rate_limit gh ops repo)
  unfolding check_rate_limit
  check_rate_limit-Quiet repo s = ground arith

  check_idempotency-Quiet : (repo key : String) → Quiet (check_idempotency gh ops repo key)
  unfolding check_idempotency
  check_idempotency-Quiet repo key s = ground arith

  module _ (intent : ActionIntent) where
    abbrev Step : Type 0
    Step = Prog (Session W L) String (Unit {0})

    abbrev gate : Step → Step
    gate m = when (is_merge intent.action) m

    -- The checks of `runPreflightChecks` from each of them on.
    abbrev from_rate : Step
    from_rate =
        check_rate_limit gh ops cfg.repo >> check_idempotency gh ops cfg.repo intent.idempotency_key

    abbrev from_token : Step
    from_token = check_token_permission gh ops cfg.repo >> from_rate

    abbrev from_protection : Step
    from_protection = gate (check_branch_protection gh ops cfg.repo intent.pr_number) >> from_token

    abbrev from_mergeable : Step
    from_mergeable = gate (check_mergeable gh ops cfg.repo intent.pr_number) >> from_protection

    abbrev from_ci : Step
    from_ci = gate (check_ci_green gh ops cfg.repo intent.pr_number) >> from_mergeable

    from_rate-Quiet : Quiet from_rate
    from_rate-Quiet =
        seq-Quiet (check_rate_limit gh ops cfg.repo)
          (check_idempotency gh ops cfg.repo intent.idempotency_key)
          (check_rate_limit-Quiet cfg.repo)
          (check_idempotency-Quiet cfg.repo intent.idempotency_key)

    from_token-Quiet : Quiet from_token
    from_token-Quiet =
        seq-Quiet (check_token_permission gh ops cfg.repo) from_rate
          (check_token_permission-Quiet cfg.repo) from_rate-Quiet

    gate_seq-Quiet : (m k : Step) → Quiet m → Quiet k → Quiet (gate m >> k)
    gate_seq-Quiet m k first rest =
        seq-Quiet (gate m) k (when-Quiet (is_merge intent.action) m first) rest

    from_ci-Quiet : Quiet from_ci
    from_ci-Quiet =
        gate_seq-Quiet (check_ci_green gh ops cfg.repo intent.pr_number) from_mergeable
          (check_ci_green-Quiet cfg.repo intent.pr_number)
          (gate_seq-Quiet (check_mergeable gh ops cfg.repo intent.pr_number) from_protection
            (check_mergeable-Quiet cfg.repo intent.pr_number)
            (gate_seq-Quiet (check_branch_protection gh ops cfg.repo intent.pr_number) from_token
              (check_branch_protection-Quiet cfg.repo intent.pr_number) from_token-Quiet))

    abbrev base_check : Step
    base_check =
        check_base_branch gh ops cfg.repo intent.pr_number
          (string_slice_from_payload intent.payload "allowed_branches")

    abbrev sha_check : Step
    sha_check =
        check_head_sha gh ops cfg.repo intent.pr_number
          (raw_string intent.payload "expected_head_sha")

    pub run_preflight_checks-Quiet : Quiet (run_preflight_checks gh ops cfg.repo intent)
    unfolding run_preflight_checks
    run_preflight_checks-Quiet =
        seq-Quiet (check_pr_open gh ops cfg.repo intent.pr_number)
          (sha_check >> (base_check >> from_ci)) (check_pr_open-Quiet cfg.repo intent.pr_number)
          (seq-Quiet sha_check (base_check >> from_ci)
            (check_head_sha-Quiet cfg.repo intent.pr_number
              (raw_string intent.payload "expected_head_sha"))
            (seq-Quiet base_check from_ci
              (check_base_branch-Quiet cfg.repo intent.pr_number
                (string_slice_from_payload intent.payload "allowed_branches"))
              from_ci-Quiet))
