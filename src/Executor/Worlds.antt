-- ===== src/Executor/Worlds.antt =====
-- What `ExecuteIntent` of internal/executor/executor.go leaves of a fact about GitHub that certain calls keep.
use pratc.Base.{
  ℕ, String, Bool, true, false, List, [], ◌∷◌, arith, Prog, final, inl, inr, Outcome-cases, ◌>>=◌,
  ◌>>◌, when,
}
use pratc.Model.Kinds.{
  ActionKind, unset, merge, close, comment, label, request_changes, apply_fix, other,
}
use pratc.Model.Records.{ActionIntent, ExecutionResult}
use pratc.Executor.Ledger.{Ledger, Stage, Snapshot}
use pratc.Executor.Mutator.{Mutator}
use pratc.Executor.Session.{Config, Session, write}
use pratc.Executor.Preflight.{
  check_pr_open, check_head_sha, check_base_branch, check_ci_green, check_mergeable,
  check_branch_protection, check_token_permission, check_rate_limit, check_idempotency,
  run_preflight_checks, verify_state, verify_comment, verify_labels,
}
use pratc.Executor.Policy.{effective_dry_run, first_string, merge_options_from_payload}
use pratc.Executor.Execute.{gate_policy, gate_preflight, settle}
use pratc.Executor.Perform.{
  attempt, fail_intent, record_stage, perform_merge, perform_close, perform_comment, perform_label,
  perform_fix, perform, close_comment,
}
use pratc.Executor.Facts.{Calls, IsKept}

module _ {W L : Type 0} (gh : Mutator W) (ops : Ledger L) (cfg : Config) (now : ℕ) (may : Calls)
    (P : W → Type 0) (kept : IsKept gh may P) where
  -- A call that keeps the fact, on every exit.
  abbrev pub Kept : {E A : Type 0} → Prog (Session W L) E A → Type 0
  Kept m = (s : Session W L) → P s.world → P (final (m s)).world

  pub bind-Kept :
      {E A B : Type 0} (m : Prog (Session W L) E A) (f : A → Prog (Session W L) E B)
      → Kept m
      → ((a : A) → Kept (f a))
      → Kept (m >>= f)
  bind-Kept m f first rest s h = elim (Outcome-cases (m s)) [
    | inl (a, t, e) ↦ ground (arith, first s h, rest a t)
    | inr (_, t, e) ↦ ground (arith, first s h)
  ]

  pub seq-Kept :
      {E B : Type 0} (m : Prog (Session W L) E (Unit {0})) (f : Prog (Session W L) E B)
      → Kept m
      → Kept f
      → Kept (m >> f)
  seq-Kept m f first rest s h = elim (Outcome-cases (m s)) [
    | inl (_, t, e) ↦ ground (arith, first s h, rest t)
    | inr (_, t, e) ↦ ground (arith, first s h)
  ]

  when-Kept :
      {E : Type 0} (b : Bool) (m : Prog (Session W L) E (Unit {0})) → Kept m → Kept (when b m)
  when-Kept true m k s h = k s h
  when-Kept false m k s h = h

  module _ (pr : ℕ) where
    check_pr_open-Kept : Kept (check_pr_open gh ops cfg.repo pr)
    unfolding check_pr_open
    check_pr_open-Kept s h = ground (arith, kept.state cfg.repo pr s.world h)

    check_head_sha-Kept : (sha : String) → Kept (check_head_sha gh ops cfg.repo pr sha)
    unfolding check_head_sha
    check_head_sha-Kept sha s h = ground (arith, kept.head cfg.repo pr s.world h)

    check_base_branch-Kept :
        (allowed : List String) → Kept (check_base_branch gh ops cfg.repo pr allowed)
    unfolding check_base_branch
    check_base_branch-Kept allowed s h = ground (arith, kept.base cfg.repo pr s.world h)

    check_ci_green-Kept : Kept (check_ci_green gh ops cfg.repo pr)
    unfolding check_ci_green
    check_ci_green-Kept s h = ground (arith, kept.ci cfg.repo pr s.world h)

    check_mergeable-Kept : Kept (check_mergeable gh ops cfg.repo pr)
    unfolding check_mergeable
    check_mergeable-Kept s h = ground (arith, kept.mergeable cfg.repo pr s.world h)

    check_branch_protection-Kept : Kept (check_branch_protection gh ops cfg.repo pr)
    unfolding check_branch_protection
    check_branch_protection-Kept s h = ground (arith, kept.reviews cfg.repo pr s.world h)

    verify_state-Kept : (wanted : String) → Kept (verify_state gh ops cfg.repo wanted pr)
    unfolding verify_state
    verify_state-Kept wanted s h = ground (arith, kept.state cfg.repo pr s.world h)

    verify_comment-Kept : (body : String) → Kept (verify_comment gh ops cfg.repo pr body)
    unfolding verify_comment
    verify_comment-Kept body s h = ground (arith, kept.said cfg.repo pr s.world h)

    verify_labels-Kept : (wanted : List String) → Kept (verify_labels gh ops cfg.repo pr wanted)
    unfolding verify_labels
    verify_labels-Kept wanted s h = ground (arith, kept.labeled cfg.repo pr s.world h)

  check_token_permission-Kept : Kept (check_token_permission gh ops cfg.repo)
  unfolding check_token_permission
  check_token_permission-Kept s h = ground (arith, kept.rate s.world h)

  check_rate_limit-Kept : Kept (check_rate_limit gh ops cfg.repo)
  unfolding check_rate_limit
  check_rate_limit-Kept s h = ground (arith, kept.rate s.world h)

  check_idempotency-Kept : (key : String) → Kept (check_idempotency gh ops cfg.repo key)
  unfolding check_idempotency
  check_idempotency-Kept key s h = ground arith

  pub run_preflight_checks-Kept :
      (intent : ActionIntent) → Kept (run_preflight_checks gh ops cfg.repo intent)
  unfolding run_preflight_checks
  run_preflight_checks-Kept intent =
      search
        (
          seq-Kept, when-Kept, check_pr_open-Kept, check_head_sha-Kept, check_base_branch-Kept,
          check_ci_green-Kept, check_mergeable-Kept, check_branch_protection-Kept,
          check_token_permission-Kept, check_rate_limit-Kept, check_idempotency-Kept,
        )
        depth 20 fits 5000

  write-Kept :
      {A : Type 0} (kind : ActionKind) (pr : ℕ) (dry : Bool) (call : ℕ → Bool → Prog W String A)
      → ((w : W) → P w → P (final (call pr dry w)))
      → Kept (write {L = L} kind pr dry call)
  write-Kept kind pr dry call k s h = ground (arith, k s.world h)

  module _ (intent : ActionIntent) where
    abbrev pub May : ActionKind → Type 0
    May kind = may kind cfg.repo intent.pr_number (effective_dry_run cfg intent)

    attempt-Kept :
        {A : Type 0} (r : ExecutionResult) (m : Prog (Session W L) String A)
        → Kept m
        → Kept (attempt gh ops cfg now intent r m)
    unfolding attempt fail_intent
    attempt-Kept r m k s h = ground (arith, k s h)

    fail_intent-Kept :
        (r : ExecutionResult) (cause : String)
        → Kept (fail_intent gh ops cfg now {A = Unit {0}} intent r cause)
    unfolding fail_intent
    fail_intent-Kept r cause s h = ground arith

    module _ (r : ExecutionResult) where
      abbrev dry : Bool
      dry = effective_dry_run cfg intent

      perform_merge-Kept : May merge → Kept (perform_merge gh ops cfg now intent r)
      unfolding perform_merge
      perform_merge-Kept m =
          let options = merge_options_from_payload intent.payload in
          let acted =
            write-Kept merge intent.pr_number dry (λ pr d. gh.merge cfg.repo pr options d)
              (λ w. kept.merges cfg.repo intent.pr_number options dry w m) in
          search (bind-Kept, seq-Kept, when-Kept, attempt-Kept, verify_state-Kept, acted) depth 20
            fits 5000

      perform_comment-Kept : May comment → Kept (perform_comment gh ops cfg now intent r)
      unfolding perform_comment
      perform_comment-Kept m =
          let body = first_string intent.reasons "prATC action intent" in
          let acted =
            write-Kept comment intent.pr_number dry (λ pr d. gh.add_comment cfg.repo pr body d)
              (λ w. kept.comments cfg.repo intent.pr_number body dry w m) in
          search (seq-Kept, when-Kept, attempt-Kept, verify_comment-Kept, acted) depth 20 fits 5000

      perform_label-Kept : May label → Kept (perform_label gh ops cfg now intent r)
      unfolding perform_label
      perform_label-Kept m =
          let names : List String = "pratc-action" ∷ [] in
          let acted =
            write-Kept label intent.pr_number dry (λ pr d. gh.add_labels cfg.repo pr names d)
              (λ w. kept.labels cfg.repo intent.pr_number names dry w m) in
          search (seq-Kept, when-Kept, attempt-Kept, verify_labels-Kept, acted) depth 20 fits 5000

      perform_fix-Kept : May apply_fix → Kept (perform_fix gh ops cfg now intent r)
      unfolding perform_fix
      perform_fix-Kept m =
          let acted =
            write-Kept apply_fix intent.pr_number dry (λ pr d. gh.apply_fix cfg.repo pr "" d)
              (λ w. kept.fixes cfg.repo intent.pr_number "" dry w m) in
          search (bind-Kept, seq-Kept, when-Kept, attempt-Kept, verify_state-Kept, acted) depth 20
            fits 5000

      perform_close-Kept : May comment → May close → Kept (perform_close gh ops cfg now intent r)
      unfolding perform_close
      perform_close-Kept m c =
          let body = close_comment gh ops cfg now intent in
          let text = first_string (first_string intent.reasons "" ∷ body ∷ []) "closed by prATC" in
          let said =
            write-Kept comment intent.pr_number dry (λ pr d. gh.add_comment cfg.repo pr body d)
              (λ w. kept.comments cfg.repo intent.pr_number body dry w m) in
          let closed =
            write-Kept close intent.pr_number dry (λ pr d. gh.close cfg.repo pr text d)
              (λ w. kept.closes cfg.repo intent.pr_number text dry w c) in
          search
            (
              seq-Kept, when-Kept, attempt-Kept, fail_intent-Kept, verify_state-Kept,
              verify_comment-Kept, said, closed,
            )
            depth 20 fits 5000

    -- The calls that an action makes.
    abbrev pub Emits : ActionKind → Type 0
    Emits merge = May merge
    Emits close = May comment × May close
    Emits comment = May comment
    Emits request_changes = May comment
    Emits label = May label
    Emits apply_fix = May apply_fix
    Emits unset = Unit
    Emits (other name) = Unit

    pub perform-Kept :
        (a : ActionKind) (r : ExecutionResult) → Emits a → Kept (perform gh ops cfg now a intent r)
    unfolding perform
    perform-Kept merge r m = perform_merge-Kept r m
    perform-Kept close r m = perform_close-Kept r m.0 m.1
    perform-Kept comment r m = perform_comment-Kept r m
    perform-Kept request_changes r m = perform_comment-Kept r m
    perform-Kept label r m = perform_label-Kept r m
    perform-Kept apply_fix r m = perform_fix-Kept r m
    perform-Kept unset r m = λ s h. h
    perform-Kept (other name) r m = λ s h. h

    pub record_stage-Kept :
        (stage : Stage) (snapshot : Snapshot)
        → Kept (record_stage gh ops cfg now intent.idempotency_key stage snapshot)
    unfolding record_stage
    record_stage-Kept stage snapshot s h = ground arith

    pub settle-Kept : (r : ExecutionResult) → Kept (settle gh ops cfg now intent r)
    unfolding settle attempt fail_intent
    settle-Kept r s h = ground arith

    pub gate_policy-Kept : Kept (gate_policy gh ops cfg now intent)
    unfolding gate_policy fail_intent
    gate_policy-Kept s h = ground arith

    pub gate_preflight-Kept : Kept (gate_preflight gh ops cfg now intent)
    unfolding gate_preflight record_stage
    gate_preflight-Kept s h = ground (arith, run_preflight_checks-Kept intent s h)
