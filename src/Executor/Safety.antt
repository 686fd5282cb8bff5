-- ===== src/Executor/Safety.antt =====
-- What `ExecuteIntent` of internal/executor/executor.go lets through to GitHub: only what the policy and
-- the dry-run switches consent to.
use pratc.Base.{
  ℕ, true, false, ◌≡◌, refl, ◌⊎◌, inl, inr, none, arith, Prog, done, final, Outcome-cases, ◌>>=◌,
  ◌>>◌,
}
use pratc.Model.Kinds.{ActionKind, autonomous, guarded, comment, label}
use pratc.Model.Records.{ActionIntent}
use pratc.Executor.Ledger.{Ledger, proposed, preflighted, of_intent, of_preflight}
use pratc.Executor.Mutator.{Mutator}
use pratc.Executor.Session.{Config, Session}
use pratc.Executor.Policy.{effective_dry_run, profile_allows, policy_allows}
use pratc.Executor.Perform.{Failure, fail_intent, record_stage, perform}
use pratc.Executor.Execute.{
  blank_result, gate_policy, gate_preflight, settle, execute_fresh, execute_intent,
}
use pratc.Executor.Facts.{Calls, IsKept}
use pratc.Executor.Worlds.{
  Kept, Emits, bind-Kept, seq-Kept, perform-Kept, record_stage-Kept, gate_policy-Kept,
  gate_preflight-Kept, settle-Kept,
}

-- A mutating call that the executor may make for an intent: on the configured repository and the pull request of
-- the intent; and a dry run, or both dry-run switches are off and the profile is autonomous, or guarded
-- and the call is a comment or labels.
abbrev pub Consented : Config → ActionIntent → Calls
Consented cfg intent kind repo pr dry =
    ((repo ≡ cfg.repo) × (pr ≡ intent.pr_number))
    × ((dry ≡ true)
        ⊎ (((cfg.dry_run ≡ false) × (intent.dry_run ≡ false))
            × ((cfg.policy_profile ≡ autonomous)
                ⊎ ((cfg.policy_profile ≡ guarded) × ((kind ≡ comment) ⊎ (kind ≡ label))))))

module _ {W L : Type 0} (gh : Mutator W) (ops : Ledger L) (cfg : Config) (now : ℕ)
    (intent : ActionIntent) (P : W → Type 0) (kept : IsKept gh (Consented cfg intent) P) where
  abbrev Safe : {A : Type 0} → Prog (Session W L) Failure A → Type 0
  Safe m = Kept {L = L} gh ops cfg now (Consented cfg intent) P kept m

  policy_allows-Emits :
      (a : ActionKind)
      → intent.action ≡ a
      → policy_allows cfg intent ≡ none
      → Emits {L = L} gh ops cfg now (Consented cfg intent) P kept intent a
  unfolding policy_allows profile_allows effective_dry_run
  policy_allows-Emits a e h = ground arith

  after_policy-Safe :
      policy_allows cfg intent ≡ none
      → Safe (
          gate_preflight gh ops cfg now intent
          >> (record_stage gh ops cfg now intent.idempotency_key preflighted
                (of_preflight intent.pr_number)
              >> (perform gh ops cfg now intent.action intent (blank_result gh ops cfg now intent)
                  >>= λ result. settle gh ops cfg now intent result)))
  after_policy-Safe h =
      let acted =
        perform-Kept gh ops cfg now (Consented cfg intent) P kept intent intent.action
          (blank_result gh ops cfg now intent) (policy_allows-Emits intent.action refl h) in
      search (bind-Kept, seq-Kept, gate_preflight-Kept, record_stage-Kept, settle-Kept, acted) depth
        20 fits 5000

  -- The policy gate lets through only what the policy allows, and leaves the session as it is.
  gate_policy-passed :
      (s t : Session W L)
      → gate_policy gh ops cfg now intent s ≡ done tt t
      → (policy_allows cfg intent ≡ none) × (t ≡ s)
  unfolding gate_policy fail_intent
  gate_policy-passed s t h = ground arith

  execute_fresh-Safe : Safe (execute_fresh gh ops cfg now intent)
  unfolding execute_fresh
  execute_fresh-Safe s h = elim (Outcome-cases (gate_policy gh ops cfg now intent s)) [
    | inl (u, t, e) ↦
        let passed = gate_policy-passed s t e in
        ground (arith, after_policy-Safe passed.0 s h, passed.1)
    | inr (_, t, e) ↦
        ground (arith, gate_policy-Kept gh ops cfg now (Consented cfg intent) P kept intent s h)
  ]

  -- Whatever ExecuteIntent returns, it makes no mutating call but on the configured repository and the intent's
  -- pull request, and each is a dry run, unless both dry-run switches are off and the policy profile is
  -- autonomous, or guarded and the call is a comment or labels: whatever such calls and the reading calls
  -- keep of GitHub's state, ExecuteIntent keeps.
  pub execute_intent-Consented :
      (s : Session W L) → P s.world → P (final (execute_intent gh ops cfg now intent s)).world
  unfolding execute_intent
  execute_intent-Consented s h =
      let propose =
        record_stage gh ops cfg now intent.idempotency_key proposed (of_intent intent.id) in
      let first =
        record_stage-Kept gh ops cfg now (Consented cfg intent) P kept intent proposed
          (of_intent intent.id) s h in
      elim (Outcome-cases (propose s)) [
        | inl (_, t, e) ↦ ground (arith, first, execute_fresh-Safe t)
        | inr (_, t, e) ↦ ground (arith, first)
      ]
