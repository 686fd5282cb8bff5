-- ===== src/Executor/Gated.antt =====
-- No mutating call of internal/executor/executor.go comes before the policy and the nine preflight
-- checks.
use pratc.Base.{ℕ, ◌≡◌, ◌⊎◌, inl, inr, none, arith, done, final, Outcome-cases}
use pratc.Model.Records.{ActionIntent}
use pratc.Executor.Ledger.{Ledger, proposed, of_intent}
use pratc.Executor.Mutator.{Mutator}
use pratc.Executor.Session.{Config, Session}
use pratc.Executor.Policy.{policy_allows}
use pratc.Executor.Preflight.{run_preflight_checks}
use pratc.Executor.Perform.{fail_intent, record_stage}
use pratc.Executor.Execute.{gate_policy, gate_preflight, execute_fresh, execute_intent}
use pratc.Executor.Writes.{record_stage-writes, gate_policy-writes, gate_preflight-writes}

module _ {W L : Type 0} (gh : Mutator W) (ops : Ledger L) (cfg : Config) (now : ℕ)
    (intent : ActionIntent) where
  -- The preflight checks were run with no call made since `s`, and all of them passed.
  abbrev pub Passed : Session W L → Type 0
  Passed s =
      (u : Session W L) × ((v : Session W L) × ((run_preflight_checks gh ops cfg.repo intent u
            ≡ done tt v)
          × (u.writes ≡ s.writes)))

  gate_preflight-done :
      (s t : Session W L)
      → gate_preflight gh ops cfg now intent s ≡ done tt t
      → run_preflight_checks gh ops cfg.repo intent s ≡ done tt t
  unfolding gate_preflight record_stage
  gate_preflight-done s t h = elim (Outcome-cases (run_preflight_checks gh ops cfg.repo intent s)) [
    | inl (_, u, e) ↦ ground (arith, e)
    | inr (_, u, e) ↦ ground (arith, e)
  ]

  gate_policy-done :
      (s t : Session W L)
      → gate_policy gh ops cfg now intent s ≡ done tt t
      → (policy_allows cfg intent ≡ none) × (t ≡ s)
  unfolding gate_policy fail_intent
  gate_policy-done s t h = ground arith

  execute_fresh-gated :
      (s : Session W L)
      → ((final (execute_fresh gh ops cfg now intent s)).writes ≡ s.writes)
        ⊎ ((policy_allows cfg intent ≡ none) × Passed s)
  unfolding execute_fresh
  execute_fresh-gated s = elim (Outcome-cases (gate_policy gh ops cfg now intent s)) [
    | inr (_, t, e) ↦ inl (ground (arith, gate_policy-writes gh ops cfg now intent s))
    | inl (_, t, e) ↦ elim (Outcome-cases (gate_preflight gh ops cfg now intent t)) [
      | inr (_, u, e') ↦ inl (
          ground (
            arith,
            gate_policy-writes gh ops cfg now intent s,
            gate_preflight-writes gh ops cfg now intent t,
          ))
      | inl (_, u, e') ↦ inr (
        (gate_policy-done s t e).0,
        (t, (u, (gate_preflight-done t u e', ground (arith, gate_policy-done s t e)))),
      )
    ]
  ]

  -- ExecuteIntent calls nothing that could change GitHub, unless the policy allows the action and all the
  -- preflight checks have passed before the first such call.
  pub execute_intent-gated :
      (s : Session W L)
      → ((final (execute_intent gh ops cfg now intent s)).writes ≡ s.writes)
        ⊎ ((policy_allows cfg intent ≡ none) × Passed s)
  unfolding execute_intent
  execute_intent-gated s =
      let quiet =
        record_stage-writes gh ops cfg now intent.idempotency_key proposed (of_intent intent.id)
          s in
      elim (Outcome-cases
        (record_stage gh ops cfg now intent.idempotency_key proposed (of_intent intent.id) s)) [
          | inr (_, t, e) ↦ inl (ground (arith, quiet))
          | inl (_, t, e) ↦ elim (execute_fresh-gated t) [
            | inl same ↦ inl (ground (arith, quiet, same))
            | inr (p, (u, (v, (r, q)))) ↦ inr (p, (u, (v, (r, ground (arith, quiet, q)))))
          ]
        ]
