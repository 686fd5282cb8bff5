-- ===== src/Worker/Load.antt =====
-- The circuit breaker under `ProcessOnce` of internal/executor/worker.go: the worker gives back every
-- slot that it takes.
use pratc.Base.{
  ℕ, String, ◌≡◌, refl, inl, inr, done, final, Outcome-cases, Bool-cases, arith, subst, sym, ◌∙◌,
}
use pratc.Model.Records.{ActionWorkItem, ActionIntent}
use pratc.Executor.Ledger.{Ledger}
use pratc.Executor.Mutator.{Mutator}
use pratc.Executor.Execute.{execute_intent}
use pratc.Executor.Breaker.{MutationCircuitBreaker, in_flight, acquire, release}
use pratc.Executor.Limits.{
  IsBalanced, acquire-IsBalanced, release-IsBalanced, refused_unchanged, acquire-release,
}
use package.pratc.Worker.Process.{
  WorkerConfig, WorkerState, is_live, config_for, process_intent, process_once,
}
use package.pratc.Worker.Exits.{after_execution-Keeps, deny-Keeps, process_once-Keeps}

-- The breaker's counters are right and what they were.
pub record SameLoad (b c : MutationCircuitBreaker) : Type 0 where
  pub balanced : IsBalanced c
  pub same_global : c.global ≡ b.global
  pub same_repo : (repo : String) → in_flight repo c.by_repo ≡ in_flight repo b.by_repo

acquire-release-SameLoad :
    (a b c : MutationCircuitBreaker) (repo : String) (slot : ℕ)
    → SameLoad a b
    → acquire repo b ≡ done slot c
    → SameLoad a (release slot c)
acquire-release-SameLoad a b c repo slot h e = record {
  balanced =
      release-IsBalanced slot c
        (subst (λ o. IsBalanced (final o)) e (acquire-IsBalanced repo b h.balanced));
  same_global = (acquire-release repo repo slot b c h.balanced e).0 ∙ h.same_global;
  same_repo = λ q. (acquire-release repo q slot b c h.balanced e).1 ∙ h.same_repo q;
}

module _ {W L : Type 0} (gh : Mutator W) (ops : Ledger L) (cfg : WorkerConfig) (now : ℕ) where
  module _ (b : MutationCircuitBreaker) where
    abbrev Loaded : WorkerState W L → Type 0
    Loaded s = SameLoad b s.breaker

    process_intent-SameLoad :
        (intent : ActionIntent) (current : ActionWorkItem) (s : WorkerState W L)
        → Loaded s
        → Loaded (final (process_intent gh ops cfg now intent current s))
    unfolding process_intent
    process_intent-SameLoad intent current s h =
        let run = execute_intent gh ops (config_for gh ops cfg now intent) now intent s.session in
        let after = λ (t : WorkerState W L).
          after_execution-Keeps Loaded gh ops cfg now (λ _ _ _ _ _ k. k) current run t in
        elim (Bool-cases (is_live gh ops cfg now intent)) [
          | inl live ↦ elim (Outcome-cases (acquire cfg.repo s.breaker)) [
            | inl (slot, c, e) ↦ ground (
              arith,
              after (record s { breaker = release slot c })
                  (acquire-release-SameLoad b s.breaker c cfg.repo slot h e),
            )
            | inr (cause, c, e) ↦ ground (
              arith,
              deny-Keeps Loaded gh ops cfg now (λ _ _ _ _ _ k. k) intent current cause
                  (record s { breaker = c })
                  (subst (SameLoad b) (sym (refused_unchanged cfg.repo cause s.breaker c e)) h),
            )
          ]
          | inr dry ↦ ground (arith, after s h)
        ]

  -- From a breaker whose counters are right, whatever happens to the item and its intents and on every
  -- exit of ProcessOnce, errors included, the counters are right at the end and as many live mutations
  -- are in flight as before, in all and for each repository: no slot is lost.
  pub process_once-SameLoad :
      (s : WorkerState W L)
      → IsBalanced s.breaker
      → SameLoad s.breaker (final (process_once gh ops cfg now s)).breaker
  process_once-SameLoad s h =
      process_once-Keeps (Loaded s.breaker) gh ops cfg now (λ _ _ k. k)
        (process_intent-SameLoad s.breaker) s
        (record { balanced = h; same_global = refl; same_repo = λ q. refl })
