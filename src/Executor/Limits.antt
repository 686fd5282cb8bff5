-- ===== src/Executor/Limits.antt =====
-- The circuit breaker of internal/executor/circuit_breaker.go counts what is in flight, and keeps it
-- within its limits.
use pratc.Base.{
  ℕ, ◌+◌, ◌<◌, ◌≤◌, String, ◌≡◌, refl, inl, inr, List, [], ◌∷◌, some, arith, str_eq_iff, length,
  done, fail, final, Outcome-cases, Option-cases, subst, sym,
}
use pratc.Executor.Breaker.{
  CircuitBreakerConfig, Slot, MutationCircuitBreaker, in_flight, new_breaker, acquire, taken,
  find_slot, remove_slot, release, Call, acquire_slot, release_slot, step, steps,
}
use pratc.Executor.InFlight.{
  slots_of, Descending, in_flight-set_in_flight, in_flight-drop_in_flight, length-remove_slot,
  slots_of-remove_slot, Descending-remove_slot, find_slot-remove_slot,
}

-- The counters count the slots that are not released, within the limits.
pub record IsBalanced (b : MutationCircuitBreaker) : Type 0 where
  pub counted : b.global ≡ length b.unreleased
  pub repo_counted : (repo : String) → in_flight repo b.by_repo ≡ slots_of repo b.unreleased
  pub within : b.global ≤ b.cfg.max_global
  pub repo_within : (repo : String) → slots_of repo b.unreleased ≤ b.cfg.max_per_repo
  pub numbered : Descending b.next b.unreleased

new_breaker-IsBalanced : (cfg : CircuitBreakerConfig) → IsBalanced (new_breaker cfg)
unfolding new_breaker in_flight slots_of Descending
new_breaker-IsBalanced cfg = record {
  counted = refl;
  repo_counted = λ repo. refl;
  within = ground arith;
  repo_within = λ repo. ground arith;
  numbered = tt;
}

taken-IsBalanced :
    (repo : String) (b : MutationCircuitBreaker)
    → IsBalanced b
    → b.global < b.cfg.max_global
    → in_flight repo b.by_repo < b.cfg.max_per_repo
    → IsBalanced (taken repo b)
unfolding slots_of Descending
taken-IsBalanced repo b h g r = record {
  counted = ground (arith, h.counted);
  repo_counted = λ q. ground (
    arith,
    h.repo_counted q,
    h.repo_counted repo,
    str_eq_iff repo q,
    in_flight-set_in_flight q repo (in_flight repo b.by_repo + 1) b.by_repo,
  );
  within = ground arith;
  repo_within = λ q.
      ground (arith, h.repo_counted repo, h.repo_within q, h.repo_within repo, str_eq_iff repo q);
  numbered = ground (arith, h.numbered);
}

pub refused_unchanged :
    (repo cause : String) (b c : MutationCircuitBreaker) → acquire repo b ≡ fail cause c → c ≡ b
unfolding acquire
refused_unchanged repo cause b c e = ground arith

acquire-taken :
    (repo : String) (id : ℕ) (b c : MutationCircuitBreaker)
    → acquire repo b ≡ done id c
    → ((c ≡ taken repo b) × (id ≡ b.next))
      × ((b.global < b.cfg.max_global) × (in_flight repo b.by_repo < b.cfg.max_per_repo))
unfolding acquire
acquire-taken repo id b c e = ground arith

pub acquire-IsBalanced :
    (repo : String) (b : MutationCircuitBreaker)
    → IsBalanced b
    → IsBalanced (final (acquire repo b))
acquire-IsBalanced repo b h = elim (Outcome-cases (acquire repo b)) [
  | inr (cause, c, e) ↦ rw e (subst IsBalanced (sym (refused_unchanged repo cause b c e)) h)
  | inl (id, c, e) ↦
      let facts = acquire-taken repo id b c e in
      rw e (subst IsBalanced (sym facts.0.0) (taken-IsBalanced repo b h facts.1.0 facts.1.1))
]

release_found-IsBalanced :
    (id : ℕ) (b : MutationCircuitBreaker) (s : Slot)
    → IsBalanced b
    → find_slot id b.unreleased ≡ some s
    → IsBalanced (release id b)
unfolding release
release_found-IsBalanced id b s h e =
    rw (e, release)
      (record {
        counted = ground (arith, h.counted, length-remove_slot id b.unreleased s e);
        repo_counted = λ q. ground (
          arith,
          h.repo_counted q,
          slots_of-remove_slot q id b.unreleased s e,
          in_flight-drop_in_flight q s.repo b.by_repo,
        );
        within = ground (arith, h.within);
        repo_within =
            λ q. ground (arith, h.repo_within q, slots_of-remove_slot q id b.unreleased s e);
        numbered = Descending-remove_slot b.next id b.unreleased h.numbered;
      })

pub release-IsBalanced :
    (id : ℕ) (b : MutationCircuitBreaker) → IsBalanced b → IsBalanced (release id b)
unfolding release
release-IsBalanced id b h = elim (Option-cases (find_slot id b.unreleased)) [
  | inl e ↦ rw (e, release) h
  | inr (s, e) ↦ release_found-IsBalanced id b s h e
]

step-IsBalanced : (c : Call) (b : MutationCircuitBreaker) → IsBalanced b → IsBalanced (step c b)
unfolding step
step-IsBalanced (acquire_slot repo) b h = acquire-IsBalanced repo b h
step-IsBalanced (release_slot id) b h = release-IsBalanced id b h

steps-IsBalanced_from :
    (cs : List Call) (b : MutationCircuitBreaker) → IsBalanced b → IsBalanced (steps cs b)
unfolding steps
steps-IsBalanced_from [] b h = h
steps-IsBalanced_from (c ∷ cs) b h = steps-IsBalanced_from cs (step c b) (step-IsBalanced c b h)

-- However the acquisitions and releases of several executions are ordered, the breaker counts exactly
-- the slots that are not released, in all and for each repository, and never exceeds its limits.
pub steps-IsBalanced :
    (cfg : CircuitBreakerConfig) (cs : List Call) → IsBalanced (steps cs (new_breaker cfg))
steps-IsBalanced cfg cs = steps-IsBalanced_from cs (new_breaker cfg) (new_breaker-IsBalanced cfg)

-- In a breaker whose counters are right, the second release of a slot does nothing.
release_again :
    (id : ℕ) (b : MutationCircuitBreaker) → IsBalanced b → release id (release id b) ≡ release id b
unfolding release
release_again id b h = elim (Option-cases (find_slot id b.unreleased)) [
  | inl e ↦ ground arith
  | inr (s, e) ↦ ground (arith, find_slot-remove_slot id b.next b.unreleased h.numbered)
]

-- In a breaker whose counters are right, to acquire a slot and release it puts the number of live
-- mutations back to what it was, in all and for each repository.
pub acquire-release :
    (repo q : String) (id : ℕ) (b c : MutationCircuitBreaker)
    → IsBalanced b
    → acquire repo b ≡ done id c
    → ((release id c).global ≡ b.global)
      × (in_flight q (release id c).by_repo ≡ in_flight q b.by_repo)
unfolding release find_slot remove_slot
acquire-release repo q id b c h e =
    let facts = acquire-taken repo id b c e in
    ground (
      arith,
      facts,
      in_flight-drop_in_flight q repo c.by_repo,
      in_flight-set_in_flight q repo (in_flight repo b.by_repo + 1) b.by_repo,
      str_eq_iff repo q,
    )
