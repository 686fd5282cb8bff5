-- ===== src/Scenarios/Slots.antt =====
-- Runs of the circuit breaker, and its theorems there.
use pratc.Base.{◌≡◌, refl, List, [], ◌∷◌, done}
use pratc.Executor.Breaker.{
  CircuitBreakerConfig, MutationCircuitBreaker, in_flight, new_breaker, taken, acquire, find_slot,
  remove_slot, drop_in_flight, set_in_flight, delete_repo, release, Call, acquire_slot,
  release_slot, step, steps,
}
use pratc.Executor.Limits.{IsBalanced, steps-IsBalanced}

abbrev two : CircuitBreakerConfig
two = record { max_global = 2; max_per_repo = 1 }

abbrev calls : List Call
calls =
    acquire_slot "o/r"
    ∷ acquire_slot "o/r"
    ∷ acquire_slot "o/s"
    ∷ acquire_slot "o/t"
    ∷ release_slot 0
    ∷ release_slot 0
    ∷ []

abbrev used : MutationCircuitBreaker
used = steps calls (new_breaker two)

used_global : used.global ≡ 1
unfolding steps step new_breaker acquire release in_flight set_in_flight delete_repo drop_in_flight
    find_slot remove_slot
used_global = refl

steps-IsBalanced_example : IsBalanced (steps calls (new_breaker two))
steps-IsBalanced_example = steps-IsBalanced two calls

fresh_slot : acquire "o/r" (new_breaker two) ≡ done 0 (taken "o/r" (new_breaker two))
unfolding acquire new_breaker in_flight
fresh_slot = refl
