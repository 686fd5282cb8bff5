-- ===== src/Executor/Breaker.antt =====
-- internal/executor/circuit_breaker.go: the limits on live mutations in flight. A slot that Acquire
-- hands out is released by a closure with a flag of its own; the model numbers the slots and keeps the
-- list of those not released, so releasing a slot twice is written out.
use pratc.Base.{
  ℕ, ◌+◌, ◌-◌, String, not, List, [], ◌∷◌, if◌then◌else◌, ltb, leb, str_eq, Prog, ◌>>=◌, ◌>>◌,
  return, ensure, modify, gets, final, Option, none, some, ◌==◌,
}

pub record CircuitBreakerConfig : Type 0 where
  pub max_global : ℕ
  pub max_per_repo : ℕ

-- A slot that was acquired: what the release function closes over.
pub record Slot : Type 0 where
  pub id : ℕ
  pub repo : String

pub record MutationCircuitBreaker : Type 0 where
  pub cfg : CircuitBreakerConfig
  pub global : ℕ
  pub by_repo : List (String × ℕ)
  -- The slots whose `released` is still false, and the number of the next slot.
  pub unreleased : List Slot
  pub next : ℕ

-- `byRepo[repo]`, 0 for a missing key.
unfoldable pub in_flight : String → List (String × ℕ) → ℕ
in_flight repo [] = 0
in_flight repo ((r, n) ∷ rest) = if str_eq r repo then n else in_flight repo rest

-- `byRepo[repo] = count`.
unfoldable pub set_in_flight : String → ℕ → List (String × ℕ) → List (String × ℕ)
set_in_flight repo count [] = (repo, count) ∷ []
set_in_flight repo count ((r, n) ∷ rest) =
    if str_eq r repo then (r, count) ∷ rest else (r, n) ∷ set_in_flight repo count rest

-- `delete(byRepo, repo)`.
unfoldable pub delete_repo : String → List (String × ℕ) → List (String × ℕ)
delete_repo repo [] = []
delete_repo repo ((r, n) ∷ rest) =
    let others = delete_repo repo rest in if str_eq r repo then others else (r, n) ∷ others

abbrev positive_or_one : ℕ → ℕ
positive_or_one n = if ltb 0 n then n else 1

-- `NewMutationCircuitBreaker`.
unfoldable pub new_breaker : CircuitBreakerConfig → MutationCircuitBreaker
new_breaker cfg = record {
  cfg = record {
    max_global = positive_or_one cfg.max_global;
    max_per_repo = positive_or_one cfg.max_per_repo;
  };
  global = 0;
  by_repo = [];
  unreleased = [];
  next = 0;
}

abbrev pub taken : String → MutationCircuitBreaker → MutationCircuitBreaker
taken repo b = record b {
  global = b.global + 1;
  by_repo = set_in_flight repo (in_flight repo b.by_repo + 1) b.by_repo;
  unreleased = record { id = b.next; repo = repo } ∷ b.unreleased;
  next = b.next + 1;
}

-- `Acquire`: the number of the slot that is reserved.
unfoldable pub acquire : String → Prog MutationCircuitBreaker String ℕ
acquire repo = do
  ensure (not (str_eq repo "")) "repo is required"
  global_full ← gets (λ b. leb b.cfg.max_global b.global)
  ensure (not global_full) "global limit exceeded"
  repo_full ← gets (λ b. leb b.cfg.max_per_repo (in_flight repo b.by_repo))
  ensure (not repo_full) "repo limit exceeded"
  slot ← gets (λ b. b.next)
  modify (taken repo)
  return slot

-- The slot with this number, if its `released` is false.
unfoldable pub find_slot : ℕ → List Slot → Option Slot
find_slot id [] = none
find_slot id (s ∷ ss) = if s.id == id then some s else find_slot id ss

unfoldable pub remove_slot : ℕ → List Slot → List Slot
remove_slot id [] = []
remove_slot id (s ∷ ss) = if s.id == id then ss else s ∷ remove_slot id ss

-- `if b.byRepo[repo] > 1 { b.byRepo[repo]-- } else { delete(b.byRepo, repo) }`.
unfoldable pub drop_in_flight : String → List (String × ℕ) → List (String × ℕ)
drop_in_flight repo m =
    if ltb 1 (in_flight repo m)
    then set_in_flight repo (in_flight repo m - 1) m
    else delete_repo repo m

-- The function that Acquire returns: the slot's first release counts, and no later one.
unfoldable pub release : ℕ → MutationCircuitBreaker → MutationCircuitBreaker
release id b = elim (find_slot id b.unreleased) [
  | none ↦ b
  | some s ↦ record b {
    global = if ltb 0 b.global then b.global - 1 else b.global;
    by_repo = drop_in_flight s.repo b.by_repo;
    unreleased = remove_slot id b.unreleased;
  }
]

-- The calls of several executions, in the order in which they take the breaker's lock.
pub data Call : Type 0 where
  acquire_slot : String → Call
  release_slot : ℕ → Call

unfoldable pub step : Call → MutationCircuitBreaker → MutationCircuitBreaker
step (acquire_slot repo) b = final (acquire repo b)
step (release_slot id) b = release id b

unfoldable pub steps : List Call → MutationCircuitBreaker → MutationCircuitBreaker
steps [] b = b
steps (c ∷ cs) b = steps cs (step c b)
