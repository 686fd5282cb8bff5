-- ===== src/Executor.antt =====
-- internal/executor: the audited executor of action intents.
pub mod Ledger
pub mod Mutator
pub mod Session
pub mod Preflight
pub mod Policy
pub mod Perform
pub mod Execute
pub mod Quiet
pub mod Writes
pub mod Facts
pub mod Worlds
pub mod Safety
pub mod Keys
pub mod Once
pub mod Gated
pub mod Breaker
pub mod InFlight
pub mod Limits
