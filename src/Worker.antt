-- ===== src/Worker.antt =====
-- The executor worker of internal/executor/worker.go.
pub mod Process
mod Exits
pub mod Load
pub mod Dry
pub mod Steady
mod Rounds
pub mod Verified
