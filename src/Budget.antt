-- ===== src/Budget.antt =====
-- The rate limit budget of internal/telemetry/ratelimit, and the chunks of internal/sync/chunk_sizing.go.
pub mod Manager
pub mod Chunks
pub mod Bounds
