-- ===== src/Queue.antt =====
-- internal/workqueue/queue.go: the leased work queue over SQLite. `Store` holds the tables and the SQL
-- statements, the other children the operations and what is proved of them.
pub mod Store
pub mod Rows
pub mod Lease
pub mod Leasing
pub mod Intake
pub mod Evidence
pub mod Consistent
pub mod System
pub mod Columns
pub mod HeldRows
pub mod Held
pub mod Exclusion
pub mod Grants
pub mod Lifecycle
pub mod Expiry
pub mod Offers
pub mod Keys
pub mod Attach
