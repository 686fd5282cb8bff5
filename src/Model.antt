-- ===== src/Model.antt =====
-- internal/types/models.go: the data that the work queue, the executor and the policy gates share.
pub mod Kinds
pub mod Records
pub mod Proof
