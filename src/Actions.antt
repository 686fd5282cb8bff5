-- ===== src/Actions.antt =====
-- internal/actions: the lane classifier and the policy gate.
pub mod Signals
pub mod Classifier
pub mod Policy
pub mod Lanes
pub mod Gate
pub mod Pending
