-- ===== src/Graph.antt =====
-- The dependency graph of internal/graph.
pub mod Order
pub mod Noise
pub mod Conflicts
pub mod Build
pub mod Stacks
pub mod StackOrder
mod Degrees
mod Relax
pub mod Visit
pub mod Topological
pub mod Cycle
