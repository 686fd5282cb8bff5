-- ===== src/Formula.antt =====
-- internal/formula: the enumeration of candidate selections by index.
pub mod Modes
pub mod Digits
pub mod Positions
pub mod Choices
pub mod Binomials
pub mod Combinations
pub mod Generate
