-- ===== src/Scenarios.antt =====
-- Concrete runs: tests of the model, and the theorems at inputs that meet their hypotheses.
mod WorkQueue
mod Execution
mod Slots
mod Triage
mod Selections
mod Working
mod Selectors
mod Graphs
mod Budgets
mod Plans
mod Stacked
