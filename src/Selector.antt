-- ===== src/Selector.antt =====
-- The selector expressions of internal/planning: selector_types.go, selector_parser.go and selector_eval.go.
pub mod Syntax
pub mod Expand
pub mod Print
pub mod Eval
pub mod Lexer
pub mod Parser
pub mod Warnings
pub mod Sizes
pub mod Fuel
pub mod Words
mod Readers
pub mod Spelling
mod Edges
pub mod RoundTrip
