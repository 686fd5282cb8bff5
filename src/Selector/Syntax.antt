-- ===== src/Selector/Syntax.antt =====
-- The syntax of selectors, of internal/planning/selector_types.go. The parser reads natural numbers only, so
-- an ID is one here.
use pratc.Base.{ℕ, List}

-- The implementations of `SelectNode`; a list of children is a type of the same block.
mutual
  pub data SelectNode : Type 0 where
    select_or : Nodes → SelectNode
    select_and : Nodes → SelectNode
    select_id_set : List ℕ → SelectNode
    select_range : ℕ → ℕ → SelectNode

  pub data Nodes : Type 0 where
    nil : Nodes
    cons : SelectNode → Nodes → Nodes

-- The codes of a `SelectorError` that the parser gives; its message is left out. The last one is that of the
-- model: no run of the program gives it.
pub data SelectorErrorCode : Type 0 where
  invalid_syntax empty_expression invalid_range invalid_id unexpected_token mismatched_paren
        out_of_fuel :
      SelectorErrorCode
