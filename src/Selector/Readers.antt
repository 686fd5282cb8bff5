-- ===== src/Selector/Readers.antt =====
-- What the parser of internal/planning/selector_parser.go reads off the pieces of a printed selector.
use pratc.Base.{ℕ, suc, ◌^◌, ◌<◌, Bool, true, false, ◌≡◌, refl, List, [], ◌∷◌, ◌++◌, arith, done}
use package.pratc.Selector.Syntax.{SelectNode, select_id_set, select_range, Nodes, nil, cons}
use package.pratc.Selector.Lexer.{Token, token_minus}
use package.pratc.Selector.Print.{codes, decimal}
use package.pratc.Selector.Parser.{
  parser_at, advance, parse_range_end, parse_range, parse_atomic, close_paren, parse_or_expr,
  parse_ors, parse_ands, parse_term, or_node, and_node,
}
use package.pratc.Selector.Words.{
  stops, atoi-decimal, parser_at-decimal, parser_at-minus, parser_at-lparen, parser_at-rparen,
  parser_at-and, parser_at-or, parser_at-space,
}

abbrev pub is_minus : Token → Bool
is_minus token_minus = true
is_minus _ = false

-- A text that may follow a term.
abbrev pub Follows : List ℕ → Type 0
Follows rest = (stops rest ≡ true) × (is_minus (parser_at rest).current ≡ false)

pub parse_id :
    (n : ℕ) (rest : List ℕ)
    → n < 2 ^ 63
    → Follows rest
    → parse_atomic (parser_at (decimal n ++ rest)) ≡ done (select_id_set (n ∷ [])) (parser_at rest)
unfolding parse_atomic parse_range advance
parse_id n rest h f = ground (arith, parser_at-decimal n rest f.0, atoi-decimal n h)

stops-minus : (rest : List ℕ) → stops (codes "-" ++ rest) ≡ true
unfolding stops codes
stops-minus rest = refl

pub parse_range-printed :
    (a b : ℕ) (rest : List ℕ)
    → a < b
    → b < 2 ^ 63
    → Follows rest
    → parse_atomic (parser_at (decimal a ++ (codes "-" ++ (decimal b ++ rest))))
      ≡ done (select_range a b) (parser_at rest)
unfolding parse_atomic parse_range parse_range_end advance
parse_range-printed a b rest l h f = ground (
  arith,
  parser_at-decimal a (codes "-" ++ (decimal b ++ rest)) (stops-minus (decimal b ++ rest)),
  atoi-decimal a (omega arith),
  parser_at-minus (decimal b ++ rest),
  parser_at-decimal b rest f.0,
  atoi-decimal b h,
)

-- What the parser gives for `(` left and the others `)`, from what it gives for these.
pub parse_term-and :
    (fuel : ℕ) (left : SelectNode) (others : Nodes) (inside tail rest : List ℕ)
    → parse_term fuel (parser_at inside) ≡ done left (parser_at tail)
    → parse_ands fuel (parser_at tail) ≡ done others (parser_at (codes ")" ++ rest))
    → parse_term (suc (suc (suc fuel))) (parser_at (codes "(" ++ inside))
      ≡ done (and_node left others) (parser_at rest)
unfolding parse_or_expr close_paren advance
parse_term-and fuel left others inside tail rest first more =
    ground (arith, first, more, parser_at-lparen inside, parser_at-rparen rest)

pub parse_term-or :
    (fuel : ℕ) (left : SelectNode) (others : Nodes) (inside tail rest : List ℕ)
    → parse_term fuel (parser_at inside) ≡ done left (parser_at tail)
    → parse_ands fuel (parser_at tail) ≡ done nil (parser_at tail)
    → parse_ors (suc fuel) (parser_at tail) ≡ done others (parser_at (codes ")" ++ rest))
    → parse_term (suc (suc (suc fuel))) (parser_at (codes "(" ++ inside))
      ≡ done (or_node left others) (parser_at rest)
unfolding parse_or_expr close_paren advance
parse_term-or fuel left others inside tail rest first none_left more =
    ground (arith, first, none_left, more, parser_at-lparen inside, parser_at-rparen rest)

pub parse_ands-step :
    (fuel : ℕ) (right : SelectNode) (others : Nodes) (inside tail rest : List ℕ)
    → parse_term fuel (parser_at inside) ≡ done right (parser_at tail)
    → parse_ands fuel (parser_at tail) ≡ done others (parser_at rest)
    → parse_ands (suc fuel) (parser_at (codes " AND " ++ inside))
      ≡ done (cons right others) (parser_at rest)
unfolding parse_or_expr advance
parse_ands-step fuel right others inside tail rest first more =
    ground (arith, first, more, parser_at-and inside, parser_at-space inside)

pub parse_ors-step :
    (fuel : ℕ) (right : SelectNode) (others : Nodes) (inside tail rest : List ℕ)
    → parse_term fuel (parser_at inside) ≡ done right (parser_at tail)
    → parse_ands fuel (parser_at tail) ≡ done nil (parser_at tail)
    → parse_ors (suc fuel) (parser_at tail) ≡ done others (parser_at rest)
    → parse_ors (suc (suc fuel)) (parser_at (codes " OR " ++ inside))
      ≡ done (cons right others) (parser_at rest)
unfolding parse_or_expr advance
parse_ors-step fuel right others inside tail rest first none_left more =
    ground (arith, first, none_left, more, parser_at-or inside, parser_at-space inside)
