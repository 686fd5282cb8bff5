-- ===== src/Selector/Parser.antt =====
-- The parser of internal/planning/selector_parser.go, by recursive descent. A `Parser` is the state that its
-- methods share: the bytes that the lexer has not read, and the current token.
use pratc.Base.{
  ℕ, zero, suc, ◌+◌, ◌-◌, ◌*◌, ◌/◌, ◌%◌, ◌^◌, Bool, true, List, [], ◌∷◌, Option, none, some,
  if◌then◌else◌, ltb, Prog, Outcome, done, fail, ◌>>=◌, return, is_space, length,
}
use package.pratc.Selector.Syntax.{
  SelectNode, select_or, select_and, select_id_set, select_range, Nodes, nil, cons,
  SelectorErrorCode, invalid_syntax, empty_expression, invalid_range, invalid_id, unexpected_token,
  mismatched_paren, out_of_fuel,
}
use package.pratc.Selector.Lexer.{
  Token, token_eof, token_and, token_or, token_lparen, token_rparen, token_minus, token_id,
  is_digit, next_token,
}

pub record Parser : Type 0 where
  pub input : List ℕ
  pub current : Token

abbrev pub Parse : Type 0 → Type 0
Parse A = Prog Parser SelectorErrorCode A

-- The parser that reads its first token off an input.
unfoldable pub parser_at : List ℕ → Parser
unfolding next_token
parser_at input = let (token, rest) = next_token input in record { input = rest; current = token }

-- `advance`.
unfoldable pub advance : Parser → Parser
unfolding parser_at
advance p = parser_at p.input

-- `strconv.Atoi` of letters, digits and underscores.
unfoldable pub digits_value : ℕ → List ℕ → Option ℕ
unfolding is_digit
digits_value acc [] = some acc
digits_value acc (c ∷ cs) =
    let rest = digits_value (acc * 10 + (c - 48)) cs in if is_digit c then rest else none

abbrev in_range : ℕ → Option ℕ
in_range n = if ltb n (2 ^ 63) then some n else none

unfoldable pub atoi : List ℕ → Option ℕ
unfolding digits_value
atoi [] = none
atoi (c ∷ cs) = elim (digits_value 0 (c ∷ cs)) [ none ↦ none | some n ↦ in_range n ]

-- `parseAtomic`: `parse_range_end` follows an ID and a minus, `parse_range` an ID.
unfoldable pub parse_range_end : ℕ → Parse SelectNode
unfolding advance atoi
parse_range_end first p = elim p.current [
  | token_id value ↦ elim (atoi value) [
    | none ↦ fail invalid_id p
    | some second ↦
        if ltb second first
        then fail invalid_range p
        else done (select_range first second) (advance p)
  ]
  | _ ↦ fail invalid_syntax p
]

unfoldable pub parse_range : ℕ → Parse SelectNode
unfolding advance parse_range_end
parse_range first p = elim p.current [
  | token_minus ↦ parse_range_end first (advance p)
  | _ ↦ done (select_id_set (first ∷ [])) p
]

unfoldable pub parse_atomic : Parse SelectNode
unfolding advance atoi parse_range
parse_atomic p = elim p.current [
  | token_id value ↦ elim (atoi value) [
    | none ↦ fail invalid_id p
    | some first ↦ parse_range first (advance p)
  ]
  | _ ↦ fail invalid_syntax p
]

-- `if len(children) == 1 { return children[0], nil }`.
abbrev pub or_node : SelectNode → Nodes → SelectNode
or_node left nil = left
or_node left (cons right rest) = select_or (cons left (cons right rest))

abbrev pub and_node : SelectNode → Nodes → SelectNode
and_node left nil = left
and_node left (cons right rest) = select_and (cons left (cons right rest))

-- The end of `parseTerm` after an expression in parentheses.
unfoldable pub close_paren : SelectNode → Parse SelectNode
unfolding advance
close_paren node p = elim p.current [
  | token_rparen ↦ done node (advance p)
  | _ ↦ fail mismatched_paren p
]

-- `parseOrExpr`, `parseAndExpr` and `parseTerm`, with the loops of the first two. Each call costs a unit of
-- fuel.
unfoldable mutual
  unfolding advance parse_atomic close_paren

  pub parse_or_expr : ℕ → Parse SelectNode
  parse_or_expr zero p = fail out_of_fuel p
  parse_or_expr (suc fuel) p =
      (parse_and_expr fuel >>= λ left. parse_ors fuel >>= λ rest. return (or_node left rest)) p

  pub parse_ors : ℕ → Parse Nodes
  parse_ors zero p = fail out_of_fuel p
  parse_ors (suc fuel) p =
      let more =
        (parse_and_expr fuel >>= λ right. parse_ors fuel >>= λ rest. return (cons right rest))
          (advance p) in
      elim p.current [ token_or ↦ more | _ ↦ done nil p ]

  pub parse_and_expr : ℕ → Parse SelectNode
  parse_and_expr zero p = fail out_of_fuel p
  parse_and_expr (suc fuel) p =
      (parse_term fuel >>= λ left. parse_ands fuel >>= λ rest. return (and_node left rest)) p

  pub parse_ands : ℕ → Parse Nodes
  parse_ands zero p = fail out_of_fuel p
  parse_ands (suc fuel) p =
      let more =
        (parse_term fuel >>= λ right. parse_ands fuel >>= λ rest. return (cons right rest))
          (advance p) in
      elim p.current [ token_and ↦ more | _ ↦ done nil p ]

  pub parse_term : ℕ → Parse SelectNode
  parse_term zero p = fail out_of_fuel p
  parse_term (suc fuel) p =
      let inside = (parse_or_expr fuel >>= close_paren) (advance p) in
      elim p.current [ token_lparen ↦ inside | _ ↦ parse_atomic p ]

-- `(*Parser).Parse`.
unfoldable pub expect_eof : SelectNode → Parse SelectNode
expect_eof node p = elim p.current [ token_eof ↦ done node p | _ ↦ fail unexpected_token p ]

unfoldable pub parse_input : ℕ → Parse SelectNode
unfolding expect_eof
parse_input fuel = parse_or_expr fuel >>= expect_eof

-- `strings.TrimSpace` on code points.
unfoldable pub trim_start : List ℕ → List ℕ
unfolding is_space
trim_start [] = []
trim_start (c ∷ cs) = let rest = trim_start cs in if is_space c then rest else c ∷ cs

abbrev pub keep_unless_blank : Bool → List ℕ → List ℕ → List ℕ
keep_unless_blank true [] whole = []
keep_unless_blank _ rest whole = whole

unfoldable pub trim_end : List ℕ → List ℕ
unfolding is_space
trim_end [] = []
trim_end (c ∷ cs) = let rest = trim_end cs in keep_unless_blank (is_space c) rest (c ∷ rest)

-- The bytes of a text: UTF-8.
abbrev pub utf8_char : ℕ → List ℕ → List ℕ
utf8_char c rest =
    if ltb c 0x80
    then c ∷ rest
    else if ltb c 0x800
    then (0xc0 + c / 64) ∷ (0x80 + c % 64) ∷ rest
    else if ltb c 0x10000
    then (0xe0 + c / 4096) ∷ (0x80 + c / 64 % 64) ∷ (0x80 + c % 64) ∷ rest
    else (0xf0 + c / 262144)
      ∷ (0x80 + c / 4096 % 64)
      ∷ (0x80 + c / 64 % 64)
      ∷ (0x80 + c % 64)
      ∷ rest

unfoldable pub utf8 : List ℕ → List ℕ
utf8 [] = []
utf8 (c ∷ cs) = utf8_char c (utf8 cs)

-- The function `Parse` on the bytes of a trimmed text.
unfoldable pub parse_bytes : ℕ → List ℕ → Outcome Parser SelectorErrorCode SelectNode
unfolding parser_at parse_input
parse_bytes fuel [] = fail empty_expression (parser_at [])
parse_bytes fuel (c ∷ cs) = parse_input fuel (parser_at (c ∷ cs))

-- The function `Parse`.
unfoldable pub parse : List ℕ → Outcome Parser SelectorErrorCode SelectNode
unfolding trim_start trim_end utf8 parse_bytes
parse input =
    let bytes = utf8 (trim_end (trim_start input)) in parse_bytes (3 * length bytes + 3) bytes
