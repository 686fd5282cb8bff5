-- ===== src/Selector/Fuel.antt =====
-- The parser of internal/planning/selector_parser.go comes to an end: its fuel suffices.
use pratc.Base.{
  ℕ, zero, suc, ◌+◌, ◌*◌, ◌≤◌, Bool, true, false, ◌≡◌, ◌≢◌, ◌⊎◌, refl, List, [], ◌∷◌, Option-cases,
  inl, inr, arith, Outcome, done, fail, ◌>>=◌, return, length,
}
use package.pratc.Selector.Syntax.{
  SelectNode, cons, SelectorErrorCode, out_of_fuel, invalid_syntax, empty_expression, invalid_range,
  invalid_id, unexpected_token, mismatched_paren,
}
use package.pratc.Selector.Lexer.{Token, token_and, token_or, token_lparen, token_id}
use package.pratc.Selector.Parser.{
  Parser, parser_at, advance, atoi, parse_range, parse_atomic, close_paren, parse_or_expr,
  parse_ors, parse_and_expr, parse_ands, parse_term, parse_input, expect_eof, parse_bytes, parse,
  trim_start, trim_end, utf8, or_node, and_node,
}
use package.pratc.Selector.Sizes.{
  weight, size, parser_at-size, Fits, bind-Fits, Fits-weaken, advance-size, parse_range-Fits, is_id,
}

id_or_not : (t : Token) → ((v : List ℕ) × (t ≡ token_id v)) ⊎ (is_id t ≡ false)
id_or_not (token_id value) = inl (value, refl)
id_or_not _ = inr refl

parse_atomic-Fits : (p : Parser) → Fits (size p) (parse_atomic p)
unfolding parse_atomic
parse_atomic-Fits p = elim (id_or_not p.current) [
  | inr other ↦ ground arith
  | inl (v, e) ↦ elim (Option-cases (atoi v)) [
    | inl bad ↦ ground arith
    | inr (first, good) ↦ ground (
      arith,
      advance-size p,
      parse_range-Fits first (advance p),
      Fits-weaken (size (advance p)) (size p) (parse_range first (advance p)),
    )
  ]
]

close_paren-Fits : (node : SelectNode) (p : Parser) → Fits (size p) (close_paren node p)
unfolding close_paren
close_paren-Fits node p = ground (arith, advance-size p)

abbrev is_or : Token → Bool
is_or token_or = true
is_or _ = false

abbrev is_and : Token → Bool
is_and token_and = true
is_and _ = false

abbrev is_lparen : Token → Bool
is_lparen token_lparen = true
is_lparen _ = false

or_or_not : (t : Token) → (t ≡ token_or) ⊎ (is_or t ≡ false)
or_or_not token_or = inl refl
or_or_not _ = inr refl

and_or_not : (t : Token) → (t ≡ token_and) ⊎ (is_and t ≡ false)
and_or_not token_and = inl refl
and_or_not _ = inr refl

lparen_or_not : (t : Token) → (t ≡ token_lparen) ⊎ (is_lparen t ≡ false)
lparen_or_not token_lparen = inl refl
lparen_or_not _ = inr refl

weight_one :
    (p : Parser) (t : Token) → p.current ≡ t → weight t ≡ 1 → suc (size (advance p)) ≤ size p
weight_one p t e w = ground (arith, advance-size p)

mutual
  unfolding parse_or_expr

  parse_or_expr-Fits :
      (fuel : ℕ) (p : Parser) → 3 * size p + 3 ≤ fuel → Fits (size p) (parse_or_expr fuel p)
  parse_or_expr-Fits zero p h = absurd (omega arith)
  parse_or_expr-Fits (suc fuel) p h =
      bind-Fits (size p) (parse_and_expr fuel)
        (λ left. parse_ors fuel >>= λ rest. return (or_node left rest)) p
        (parse_and_expr-Fits fuel p (omega arith))
        (λ left q k.
          bind-Fits (size p) (parse_ors fuel) (λ rest. return (or_node left rest)) q
            (Fits-weaken (size q) (size p) (parse_ors fuel q) k
              (parse_ors-Fits fuel q (omega arith)))
            (λ rest r l. l))

  parse_ors-Fits :
      (fuel : ℕ) (p : Parser) → 3 * size p + 1 ≤ fuel → Fits (size p) (parse_ors fuel p)
  parse_ors-Fits zero p h = absurd (omega arith)
  parse_ors-Fits (suc fuel) p h = elim (or_or_not p.current) [
    | inr other ↦ ground arith
    | inl e ↦
        let less = weight_one p token_or e refl in
        let next = advance p in
        let more =
          bind-Fits (size next) (parse_and_expr fuel)
            (λ right. parse_ors fuel >>= λ rest. return (cons right rest)) next
            (parse_and_expr-Fits fuel next (omega (arith, less)))
            (λ right q k.
              bind-Fits (size next) (parse_ors fuel) (λ rest. return (cons right rest)) q
                (Fits-weaken (size q) (size next) (parse_ors fuel q) k
                  (parse_ors-Fits fuel q (omega (arith, less))))
                (λ rest r l. l)) in
        rw e (Fits-weaken (size next) (length p.input + 1) _ (ground (arith, e, less)) more)
  ]

  parse_and_expr-Fits :
      (fuel : ℕ) (p : Parser) → 3 * size p + 2 ≤ fuel → Fits (size p) (parse_and_expr fuel p)
  parse_and_expr-Fits zero p h = absurd (omega arith)
  parse_and_expr-Fits (suc fuel) p h =
      bind-Fits (size p) (parse_term fuel)
        (λ left. parse_ands fuel >>= λ rest. return (and_node left rest)) p
        (parse_term-Fits fuel p (omega arith))
        (λ left q k.
          bind-Fits (size p) (parse_ands fuel) (λ rest. return (and_node left rest)) q
            (Fits-weaken (size q) (size p) (parse_ands fuel q) k
              (parse_ands-Fits fuel q (omega arith)))
            (λ rest r l. l))

  parse_ands-Fits :
      (fuel : ℕ) (p : Parser) → 3 * size p + 1 ≤ fuel → Fits (size p) (parse_ands fuel p)
  parse_ands-Fits zero p h = absurd (omega arith)
  parse_ands-Fits (suc fuel) p h = elim (and_or_not p.current) [
    | inr other ↦ ground arith
    | inl e ↦
        let less = weight_one p token_and e refl in
        let next = advance p in
        let more =
          bind-Fits (size next) (parse_term fuel)
            (λ right. parse_ands fuel >>= λ rest. return (cons right rest)) next
            (parse_term-Fits fuel next (omega (arith, less)))
            (λ right q k.
              bind-Fits (size next) (parse_ands fuel) (λ rest. return (cons right rest)) q
                (Fits-weaken (size q) (size next) (parse_ands fuel q) k
                  (parse_ands-Fits fuel q (omega (arith, less))))
                (λ rest r l. l)) in
        rw e (Fits-weaken (size next) (length p.input + 1) _ (ground (arith, e, less)) more)
  ]

  parse_term-Fits :
      (fuel : ℕ) (p : Parser) → 3 * size p + 1 ≤ fuel → Fits (size p) (parse_term fuel p)
  parse_term-Fits zero p h = absurd (omega arith)
  parse_term-Fits (suc fuel) p h = elim (lparen_or_not p.current) [
    | inr other ↦ ground (arith, parse_atomic-Fits p)
    | inl e ↦
        let less = weight_one p token_lparen e refl in
        let next = advance p in
        let inside =
          bind-Fits (size next) (parse_or_expr fuel) close_paren next
            (parse_or_expr-Fits fuel next (omega (arith, less)))
            (λ node q k.
              Fits-weaken (size q) (size next) (close_paren node q) k (close_paren-Fits node q)) in
        rw e (Fits-weaken (size next) (length p.input + 1) _ (ground (arith, e, less)) inside)
  ]

expect_eof-Fits : (node : SelectNode) (p : Parser) → Fits (size p) (expect_eof node p)
unfolding expect_eof
expect_eof-Fits node p = ground arith

parse_bytes-Fits :
    (fuel : ℕ) (bytes : List ℕ)
    → 3 * length bytes + 3 ≤ fuel
    → Fits (length bytes) (parse_bytes fuel bytes)
unfolding parse_bytes parse_input
parse_bytes-Fits fuel [] h = tt
parse_bytes-Fits fuel (c ∷ cs) h =
    let p = parser_at (c ∷ cs) in
    let within = parser_at-size (c ∷ cs) in
    Fits-weaken (size p) (length (c ∷ cs)) _ within (
      bind-Fits (size p) (parse_or_expr fuel) expect_eof p
        (parse_or_expr-Fits fuel p (omega (arith, within)))
        (λ node q k. Fits-weaken (size q) (size p) (expect_eof node q) k (expect_eof-Fits node q)))

Fits-fuel :
    {A : Type 0} (n : ℕ) (o : Outcome Parser SelectorErrorCode A) (p : Parser)
    → Fits n o
    → o ≢ fail out_of_fuel p
Fits-fuel n (done a q) p h e = cc
Fits-fuel n (fail out_of_fuel q) p h e = h
Fits-fuel n (fail invalid_syntax q) p h e = cc
Fits-fuel n (fail empty_expression q) p h e = cc
Fits-fuel n (fail invalid_range q) p h e = cc
Fits-fuel n (fail invalid_id q) p h e = cc
Fits-fuel n (fail unexpected_token q) p h e = cc
Fits-fuel n (fail mismatched_paren q) p h e = cc

-- On every text, Parse comes to an end within its fuel: it gives a selector or one of the program's errors.
pub parse-terminates : (input : List ℕ) (p : Parser) → parse input ≢ fail out_of_fuel p
unfolding parse
parse-terminates input p =
    let bytes = utf8 (trim_end (trim_start input)) in
    Fits-fuel (length bytes) (parse_bytes (3 * length bytes + 3) bytes) p
      (parse_bytes-Fits (3 * length bytes + 3) bytes (omega arith))
