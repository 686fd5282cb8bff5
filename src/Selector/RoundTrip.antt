-- ===== src/Selector/RoundTrip.antt =====
-- What `String` of internal/planning/selector_types.go prints, `Parse` of selector_parser.go reads back.
use pratc.Base.{
  ℕ, zero, suc, ◌+◌, ◌*◌, ◌≤◌, true, ◌≡◌, refl, sym, ap, ◌∙◌, List, [], ◌∷◌, ◌++◌, All, arith,
  is_space, done, length,
}
use mathlib.Core.List.{append_assoc, append-nil}
use package.pratc.Selector.Syntax.{
  SelectNode, select_or, select_and, select_id_set, select_range, Nodes, nil, cons,
}
use package.pratc.Selector.Lexer.{is_digit, next_token, skip_whitespace, token_at}
use package.pratc.Selector.Print.{codes, decimal, node_string, join_and, join_or}
use package.pratc.Selector.Parser.{
  parser_at, parse_or_expr, expect_eof, parse_input, parse_bytes, parse, trim_start, trim_end,
}
use package.pratc.Selector.Words.{Digit, decimal-Digit, is_filled, decimal-filled, stops}
use package.pratc.Selector.Readers.{Follows}
use package.pratc.Selector.Spelling.{
  Printable, AllPrintable, spelled, and_tail, or_tail, cost, cost_positive, term_reads,
}
use package.pratc.Selector.Edges.{utf8-Ascii, spelled_alone-Ascii, cost-spelled}

-- A text that is not empty and does not end in white space.
abbrev Trimmed : List ℕ → Type 0
Trimmed cs = (trim_end cs ≡ cs) × (is_filled cs ≡ true)

cons-Trimmed : (c : ℕ) (cs : List ℕ) → Trimmed cs → Trimmed (c ∷ cs)
unfolding trim_end
cons-Trimmed c [] t = absurd (ground (arith, t))
cons-Trimmed c (d ∷ cs) t = ground (arith, t)

append-Trimmed : (xs ys : List ℕ) → Trimmed ys → Trimmed (xs ++ ys)
append-Trimmed [] ys t = t
append-Trimmed (x ∷ xs) ys t = cons-Trimmed x (xs ++ ys) (append-Trimmed xs ys t)

digits-Trimmed : (d : ℕ) (ds : List ℕ) → All Digit (d ∷ ds) → Trimmed (d ∷ ds)
unfolding trim_end is_space is_digit
digits-Trimmed d [] h = ground arith
digits-Trimmed d (e ∷ ds) h = cons-Trimmed d (e ∷ ds) (digits-Trimmed e ds h.1)

decimal-Trimmed : (n : ℕ) → Trimmed (decimal n ++ [])
decimal-Trimmed n = rw append-nil (go (decimal n) (decimal-filled n) (decimal-Digit n))
  where
    go : (ds : List ℕ) → is_filled ds ≡ true → All Digit ds → Trimmed ds
    go [] f h = cc
    go (d ∷ ds) f h = digits-Trimmed d ds h

mutual
  unfolding spelled codes

  spelled-Trimmed : (node : SelectNode) (rest : List ℕ) → Trimmed rest → Trimmed (spelled node rest)
  spelled-Trimmed (select_id_set []) rest t = t
  spelled-Trimmed (select_id_set (id ∷ ids)) rest t = append-Trimmed (decimal id) rest t
  spelled-Trimmed (select_range start end) rest t =
      append-Trimmed (decimal start) (codes "-" ++ (decimal end ++ rest))
        (cons-Trimmed 45 (decimal end ++ rest) (append-Trimmed (decimal end) rest t))
  spelled-Trimmed (select_and nil) rest t = t
  spelled-Trimmed (select_and (cons a others)) rest t =
      cons-Trimmed 40 (spelled a (and_tail others (codes ")" ++ rest))) (
        spelled-Trimmed a (and_tail others (codes ")" ++ rest))
          (and_tail-Trimmed others (codes ")" ++ rest) (cons-Trimmed 41 rest t)))
  spelled-Trimmed (select_or nil) rest t = t
  spelled-Trimmed (select_or (cons a others)) rest t =
      cons-Trimmed 40 (spelled a (or_tail others (codes ")" ++ rest))) (
        spelled-Trimmed a (or_tail others (codes ")" ++ rest))
          (or_tail-Trimmed others (codes ")" ++ rest) (cons-Trimmed 41 rest t)))

  and_tail-Trimmed :
      (others : Nodes) (rest : List ℕ) → Trimmed rest → Trimmed (and_tail others rest)
  and_tail-Trimmed nil rest t = t
  and_tail-Trimmed (cons a others) rest t =
      append-Trimmed (codes " AND ") (spelled a (and_tail others rest))
        (spelled-Trimmed a (and_tail others rest) (and_tail-Trimmed others rest t))

  or_tail-Trimmed : (others : Nodes) (rest : List ℕ) → Trimmed rest → Trimmed (or_tail others rest)
  or_tail-Trimmed nil rest t = t
  or_tail-Trimmed (cons a others) rest t =
      append-Trimmed (codes " OR ") (spelled a (or_tail others rest))
        (spelled-Trimmed a (or_tail others rest) (or_tail-Trimmed others rest t))

rparen-Trimmed : Trimmed (codes ")" ++ [])
unfolding codes trim_end is_space
rparen-Trimmed = (refl, refl)

spelled_alone-Trimmed : (node : SelectNode) → Printable node → Trimmed (spelled node [])
unfolding spelled codes Printable
spelled_alone-Trimmed (select_id_set []) p = absurd p
spelled_alone-Trimmed (select_id_set (id ∷ ids)) p = decimal-Trimmed id
spelled_alone-Trimmed (select_range start end) p =
    append-Trimmed (decimal start) (codes "-" ++ (decimal end ++ []))
      (cons-Trimmed 45 (decimal end ++ []) (decimal-Trimmed end))
spelled_alone-Trimmed (select_and nil) p = absurd p
spelled_alone-Trimmed (select_and (cons a others)) p =
    cons-Trimmed 40 (spelled a (and_tail others (codes ")" ++ []))) (
      spelled-Trimmed a (and_tail others (codes ")" ++ []))
        (and_tail-Trimmed others (codes ")" ++ []) rparen-Trimmed))
spelled_alone-Trimmed (select_or nil) p = absurd p
spelled_alone-Trimmed (select_or (cons a others)) p =
    cons-Trimmed 40 (spelled a (or_tail others (codes ")" ++ []))) (
      spelled-Trimmed a (or_tail others (codes ")" ++ []))
        (or_tail-Trimmed others (codes ")" ++ []) rparen-Trimmed))

trim_start-decimal : (n : ℕ) (rest : List ℕ) → trim_start (decimal n ++ rest) ≡ decimal n ++ rest
unfolding trim_start is_space is_digit
trim_start-decimal n rest = go (decimal n) (decimal-filled n) (decimal-Digit n)
  where
    go : (ds : List ℕ) → is_filled ds ≡ true → All Digit ds → trim_start (ds ++ rest) ≡ ds ++ rest
    go [] f h = cc
    go (d ∷ ds) f h = ground (arith, h.0)

trim_start-spelled :
    (node : SelectNode) → Printable node → trim_start (spelled node []) ≡ spelled node []
unfolding spelled codes Printable trim_start is_space
trim_start-spelled (select_id_set []) p = absurd p
trim_start-spelled (select_id_set (id ∷ ids)) p = trim_start-decimal id []
trim_start-spelled (select_range start end) p =
    trim_start-decimal start (codes "-" ++ (decimal end ++ []))
trim_start-spelled (select_and nil) p = absurd p
trim_start-spelled (select_and (cons a others)) p = refl
trim_start-spelled (select_or nil) p = absurd p
trim_start-spelled (select_or (cons a others)) p = refl

-- A list of children in front of a text, with the keyword between them.
joined_and : Nodes → List ℕ → List ℕ
joined_and nil rest = rest
joined_and (cons a others) rest = spelled a (and_tail others rest)

joined_or : Nodes → List ℕ → List ℕ
joined_or nil rest = rest
joined_or (cons a others) rest = spelled a (or_tail others rest)

mutual
  unfolding node_string spelled codes Printable joined_and joined_or

  node_string-spelled :
      (node : SelectNode) (rest : List ℕ)
      → Printable node
      → node_string node ++ rest ≡ spelled node rest
  node_string-spelled (select_id_set []) rest p = absurd p
  node_string-spelled (select_id_set (id ∷ [])) rest p = refl
  node_string-spelled (select_id_set (id ∷ (x ∷ xs))) rest p = absurd p
  node_string-spelled (select_range start end) rest p =
      ground (arith, append_assoc (decimal start) (codes "-" ++ decimal end) rest)
  node_string-spelled (select_and nil) rest p = absurd p
  node_string-spelled (select_and (cons a nil)) rest p = absurd p
  node_string-spelled (select_and (cons a (cons b others))) rest p =
      ap (λ cs. 40 ∷ cs)
        (append_assoc (join_and (cons a (cons b others))) (codes ")") rest
          ∙ join_and-spelled (cons a (cons b others)) (codes ")" ++ rest) p)
  node_string-spelled (select_or nil) rest p = absurd p
  node_string-spelled (select_or (cons a nil)) rest p = absurd p
  node_string-spelled (select_or (cons a (cons b others))) rest p =
      ap (λ cs. 40 ∷ cs)
        (append_assoc (join_or (cons a (cons b others))) (codes ")") rest
          ∙ join_or-spelled (cons a (cons b others)) (codes ")" ++ rest) p)

  join_and-spelled :
      (cs : Nodes) (rest : List ℕ) → AllPrintable cs → join_and cs ++ rest ≡ joined_and cs rest
  join_and-spelled nil rest p = refl
  join_and-spelled (cons a nil) rest p = node_string-spelled a rest p.0
  join_and-spelled (cons a (cons b others)) rest p =
      append_assoc (node_string a) (codes " AND " ++ join_and (cons b others)) rest
      ∙ ap (λ cs. node_string a ++ (codes " AND " ++ cs))
          (join_and-spelled (cons b others) rest p.1)
      ∙ node_string-spelled a (codes " AND " ++ joined_and (cons b others) rest) p.0

  join_or-spelled :
      (cs : Nodes) (rest : List ℕ) → AllPrintable cs → join_or cs ++ rest ≡ joined_or cs rest
  join_or-spelled nil rest p = refl
  join_or-spelled (cons a nil) rest p = node_string-spelled a rest p.0
  join_or-spelled (cons a (cons b others)) rest p =
      append_assoc (node_string a) (codes " OR " ++ join_or (cons b others)) rest
      ∙ ap (λ cs. node_string a ++ (codes " OR " ++ cs)) (join_or-spelled (cons b others) rest p.1)
      ∙ node_string-spelled a (codes " OR " ++ joined_or (cons b others) rest) p.0

nothing-Follows : Follows []
unfolding stops parser_at next_token skip_whitespace token_at
nothing-Follows = (refl, refl)

parse_input-spelled :
    (node : SelectNode) (fuel : ℕ)
    → Printable node
    → cost node + 2 ≤ fuel
    → parse_input fuel (parser_at (spelled node [])) ≡ done node (parser_at [])
unfolding parse_input parse_or_expr expect_eof parser_at next_token skip_whitespace token_at
parse_input-spelled node zero p h = absurd (omega arith)
parse_input-spelled node (suc zero) p h = absurd (omega arith)
parse_input-spelled node (suc (suc zero)) p h = absurd (omega (arith, cost_positive node))
parse_input-spelled node (suc (suc (suc fuel))) p h =
    ground (arith, term_reads node p [] nothing-Follows (suc fuel) (omega arith))

parse_bytes-filled :
    (fuel : ℕ) (cs : List ℕ)
    → is_filled cs ≡ true
    → parse_bytes fuel cs ≡ parse_input fuel (parser_at cs)
unfolding parse_bytes
parse_bytes-filled fuel [] h = cc
parse_bytes-filled fuel (c ∷ cs) h = refl

-- Parse reads what String prints back as the selector that was printed, to the end of the text: for a
-- selector of single IDs, ascending ranges, and ANDs and ORs of at least two children, with IDs below 2^63.
pub parse-node_string :
    (node : SelectNode) → Printable node → parse (node_string node) ≡ done node (parser_at [])
unfolding parse
parse-node_string node p =
    let printed : node_string node ≡ spelled node [] =
      sym (append-nil (node_string node)) ∙ node_string-spelled node [] p in
    let ends = spelled_alone-Trimmed node p in
    let fuel = 3 * length (spelled node []) + 3 in
    ground (
      arith,
      printed,
      trim_start-spelled node p,
      ends,
      utf8-Ascii (spelled node []) (spelled_alone-Ascii node),
      parse_bytes-filled fuel (spelled node []) ends.1,
      parse_input-spelled node fuel p (omega (arith, cost-spelled node [] p)),
    )
