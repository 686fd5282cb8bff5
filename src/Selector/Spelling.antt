-- ===== src/Selector/Spelling.antt =====
-- With enough fuel, the parser of internal/planning/selector_parser.go reads a printed selector off the front
-- of any text that may follow it.
use pratc.Base.{ℕ, zero, suc, ◌+◌, ◌^◌, ◌<◌, ◌≤◌, ◌≡◌, refl, List, [], ◌∷◌, ◌++◌, arith, done}
use package.pratc.Selector.Syntax.{
  SelectNode, select_or, select_and, select_id_set, select_range, Nodes, nil, cons,
}
use package.pratc.Selector.Print.{codes, decimal}
use package.pratc.Selector.Parser.{parser_at, parse_or_expr, parse_ors, parse_ands, parse_term}
use package.pratc.Selector.Words.{
  stops, parser_at-decimal, parser_at-rparen, parser_at-and, parser_at-or,
}
use package.pratc.Selector.Readers.{
  Follows, parse_id, parse_range-printed, parse_term-and, parse_term-or, parse_ands-step,
  parse_ors-step,
}

-- The selectors that the parser itself builds, but for a range of one ID: single IDs and ascending ranges of
-- machine integers, and AND and OR with two children or more.
unfoldable mutual
  pub Printable : SelectNode → Type 0
  Printable (select_id_set (id ∷ [])) = id < 2 ^ 63
  Printable (select_id_set _) = ⊥
  Printable (select_range start end) = (start < end) × (end < 2 ^ 63)
  Printable (select_and (cons a (cons b rest))) = Printable a × (Printable b × AllPrintable rest)
  Printable (select_and _) = ⊥
  Printable (select_or (cons a (cons b rest))) = Printable a × (Printable b × AllPrintable rest)
  Printable (select_or _) = ⊥

  pub AllPrintable : Nodes → Type 0
  AllPrintable nil = Unit
  AllPrintable (cons a rest) = Printable a × AllPrintable rest

-- A printed selector in front of a text.
unfoldable mutual
  unfolding decimal codes

  pub spelled : SelectNode → List ℕ → List ℕ
  spelled (select_id_set []) rest = rest
  spelled (select_id_set (id ∷ ids)) rest = decimal id ++ rest
  spelled (select_range start end) rest = decimal start ++ (codes "-" ++ (decimal end ++ rest))
  spelled (select_and nil) rest = rest
  spelled (select_and (cons a others)) rest =
      codes "(" ++ spelled a (and_tail others (codes ")" ++ rest))
  spelled (select_or nil) rest = rest
  spelled (select_or (cons a others)) rest =
      codes "(" ++ spelled a (or_tail others (codes ")" ++ rest))

  pub and_tail : Nodes → List ℕ → List ℕ
  and_tail nil rest = rest
  and_tail (cons a others) rest = codes " AND " ++ spelled a (and_tail others rest)

  pub or_tail : Nodes → List ℕ → List ℕ
  or_tail nil rest = rest
  or_tail (cons a others) rest = codes " OR " ++ spelled a (or_tail others rest)

-- Fuel that is enough for a term, and for the others of its kind after it.
unfoldable mutual
  pub cost : SelectNode → ℕ
  cost (select_and children) = 3 + cost_all children
  cost (select_or children) = 3 + cost_all children
  cost _ = 1

  pub cost_all : Nodes → ℕ
  cost_all nil = 1
  cost_all (cons a others) = 2 + cost a + cost_all others

pub cost_positive : (node : SelectNode) → 1 ≤ cost node
unfolding cost
cost_positive (select_id_set ids) = omega arith
cost_positive (select_range start end) = omega arith
cost_positive (select_and children) = omega arith
cost_positive (select_or children) = omega arith

rparen-Follows : (rest : List ℕ) → Follows (codes ")" ++ rest)
unfolding stops codes
rparen-Follows rest = (refl, ground (arith, parser_at-rparen rest))

and_tail-Follows : (others : Nodes) (rest : List ℕ) → Follows (and_tail others (codes ")" ++ rest))
unfolding and_tail stops codes
and_tail-Follows nil rest = rparen-Follows rest
and_tail-Follows (cons a others) rest =
    (refl, ground (arith, parser_at-and (spelled a (and_tail others (codes ")" ++ rest)))))

or_tail-Follows : (others : Nodes) (rest : List ℕ) → Follows (or_tail others (codes ")" ++ rest))
unfolding or_tail stops codes
or_tail-Follows nil rest = rparen-Follows rest
or_tail-Follows (cons a others) rest =
    (refl, ground (arith, parser_at-or (spelled a (or_tail others (codes ")" ++ rest)))))

-- Fuel that is at least a successor is one.
spend {ℓ} :
    {n : ℕ} (P : ℕ → Type ℓ) → 1 ≤ n → ((f : ℕ) → n ≤ suc f → P (suc f)) → (f : ℕ) → n ≤ f → P f
spend P pos k zero h = absurd (omega arith)
spend P pos k (suc f) h = k f h

spend_two {ℓ} :
    {n : ℕ} (P : ℕ → Type ℓ)
    → 2 ≤ n
    → ((f : ℕ) → n ≤ suc (suc f) → P (suc (suc f)))
    → (f : ℕ) → n ≤ f
    → P f
spend_two P pos k zero h = absurd (omega arith)
spend_two P pos k (suc zero) h = absurd (omega arith)
spend_two P pos k (suc (suc f)) h = k f h

spend_three {ℓ} :
    {n : ℕ} (P : ℕ → Type ℓ)
    → 3 ≤ n
    → ((f : ℕ) → n ≤ suc (suc (suc f)) → P (suc (suc (suc f))))
    → (f : ℕ) → n ≤ f
    → P f
spend_three P pos k zero h = absurd (omega arith)
spend_three P pos k (suc zero) h = absurd (omega arith)
spend_three P pos k (suc (suc zero)) h = absurd (omega arith)
spend_three P pos k (suc (suc (suc f))) h = k f h

-- In front of `)` and of OR there is no other AND.
parse_ands-or_tail :
    (others : Nodes) (rest : List ℕ) (fuel : ℕ)
    → 1 ≤ fuel
    → parse_ands fuel (parser_at (or_tail others (codes ")" ++ rest)))
      ≡ done nil (parser_at (or_tail others (codes ")" ++ rest)))
unfolding or_tail parse_or_expr
parse_ands-or_tail nil rest = spend _ (omega arith) λ fuel k. ground (arith, parser_at-rparen rest)
parse_ands-or_tail (cons a others) rest =
    spend _ (omega arith)
      λ fuel k. ground (arith, parser_at-or (spelled a (or_tail others (codes ")" ++ rest))))

parse_term-id :
    (n : ℕ) (rest : List ℕ)
    → n < 2 ^ 63
    → Follows rest
    → (fuel : ℕ) → 1 ≤ fuel
    → parse_term fuel (parser_at (decimal n ++ rest))
      ≡ done (select_id_set (n ∷ [])) (parser_at rest)
unfolding parse_or_expr
parse_term-id n rest h f =
    spend _ (omega arith)
      λ fuel b. ground (arith, parser_at-decimal n rest f.0, parse_id n rest h f)

parse_term-range :
    (a b : ℕ) (rest : List ℕ)
    → a < b
    → b < 2 ^ 63
    → Follows rest
    → (fuel : ℕ) → 1 ≤ fuel
    → parse_term fuel (parser_at (decimal a ++ (codes "-" ++ (decimal b ++ rest))))
      ≡ done (select_range a b) (parser_at rest)
unfolding parse_or_expr stops codes
parse_term-range a b rest l h f = spend _ (omega arith) λ fuel k. ground (
  arith,
  parser_at-decimal a (codes "-" ++ (decimal b ++ rest)) refl,
  parse_range-printed a b rest l h f,
)

parse_ands-rparen :
    (rest : List ℕ) (fuel : ℕ)
    → 1 ≤ fuel
    → parse_ands fuel (parser_at (codes ")" ++ rest)) ≡ done nil (parser_at (codes ")" ++ rest))
unfolding parse_or_expr
parse_ands-rparen rest = spend _ (omega arith) λ fuel k. ground (arith, parser_at-rparen rest)

parse_ors-rparen :
    (rest : List ℕ) (fuel : ℕ)
    → 1 ≤ fuel
    → parse_ors fuel (parser_at (codes ")" ++ rest)) ≡ done nil (parser_at (codes ")" ++ rest))
unfolding parse_or_expr
parse_ors-rparen rest = spend _ (omega arith) λ fuel k. ground (arith, parser_at-rparen rest)

mutual
  unfolding spelled cost Printable

  pub term_reads :
      (node : SelectNode)
      → Printable node
      → (rest : List ℕ) → Follows rest
      → (fuel : ℕ) → cost node ≤ fuel
      → parse_term fuel (parser_at (spelled node rest)) ≡ done node (parser_at rest)
  term_reads (select_id_set []) p rest f = absurd p
  term_reads (select_id_set (id ∷ [])) p rest f = parse_term-id id rest p f
  term_reads (select_id_set (id ∷ (x ∷ xs))) p rest f = absurd p
  term_reads (select_range start end) p rest f = parse_term-range start end rest p.0 p.1 f
  term_reads (select_and nil) p rest f = absurd p
  term_reads (select_and (cons a nil)) p rest f = absurd p
  term_reads (select_and (cons a (cons b others))) p rest f =
      let tail = and_tail (cons b others) (codes ")" ++ rest) in
      spend_three _ (omega arith) λ fuel k.
        (parse_term-and fuel a (cons b others) (spelled a tail) tail rest
          (term_reads a p.0 tail (and_tail-Follows (cons b others) rest) fuel (omega arith))
          (ands_read (cons b others) p.1 rest fuel (omega arith)))
  term_reads (select_or nil) p rest f = absurd p
  term_reads (select_or (cons a nil)) p rest f = absurd p
  term_reads (select_or (cons a (cons b others))) p rest f =
      let tail = or_tail (cons b others) (codes ")" ++ rest) in
      spend_three _ (omega arith) λ fuel k.
        (parse_term-or fuel a (cons b others) (spelled a tail) tail rest
          (term_reads a p.0 tail (or_tail-Follows (cons b others) rest) fuel (omega arith))
          (parse_ands-or_tail (cons b others) rest fuel (omega arith))
          (ors_read (cons b others) p.1 rest (suc fuel) (omega arith)))

  ands_read :
      (others : Nodes)
      → AllPrintable others
      → (rest : List ℕ) (fuel : ℕ) → cost_all others ≤ fuel
      → parse_ands fuel (parser_at (and_tail others (codes ")" ++ rest)))
        ≡ done others (parser_at (codes ")" ++ rest))
  ands_read nil p rest = parse_ands-rparen rest
  ands_read (cons a others) p rest =
      let tail = and_tail others (codes ")" ++ rest) in
      spend _ (omega arith) λ fuel k.
        parse_ands-step fuel a others (spelled a tail) tail (codes ")" ++ rest)
          (term_reads a p.0 tail (and_tail-Follows others rest) fuel (omega arith))
          (ands_read others p.1 rest fuel (omega arith))

  ors_read :
      (others : Nodes)
      → AllPrintable others
      → (rest : List ℕ) (fuel : ℕ) → cost_all others ≤ fuel
      → parse_ors fuel (parser_at (or_tail others (codes ")" ++ rest)))
        ≡ done others (parser_at (codes ")" ++ rest))
  ors_read nil p rest = parse_ors-rparen rest
  ors_read (cons a others) p rest =
      let tail = or_tail others (codes ")" ++ rest) in
      spend_two _ (omega arith) λ fuel k.
        (parse_ors-step fuel a others (spelled a tail) tail (codes ")" ++ rest)
          (term_reads a p.0 tail (or_tail-Follows others rest) fuel (omega arith))
          (parse_ands-or_tail others rest fuel (omega (arith, cost_positive a)))
          (ors_read others p.1 rest (suc fuel) (omega arith)))
