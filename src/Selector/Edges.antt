-- ===== src/Selector/Edges.antt =====
-- A printed selector is ASCII and has no white space at its ends, and its length pays for the parser's fuel.
use pratc.Base.{
  ℕ, ◌+◌, ◌*◌, ◌<◌, ◌≤◌, true, ◌≡◌, refl, List, [], ◌∷◌, ◌++◌, All, All-append, All-map, arith,
  length, length-append,
}
use package.pratc.Selector.Syntax.{
  SelectNode, select_or, select_and, select_id_set, select_range, Nodes, nil, cons,
}
use package.pratc.Selector.Lexer.{is_digit}
use package.pratc.Selector.Print.{codes, decimal}
use package.pratc.Selector.Parser.{utf8}
use package.pratc.Selector.Words.{Digit, decimal-Digit, is_filled, decimal-filled}
use package.pratc.Selector.Spelling.{
  Printable, AllPrintable, spelled, and_tail, or_tail, cost, cost_all,
}

abbrev Ascii : ℕ → Type 0
Ascii c = c < 128

Digit-Ascii : (c : ℕ) → Digit c → Ascii c
unfolding is_digit
Digit-Ascii c h = ground arith

decimal-Ascii : (n : ℕ) (rest : List ℕ) → All Ascii rest → All Ascii (decimal n ++ rest)
decimal-Ascii n rest h =
    All-append Ascii (decimal n) rest (All-map Digit-Ascii (decimal n) (decimal-Digit n)) h

mutual
  unfolding spelled codes

  spelled-Ascii :
      (node : SelectNode) (rest : List ℕ) → All Ascii rest → All Ascii (spelled node rest)
  spelled-Ascii (select_id_set []) rest h = h
  spelled-Ascii (select_id_set (id ∷ ids)) rest h = decimal-Ascii id rest h
  spelled-Ascii (select_range start end) rest h =
      decimal-Ascii start (codes "-" ++ (decimal end ++ rest))
        (omega arith, decimal-Ascii end rest h)
  spelled-Ascii (select_and nil) rest h = h
  spelled-Ascii (select_and (cons a others)) rest h = (
    omega arith,
    spelled-Ascii a (and_tail others (codes ")" ++ rest))
        (and_tail-Ascii others (codes ")" ++ rest) (omega arith, h)),
  )
  spelled-Ascii (select_or nil) rest h = h
  spelled-Ascii (select_or (cons a others)) rest h = (
    omega arith,
    spelled-Ascii a (or_tail others (codes ")" ++ rest))
        (or_tail-Ascii others (codes ")" ++ rest) (omega arith, h)),
  )

  and_tail-Ascii :
      (others : Nodes) (rest : List ℕ) → All Ascii rest → All Ascii (and_tail others rest)
  and_tail-Ascii nil rest h = h
  and_tail-Ascii (cons a others) rest h = (
    omega arith,
    (
      omega arith,
      (
        omega arith,
        (
          omega arith,
          (omega arith, spelled-Ascii a (and_tail others rest) (and_tail-Ascii others rest h)),
        ),
      ),
    ),
  )

  or_tail-Ascii :
      (others : Nodes) (rest : List ℕ) → All Ascii rest → All Ascii (or_tail others rest)
  or_tail-Ascii nil rest h = h
  or_tail-Ascii (cons a others) rest h = (
    omega arith,
    (
      omega arith,
      (
        omega arith,
        (omega arith, spelled-Ascii a (or_tail others rest) (or_tail-Ascii others rest h)),
      ),
    ),
  )

pub utf8-Ascii : (cs : List ℕ) → All Ascii cs → utf8 cs ≡ cs
unfolding utf8
utf8-Ascii [] h = refl
utf8-Ascii (c ∷ cs) h = ground (arith, utf8-Ascii cs h.1)

pub spelled_alone-Ascii : (node : SelectNode) → All Ascii (spelled node [])
spelled_alone-Ascii node = spelled-Ascii node [] tt

length-decimal : (n : ℕ) → 1 ≤ length (decimal n)
length-decimal n = go (decimal n) (decimal-filled n)
  where
    go : (cs : List ℕ) → is_filled cs ≡ true → 1 ≤ length cs
    go [] h = cc
    go (c ∷ cs) h = omega arith

length-decimal_then : (n : ℕ) (rest : List ℕ) → 1 + length rest ≤ length (decimal n ++ rest)
length-decimal_then n rest = omega (arith, length-decimal n, length-append (decimal n) rest)

mutual
  unfolding spelled cost codes Printable

  pub cost-spelled :
      (node : SelectNode) (rest : List ℕ)
      → Printable node
      → cost node + 3 * length rest ≤ 3 * length (spelled node rest)
  cost-spelled (select_id_set []) rest p = absurd p
  cost-spelled (select_id_set (id ∷ ids)) rest p = omega (arith, length-decimal_then id rest)
  cost-spelled (select_range start end) rest p = omega (
    arith,
    length-decimal_then start (codes "-" ++ (decimal end ++ rest)),
    length-decimal_then end rest,
  )
  cost-spelled (select_and nil) rest p = absurd p
  cost-spelled (select_and (cons a nil)) rest p = absurd p
  cost-spelled (select_and (cons a (cons b others))) rest p =
      let after = codes ")" ++ rest in
      omega (
        arith,
        cost-spelled a (and_tail (cons b others) after) p.0,
        cost-and_tail (cons b others) after p.1,
      )
  cost-spelled (select_or nil) rest p = absurd p
  cost-spelled (select_or (cons a nil)) rest p = absurd p
  cost-spelled (select_or (cons a (cons b others))) rest p =
      let after = codes ")" ++ rest in
      omega (
        arith,
        cost-spelled a (or_tail (cons b others) after) p.0,
        cost-or_tail (cons b others) after p.1,
      )

  cost-and_tail :
      (others : Nodes) (rest : List ℕ)
      → AllPrintable others
      → cost_all others + 3 * length rest ≤ 3 * length (and_tail others rest) + 1
  cost-and_tail nil rest p = omega arith
  cost-and_tail (cons a others) rest p =
      omega (arith, cost-spelled a (and_tail others rest) p.0, cost-and_tail others rest p.1)

  cost-or_tail :
      (others : Nodes) (rest : List ℕ)
      → AllPrintable others
      → cost_all others + 3 * length rest ≤ 3 * length (or_tail others rest) + 1
  cost-or_tail nil rest p = omega arith
  cost-or_tail (cons a others) rest p =
      omega (arith, cost-spelled a (or_tail others rest) p.0, cost-or_tail others rest p.1)
