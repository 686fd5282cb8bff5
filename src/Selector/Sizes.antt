-- ===== src/Selector/Sizes.antt =====
-- How much of the input the readers of internal/planning/selector_parser.go take off.
use pratc.Base.{
  ℕ, ◌+◌, ◌≤◌, Bool, true, false, ◌≡◌, refl, List, [], ◌∷◌, arith, Outcome, done, fail, ◌>>=◌,
  length,
}
use package.pratc.Selector.Syntax.{SelectorErrorCode, out_of_fuel}
use package.pratc.Selector.Lexer.{
  Token, token_eof, token_unknown, token_id, is_identifier_char, is_identifier_start,
  read_identifier, keyword_or_id, skip_whitespace, token_at, next_token,
}
use package.pratc.Selector.Parser.{Parser, Parse, parser_at, advance, parse_range_end, parse_range}

-- What a token still takes off the input: the last two are never left behind.
abbrev pub weight : Token → ℕ
weight token_eof = 0
weight token_unknown = 0
weight _ = 1

abbrev pub size : Parser → ℕ
size p = length p.input + weight p.current

read_identifier-length :
    (cs : List ℕ) → length (read_identifier cs).0 + length (read_identifier cs).1 ≡ length cs
unfolding read_identifier
read_identifier-length [] = refl
read_identifier-length (c ∷ cs) = ground (arith, read_identifier-length cs)

token_at-size : (cs : List ℕ) → length (token_at cs).1 + weight (token_at cs).0 ≤ length cs
unfolding token_at read_identifier is_identifier_start is_identifier_char keyword_or_id
token_at-size [] = omega arith
token_at-size (c ∷ cs) = ground (arith, read_identifier-length cs)

skip_whitespace-length : (cs : List ℕ) → length (skip_whitespace cs) ≤ length cs
unfolding skip_whitespace
skip_whitespace-length [] = omega arith
skip_whitespace-length (c ∷ cs) = ground (arith, skip_whitespace-length cs)

pub parser_at-size : (cs : List ℕ) → size (parser_at cs) ≤ length cs
unfolding parser_at next_token
parser_at-size cs = ground (arith, token_at-size (skip_whitespace cs), skip_whitespace-length cs)

-- The call did not run out of fuel, and leaves a parser of at most this size.
abbrev pub Fits : {A : Type 0} → ℕ → Outcome Parser SelectorErrorCode A → Type 0
Fits n (done a p) = size p ≤ n
Fits n (fail out_of_fuel p) = ⊥
Fits n (fail _ p) = Unit

pub bind-Fits :
    {A B : Type 0} (n : ℕ) (m : Parse A) (f : A → Parse B) (p : Parser)
    → Fits n (m p)
    → ((a : A) (q : Parser) → size q ≤ n → Fits n (f a q))
    → Fits n ((m >>= f) p)
bind-Fits {A = A} n m f p first rest = go (m p) first
  where
    go :
        (o : Outcome Parser SelectorErrorCode A)
        → Fits n o
        → Fits n (elim o [ done a t ↦ f a t | fail e t ↦ fail e t ])
    go (done a q) h = rest a q h
    go (fail out_of_fuel q) h = h
    go (fail _ q) h = h

pub Fits-weaken :
    {A : Type 0} (m n : ℕ) (o : Outcome Parser SelectorErrorCode A) → m ≤ n → Fits m o → Fits n o
Fits-weaken m n (done a q) h k = omega arith
Fits-weaken m n (fail out_of_fuel q) h k = k
Fits-weaken m n (fail _ q) h k = tt

pub advance-size : (p : Parser) → size (advance p) ≤ length p.input
unfolding advance
advance-size p = parser_at-size p.input

parse_range_end-Fits : (first : ℕ) (p : Parser) → Fits (size p) (parse_range_end first p)
unfolding parse_range_end
parse_range_end-Fits first p = ground (arith, advance-size p)

pub parse_range-Fits : (first : ℕ) (p : Parser) → Fits (size p) (parse_range first p)
unfolding parse_range
parse_range-Fits first p = ground (
  arith,
  advance-size p,
  parse_range_end-Fits first (advance p),
  Fits-weaken (size (advance p)) (size p) (parse_range_end first (advance p)),
)

abbrev pub is_id : Token → Bool
is_id (token_id value) = true
is_id _ = false
