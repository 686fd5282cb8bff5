-- ===== src/Selector/Words.antt =====
-- What the lexer of internal/planning/selector_parser.go reads off a printed selector: digits, parentheses
-- and keywords.
use pratc.Base.{
  ℕ, zero, suc, ◌+◌, ◌/◌, ◌%◌, ◌^◌, ◌<◌, Bool, true, false, not, ◌≡◌, refl, List, [], ◌∷◌, ◌++◌,
  All, some, arith, is_space,
}
use package.pratc.Selector.Lexer.{
  token_and, token_or, token_lparen, token_rparen, token_minus, token_id, goes_on, is_digit,
  is_letter, is_identifier_char, is_identifier_start, read_identifier, keyword_or_id, same_text,
  skip_whitespace, token_at, next_token,
}
use package.pratc.Selector.Print.{codes, decimal, decimal_loop}
use package.pratc.Selector.Parser.{parser_at, digits_value, atoi}

abbrev pub Digit : ℕ → Type 0
Digit c = is_digit c ≡ true

decimal_loop-Digit :
    (fuel n : ℕ) (acc : List ℕ) → All Digit acc → All Digit (decimal_loop fuel n acc)
unfolding decimal_loop is_digit
decimal_loop-Digit zero n acc h = h
decimal_loop-Digit (suc fuel) n acc h =
    ground (arith, decimal_loop-Digit fuel (n / 10) ((48 + n % 10) ∷ acc))

pub decimal-Digit : (n : ℕ) → All Digit (decimal n)
unfolding decimal
decimal-Digit n = decimal_loop-Digit (suc n) n [] tt

decimal_loop-value :
    (fuel n : ℕ) (acc : List ℕ)
    → n < fuel
    → digits_value 0 (decimal_loop fuel n acc) ≡ digits_value n acc
unfolding decimal_loop digits_value is_digit
decimal_loop-value zero n acc h = absurd (omega arith)
decimal_loop-value (suc fuel) n acc h =
    ground (arith, decimal_loop-value fuel (n / 10) ((48 + n % 10) ∷ acc))

abbrev pub is_filled : List ℕ → Bool
is_filled [] = false
is_filled (c ∷ cs) = true

decimal_loop-filled :
    (fuel n c : ℕ) (acc : List ℕ) → is_filled (decimal_loop fuel n (c ∷ acc)) ≡ true
unfolding decimal_loop
decimal_loop-filled zero n c acc = refl
decimal_loop-filled (suc fuel) n c acc =
    ground (arith, decimal_loop-filled fuel (n / 10) (48 + n % 10) (c ∷ acc))

pub decimal-filled : (n : ℕ) → is_filled (decimal n) ≡ true
unfolding decimal decimal_loop
decimal-filled n = ground (arith, decimal_loop-filled n (n / 10) (48 + n % 10) [])

-- `strconv.Atoi` reads back what `strconv.Itoa` wrote.
pub atoi-decimal : (n : ℕ) → n < 2 ^ 63 → atoi (decimal n) ≡ some n
unfolding atoi decimal digits_value
atoi-decimal n h = ground (arith, decimal_loop-value (suc n) n [], decimal-filled n)

-- A text that no identifier goes on into.
unfoldable pub stops : List ℕ → Bool
unfolding is_identifier_char is_digit
stops [] = true
stops (c ∷ cs) = not (goes_on c)

read_identifier-digits :
    (ds rest : List ℕ)
    → All Digit ds
    → stops rest ≡ true
    → read_identifier (ds ++ rest) ≡ (ds, rest)
unfolding read_identifier stops
read_identifier-digits [] [] h s = refl
read_identifier-digits [] (c ∷ rest) h s = ground arith
read_identifier-digits (d ∷ ds) rest h s = ground (arith, read_identifier-digits ds rest h.1 s, h.0)

keyword_or_id-digits : (d : ℕ) (ds : List ℕ) → Digit d → keyword_or_id (d ∷ ds) ≡ token_id (d ∷ ds)
unfolding keyword_or_id same_text codes is_digit
keyword_or_id-digits d ds h = ground arith

parser_at-digits :
    (d : ℕ) (ds rest : List ℕ)
    → All Digit (d ∷ ds)
    → stops rest ≡ true
    → parser_at ((d ∷ ds) ++ rest) ≡ record { input = rest; current = token_id (d ∷ ds) }
unfolding parser_at next_token skip_whitespace is_space token_at is_identifier_start is_digit
parser_at-digits d ds rest h s =
    ground (arith, read_identifier-digits (d ∷ ds) rest h s, keyword_or_id-digits d ds h.0)

-- The parser at a printed number has read it.
pub parser_at-decimal :
    (n : ℕ) (rest : List ℕ)
    → stops rest ≡ true
    → parser_at (decimal n ++ rest) ≡ record { input = rest; current = token_id (decimal n) }
parser_at-decimal n rest s = go (decimal n) (decimal-filled n) (decimal-Digit n)
  where
    go :
        (ds : List ℕ)
        → is_filled ds ≡ true
        → All Digit ds
        → parser_at (ds ++ rest) ≡ record { input = rest; current = token_id ds }
    go [] f h = cc
    go (d ∷ ds) f h = parser_at-digits d ds rest h s

pub parser_at-minus :
    (rest : List ℕ) → parser_at (codes "-" ++ rest) ≡ record { input = rest; current = token_minus }
unfolding parser_at next_token skip_whitespace is_space token_at codes
parser_at-minus rest = refl

pub parser_at-lparen :
    (rest : List ℕ)
    → parser_at (codes "(" ++ rest) ≡ record { input = rest; current = token_lparen }
unfolding parser_at next_token skip_whitespace is_space token_at codes
parser_at-lparen rest = refl

pub parser_at-rparen :
    (rest : List ℕ)
    → parser_at (codes ")" ++ rest) ≡ record { input = rest; current = token_rparen }
unfolding parser_at next_token skip_whitespace is_space token_at codes
parser_at-rparen rest = refl

-- A keyword is read, up to the space after it.
pub parser_at-and :
    (rest : List ℕ)
    → parser_at (codes " AND " ++ rest) ≡ record { input = codes " " ++ rest; current = token_and }
unfolding parser_at next_token skip_whitespace is_space token_at codes read_identifier
    is_identifier_char is_identifier_start is_letter is_digit keyword_or_id same_text
parser_at-and rest = refl

pub parser_at-or :
    (rest : List ℕ)
    → parser_at (codes " OR " ++ rest) ≡ record { input = codes " " ++ rest; current = token_or }
unfolding parser_at next_token skip_whitespace is_space token_at codes read_identifier
    is_identifier_char is_identifier_start is_letter is_digit keyword_or_id same_text
parser_at-or rest = refl

pub parser_at-space : (rest : List ℕ) → parser_at (codes " " ++ rest) ≡ parser_at rest
unfolding parser_at next_token skip_whitespace is_space codes
parser_at-space rest = refl
