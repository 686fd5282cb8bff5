-- ===== src/Selector/Lexer.antt =====
-- The lexer of internal/planning/selector_parser.go, which reads bytes.
use pratc.Base.{
  ℕ, ◌-◌, Bool, true, false, ◌&&◌, ◌||◌, List, [], ◌∷◌, map, if◌then◌else◌, ltb, leb, ◌==◌,
  is_space,
}
use package.pratc.Selector.Print.{codes}

-- A token; only the value of an ID matters, and positions stand in messages only.
pub data Token : Type 0 where
  token_eof token_and token_or token_lparen token_rparen token_minus token_unknown : Token
  token_id : List ℕ → Token

-- `unicode.IsDigit` and `unicode.IsLetter` of a byte as a rune: ASCII and the letters of Latin-1.
unfoldable pub is_digit : ℕ → Bool
is_digit c = leb 48 c && leb c 57

unfoldable pub is_letter : ℕ → Bool
is_letter c =
    (leb 65 c && leb c 90)
    || (leb 97 c && leb c 122)
    || c == 0xaa
    || c == 0xb5
    || c == 0xba
    || (leb 0xc0 c && leb c 0xff && (ltb c 0xd7 || (ltb 0xd7 c && ltb c 0xf7) || ltb 0xf7 c))

-- `isIdentifierStart` and `isIdentifierChar`.
unfoldable pub is_identifier_start : ℕ → Bool
unfolding is_letter is_digit
is_identifier_start c = is_letter c || is_digit c

unfoldable pub is_identifier_char : ℕ → Bool
unfolding is_letter
is_identifier_char c = is_letter c || c == 95

abbrev pub goes_on : ℕ → Bool
goes_on c = is_identifier_char c || is_digit c

-- The loop of `readIdentifierOrNumber`: the value, and what is left.
unfoldable pub read_identifier : List ℕ → List ℕ × List ℕ
unfolding is_identifier_char is_digit
read_identifier [] = ([], [])
read_identifier (c ∷ cs) =
    let (value, rest) = read_identifier cs in if goes_on c then (c ∷ value, rest) else ([], c ∷ cs)

-- The upper case of an ASCII letter. `strings.ToUpper` takes no other letter to one of AND and OR.
abbrev upper : ℕ → ℕ
upper c = if leb 97 c && leb c 122 then c - 32 else c

unfoldable pub same_text : List ℕ → List ℕ → Bool
same_text [] [] = true
same_text (x ∷ xs) (y ∷ ys) = x == y && same_text xs ys
same_text _ _ = false

-- The keywords of `readIdentifierOrNumber`.
unfoldable pub keyword_or_id : List ℕ → Token
unfolding same_text codes
keyword_or_id value =
    if same_text (map upper value) (codes "AND")
    then token_and
    else if same_text (map upper value) (codes "OR")
    then token_or
    else token_id value

-- `skipWhitespace`.
unfoldable pub skip_whitespace : List ℕ → List ℕ
unfolding is_space
skip_whitespace [] = []
skip_whitespace (c ∷ cs) = let rest = skip_whitespace cs in if is_space c then rest else c ∷ cs

-- `NextToken` after the white space: the token and what is left. An unknown byte is not read.
unfoldable pub token_at : List ℕ → Token × List ℕ
unfolding is_identifier_start read_identifier keyword_or_id
token_at [] = (token_eof, [])
token_at (c ∷ cs) =
    let (value, rest) = read_identifier (c ∷ cs) in
    if c == 40
    then (token_lparen, cs)
    else if c == 41
    then (token_rparen, cs)
    else if c == 45
    then (token_minus, cs)
    else if is_identifier_start c
    then (keyword_or_id value, rest)
    else (token_unknown, c ∷ cs)

-- `NextToken`.
unfoldable pub next_token : List ℕ → Token × List ℕ
unfolding skip_whitespace token_at
next_token input = token_at (skip_whitespace input)
