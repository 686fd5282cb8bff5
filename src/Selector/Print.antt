-- ===== src/Selector/Print.antt =====
-- The texts that internal/planning makes of IDs and selectors: `nodeString` and `String` of
-- selector_types.go, `itoa` of selector_eval.go. A text is the list of its characters' codes.
use pratc.Base.{
  ℕ, zero, suc, ◌+◌, ◌/◌, ◌%◌, ◌^◌, List, [], ◌∷◌, ◌++◌, Option, none, some, if◌then◌else◌, ltb,
  ◌==◌, String,
}
use Prim.Native.Char.{code}
use package.pratc.Selector.Syntax.{
  SelectNode, select_or, select_and, select_id_set, select_range, Nodes, nil, cons,
}

unfoldable pub codes : String → List ℕ
codes String.[] = []
codes (String.◌∷◌ c s) = code c ∷ codes s

-- `strconv.Itoa` of a number that is not negative: its digits in front of a text. Dividing by ten ends before
-- the fuel does.
unfoldable pub decimal_loop : ℕ → ℕ → List ℕ → List ℕ
decimal_loop zero n acc = acc
decimal_loop (suc fuel) n acc =
    let more = decimal_loop fuel (n / 10) ((48 + n % 10) ∷ acc) in
    if ltb n 10 then (48 + n) ∷ acc else more

unfoldable pub decimal : ℕ → List ℕ
unfolding decimal_loop
decimal n = decimal_loop (suc n) n []

-- The elements after the first, in `strings.Join(ids, ",")`.
unfoldable pub join_ids : List ℕ → List ℕ
unfolding codes decimal
join_ids [] = []
join_ids (id ∷ ids) = codes "," ++ (decimal id ++ join_ids ids)

-- `nodeString`; `join_and` and `join_or` are the calls of `strings.Join`.
unfoldable mutual
  unfolding decimal codes join_ids

  pub node_string : SelectNode → List ℕ
  node_string (select_id_set []) = codes "{}"
  node_string (select_id_set (id ∷ [])) = decimal id
  node_string (select_id_set (id ∷ ids)) = codes "{" ++ (decimal id ++ (join_ids ids ++ codes "}"))
  node_string (select_range start end) =
      if start == end then decimal start else decimal start ++ (codes "-" ++ decimal end)
  node_string (select_and children) = codes "(" ++ (join_and children ++ codes ")")
  node_string (select_or children) = codes "(" ++ (join_or children ++ codes ")")

  pub join_and : Nodes → List ℕ
  join_and nil = []
  join_and (cons child nil) = node_string child
  join_and (cons child rest) = node_string child ++ (codes " AND " ++ join_and rest)

  pub join_or : Nodes → List ℕ
  join_or nil = []
  join_or (cons child nil) = node_string child
  join_or (cons child rest) = node_string child ++ (codes " OR " ++ join_or rest)

-- `(*SelectExpr).String`.
unfoldable pub expr_string : Option SelectNode → List ℕ
unfolding node_string codes
expr_string none = codes "<empty>"
expr_string (some root) = node_string root

-- `'0' + byte(n)`, which wraps around.
abbrev digit_byte : ℕ → ℕ
digit_byte n = (48 + n % 2 ^ 8) % 2 ^ 8

-- `itoa`.
unfoldable pub itoa : ℕ → List ℕ
itoa n =
    if ltb n 10
    then digit_byte n ∷ []
    else if ltb n 100
    then digit_byte (n / 10) ∷ digit_byte (n % 10) ∷ []
    else digit_byte (n / 100) ∷ digit_byte (n / 10 % 10) ∷ digit_byte (n % 10) ∷ []
