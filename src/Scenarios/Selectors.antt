-- ===== src/Scenarios/Selectors.antt =====
-- Selectors on concrete texts, and their theorems there.
use pratc.Base.{
  true, none, ℕ, ◌<◌, ◌&&◌, ◌≡◌, ◌≢◌, ◌↔◌, refl, [], ◌∷◌, some, arith, length, select, done, fail,
  is_space,
}
use pratc.Selector.Syntax.{
  SelectNode, select_or, select_and, select_id_set, select_range, nil, cons, invalid_range,
  out_of_fuel,
}
use pratc.Base.Numbers.{elem, add, add_all, keep_common, insert_id, sort_ids, AscendingFrom}
use pratc.Selector.Expand.{
  range_loop, range_ids, Ends, stops, max_int, expand_into, expand, selects, elem-expand,
}
use pratc.Selector.Print.{codes, decimal, decimal_loop, itoa, node_string}
use pratc.Selector.Lexer.{
  is_digit, is_letter, is_identifier_start, is_identifier_char, read_identifier, same_text,
  keyword_or_id, skip_whitespace, token_at, next_token,
}
use pratc.Selector.Parser.{
  parser_at, advance, digits_value, atoi, parse_range_end, parse_range, parse_atomic, close_paren,
  parse_or_expr, expect_eof, parse_input, trim_start, trim_end, utf8, parse_bytes, parse,
}
use pratc.Selector.Eval.{new_evaluator, eval, eval-selects, to_predicate, count_selected}
use pratc.Selector.Fuel.{parse-terminates}
use pratc.Selector.Warnings.{itoa-decimal}
use pratc.Selector.Spelling.{Printable}
use pratc.Selector.RoundTrip.{parse-node_string}

-- (1-5 AND 3-7) OR 12
abbrev either : SelectNode
either = select_or (
    cons (select_and (cons (select_range 1 5) (cons (select_range 3 7) nil)))
      (cons (select_id_set (12 ∷ [])) nil))

parses_text : parse (codes " 1-5 and (3-7)  OR 12 ") ≡ done either (parser_at [])
unfolding parse trim_start trim_end is_space utf8 parse_bytes parse_input expect_eof parse_or_expr
    close_paren parse_atomic parse_range parse_range_end atoi digits_value advance parser_at
    next_token token_at skip_whitespace keyword_or_id same_text read_identifier is_identifier_char
    is_identifier_start is_letter is_digit codes
parses_text = refl

refuses_range : parse (codes "7-3") ≡ fail invalid_range (parser_at (codes "3"))
unfolding parse trim_start trim_end is_space utf8 parse_bytes parse_input expect_eof parse_or_expr
    close_paren parse_atomic parse_range parse_range_end atoi digits_value advance parser_at
    next_token token_at skip_whitespace keyword_or_id same_text read_identifier is_identifier_char
    is_identifier_start is_letter is_digit codes
refuses_range = refl

prints : node_string either ≡ codes "((1-5 AND 3-7) OR 12)"
unfolding node_string decimal decimal_loop codes
prints = refl

selects_common : (eval (1 ∷ 4 ∷ 3 ∷ 9 ∷ []) (some either)).selected_ids ≡ 3 ∷ 4 ∷ []
unfolding eval expand expand_into range_ids range_loop add_all add keep_common select elem sort_ids
    insert_id
selects_common = refl

-- The warning about pull request 1000 does not name it.
misspells : itoa 1000 ≡ codes ":00"
unfolding itoa codes
misspells = refl

either-Ends : Ends either
unfolding Ends max_int
either-Ends = ground arith

-- The loop over a range that ends at the largest int does not stop.
runs_on : range_loop 9 max_int max_int ≡ none
unfolding range_loop max_int
runs_on = refl

elem-expand_example : (stops either ≡ true) × (elem 4 (expand either) ≡ selects either 4)
elem-expand_example = elem-expand 4 either either-Ends

eval-selects_example :
    let result = eval (new_evaluator (1 ∷ 4 ∷ 3 ∷ [])) (some either) in
    (stops either ≡ true)
    × AscendingFrom 0 result.selected_ids
    × ((x : ℕ) → elem x result.selected_ids ≡ (selects either x && elem x (1 ∷ 4 ∷ 3 ∷ [])))
    × ((x : ℕ)
        → to_predicate (new_evaluator (1 ∷ 4 ∷ 3 ∷ [])) either x ≡ elem x result.selected_ids)
    × (count_selected (new_evaluator (1 ∷ 4 ∷ 3 ∷ [])) (some either) ≡ length result.selected_ids)
eval-selects_example = eval-selects (1 ∷ 4 ∷ 3 ∷ []) either either-Ends

parse-terminates_example : parse (codes "((1 OR 2) AND 3") ≢ fail out_of_fuel (parser_at [])
parse-terminates_example = parse-terminates (codes "((1 OR 2) AND 3") (parser_at [])

itoa-decimal_example : (itoa 999 ≡ decimal 999) ↔ (999 < 1000)
itoa-decimal_example = itoa-decimal 999

either-Printable : Printable either
unfolding Printable
either-Printable = omega arith

parse-node_string_example : parse (node_string either) ≡ done either (parser_at [])
parse-node_string_example = parse-node_string either either-Printable
