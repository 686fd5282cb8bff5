-- ===== src/Selector/Warnings.antt =====
-- `EvalString` of internal/planning/selector_eval.go and `ParseAndValidate` of selector_parser.go, and the two
-- ways in which their warnings write an ID.
use pratc.Base.{
  ℕ, zero, suc, ◌+◌, ◌/◌, ◌%◌, ◌<◌, ◌≤◌, not, ◌≡◌, ◌↔◌, refl, List, [], ◌∷◌, map, select, some,
  arith, length, Outcome, done, fail, ap,
}
use package.pratc.Selector.Syntax.{SelectorErrorCode}
use pratc.Base.Numbers.{elem, add_all}
use package.pratc.Selector.Print.{decimal, decimal_loop, itoa}
use package.pratc.Selector.Parser.{Parser, parse}
use package.pratc.Selector.Eval.{EvalResult, eval, SelectExpr, not_found, all_ids}

-- `EvalString`.
unfoldable pub eval_string : List ℕ → List ℕ → Outcome Parser SelectorErrorCode EvalResult
unfolding eval parse
eval_string available input = elim (parse input) [
  | done root p ↦ done (eval available (some root)) p
  | fail e p ↦ fail e p
]

-- The warnings of `ParseAndValidate`: none when no ID is available at all.
unfoldable pub missing_warnings : List ℕ → SelectExpr → List (List ℕ)
unfolding add_all not_found decimal all_ids elem
missing_warnings [] expr = []
missing_warnings (id ∷ ids) expr =
    let available = add_all (id ∷ ids) [] in
    map (λ x. not_found (decimal x)) (select (λ x. not (elem x available)) (all_ids expr))

-- `ParseAndValidate`.
unfoldable pub parse_and_validate :
    List ℕ → List ℕ → Outcome Parser SelectorErrorCode (SelectExpr × List (List ℕ))
unfolding parse missing_warnings
parse_and_validate input available = elim (parse input) [
  | done root p ↦ done (some root, missing_warnings available (some root)) p
  | fail e p ↦ fail e p
]

decimal_loop-length : (fuel n : ℕ) (acc : List ℕ) → length acc ≤ length (decimal_loop fuel n acc)
unfolding decimal_loop
decimal_loop-length zero n acc = omega arith
decimal_loop-length (suc fuel) n acc =
    ground (arith, decimal_loop-length fuel (n / 10) ((48 + n % 10) ∷ acc))

itoa-small : (n : ℕ) → n < 1000 → itoa n ≡ decimal n
unfolding itoa decimal decimal_loop
itoa-small zero h = refl
itoa-small (suc zero) h = refl
itoa-small (suc (suc n)) h = ground arith

itoa-length : (n : ℕ) → length (itoa n) ≤ 3
unfolding itoa
itoa-length n = ground arith

decimal-length : (n : ℕ) → 1000 ≤ n → 4 ≤ length (decimal n)
unfolding decimal decimal_loop
decimal-length zero h = absurd (omega arith)
decimal-length (suc zero) h = absurd (omega arith)
decimal-length (suc (suc zero)) h = absurd (omega arith)
decimal-length (suc (suc (suc zero))) h = absurd (omega arith)
decimal-length (suc (suc (suc (suc n)))) h =
    let whole = suc (suc (suc (suc n))) in
    let a = 48 + whole % 10 in
    let b = 48 + whole / 10 % 10 in
    let c = 48 + whole / 10 / 10 % 10 in
    ground (
      arith,
      decimal_loop-length (suc n) (whole / 10 / 10 / 10 / 10)
          ((48 + whole / 10 / 10 / 10 % 10) ∷ c ∷ b ∷ a ∷ []),
      decimal_loop-length n (whole / 10 / 10 / 10 / 10)
          ((48 + whole / 10 / 10 / 10 % 10) ∷ c ∷ b ∷ a ∷ []),
    )

-- Eval writes an ID in a warning as `strconv.Itoa` does exactly for the IDs below 1000.
pub itoa-decimal : (n : ℕ) → (itoa n ≡ decimal n) ↔ (n < 1000)
itoa-decimal n = (λ e. ground (arith, ap length e, itoa-length n, decimal-length n), itoa-small n)
