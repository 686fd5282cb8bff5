-- ===== src/Formula/Binomials.antt =====
-- The combination case of `Count` of internal/formula/modes.go computes binomial coefficients.
use pratc.Base.{ℕ, zero, suc, ◌+◌, ◌-◌, ◌*◌, ◌/◌, ◌<◌, ◌≤◌, ◌≡◌, refl, sym, ap, ◌∙◌, arith}
use native.Mathlib.Nat.{mul-div_cancel_left, mul_comm}
use pratc.Formula.Modes.{count_combinations, binomial_loop}

-- Pascal's triangle.
unfoldable pub choose : ℕ → ℕ → ℕ
choose n zero = 1
choose zero (suc k) = 0
choose (suc n) (suc k) = choose n k + choose n (suc k)

choose-zero : (n : ℕ) → choose n 0 ≡ 1
unfolding choose
choose-zero zero = refl
choose-zero (suc n) = refl

absorption : (n k : ℕ) → suc k * choose (suc n) (suc k) ≡ suc n * choose n k
unfolding choose
absorption zero zero = refl
absorption zero (suc k) = omega arith
absorption (suc n) zero = grind (arith, absorption n 0, choose-zero n)
absorption (suc n) (suc k) = grind (arith, absorption n k, absorption n (suc k))

pub choose_over : (n k : ℕ) → n < k → choose n k ≡ 0
unfolding choose
choose_over n zero h = omega (arith, h)
choose_over zero (suc k) h = refl
choose_over (suc n) (suc k) h =
    omega (arith, choose_over n k (omega (arith, h)), choose_over n (suc k) (omega (arith, h)))

choose_self : (n : ℕ) → choose n n ≡ 1
unfolding choose
choose_self zero = refl
choose_self (suc n) = omega (arith, choose_self n, choose_over n (suc n) (omega arith))

choose_sym : (n a b : ℕ) → n ≡ a + b → choose n a ≡ choose n b
unfolding choose
choose_sym n zero b h = choose-zero n ∙ sym (choose_self n) ∙ ap (choose n) (omega (arith, h))
choose_sym n (suc a) zero h =
    ap (choose n) {x = suc a} {y = n} (omega (arith, h)) ∙ choose_self n ∙ sym (choose-zero n)
choose_sym zero (suc a) (suc b) h = omega (arith, h)
choose_sym (suc n) (suc a) (suc b) h =
    omega
      (arith, choose_sym n a (suc b) (omega (arith, h)), choose_sym n (suc a) b (omega (arith, h)))

-- A round of the loop takes one binomial coefficient to the next, and its division is exact.
round : (rest s : ℕ) → choose (rest + s) s * (rest + suc s) / suc s ≡ choose (rest + suc s) (suc s)
round rest s =
    let next : rest + suc s ≡ suc (rest + s) = omega arith in
    ap (λ m. choose (rest + s) s * m / suc s) next
    ∙ ap (λ m. m / suc s)
        (mul_comm (choose (rest + s) s) (suc (rest + s)) ∙ sym (absorption (rest + s) s))
    ∙ mul-div_cancel_left (choose (suc (rest + s)) (suc s)) (omega arith)
    ∙ ap (λ m. choose m (suc s)) (sym next)

binomial_loop-choose :
    (todo step s rest result : ℕ)
    → step ≡ suc s
    → result ≡ choose (rest + s) s
    → binomial_loop todo step rest result ≡ choose (rest + (s + todo)) (s + todo)
unfolding binomial_loop
binomial_loop-choose zero step s rest result e h = h ∙ ap (λ m. choose (rest + m) m) (omega arith)
binomial_loop-choose (suc todo) step s rest result e h =
    binomial_loop-choose todo (step + 1) (suc s) rest (result * (rest + step) / step)
      (omega (arith, e))
      (ap (λ m. result * (rest + m) / m) e ∙ ap (λ v. v * (rest + suc s) / suc s) h ∙ round rest s)
    ∙ ap (λ m. choose (rest + m) m) (omega arith)

-- The loop from its first round.
binomial_loop_all : (k m : ℕ) → binomial_loop k 1 m 1 ≡ choose (m + k) k
binomial_loop_all k m =
    binomial_loop-choose k 1 0 m 1 refl (sym (choose-zero (m + 0)))
    ∙ ap (λ x. choose (m + x) x) (omega arith)

loop_direct : (n k : ℕ) → k ≤ n → binomial_loop k 1 (n - k) 1 ≡ choose n k
loop_direct n k h = binomial_loop_all k (n - k) ∙ ap (λ m. choose m k) (omega (arith, h))

loop_flipped : (n k : ℕ) → k ≤ n → binomial_loop (n - k) 1 k 1 ≡ choose n k
loop_flipped n k h =
    binomial_loop_all (n - k) k
    ∙ ap (λ m. choose m (n - k)) (omega (arith, h))
    ∙ choose_sym n (n - k) k (omega (arith, h))

choose_full : (n k : ℕ) → k ≡ n → choose n k ≡ 1
choose_full n k h = ap (choose n) h ∙ choose_self n

choose_none : (n k : ℕ) → k ≡ 0 → choose n k ≡ 1
choose_none n k h = ap (choose n) h ∙ choose-zero n

-- For a combination, Count is the number of Pascal's triangle: the shortcut for k above n / 2 does not
-- change it, and no division of the loop drops a remainder.
pub count_combinations-choose : (n k : ℕ) → count_combinations n k ≡ choose n k
unfolding count_combinations
count_combinations-choose n k =
    ground
      (arith, choose_over n k, choose_full n k, choose_none n k, loop_direct n k, loop_flipped n k)
