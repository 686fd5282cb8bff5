-- ===== src/Formula/Digits.antt =====
-- `replacementIndices` of internal/formula/modes.go writes an index in base n.
use pratc.Base.{
  ℕ, zero, suc, ◌+◌, ◌*◌, ◌/◌, ◌%◌, ◌^◌, ◌<◌, ◌≡◌, refl, sym, ap, ◌∙◌, List, [], ◌∷◌, All, arith,
  length,
}
use native.Mathlib.Nat.{mod-lt, div-lt_iff_lt-mul, div-add-mod', pow-zero, pow-suc}
use pratc.Formula.Modes.{with_replacement, ok, count_of, replacement_loop, replacement_indices}

-- The number that digits in base `n` stand for, after a prefix that stands for `value`.
unfoldable pub digits_value : ℕ → ℕ → List ℕ → ℕ
digits_value n value [] = value
digits_value n value (d ∷ ds) = digits_value n (value * n + d) ds

replacement_loop_value :
    (k n remaining : ℕ) (indices : List ℕ)
    → zero < n
    → remaining < n ^ k
    → digits_value n 0 (replacement_loop k n remaining indices) ≡ digits_value n remaining indices
unfolding replacement_loop digits_value
replacement_loop_value zero n r indices p h =
    ap (λ v. digits_value n v indices) (omega (arith, pow-zero n, h))
replacement_loop_value (suc k) n r indices p h =
    replacement_loop_value k n (r / n) (r % n ∷ indices) p
      ((div-lt_iff_lt-mul p).1 (rw (sym (pow-suc n k)) h))
    ∙ ap (λ v. digits_value n v indices) (div-add-mod' r n)

replacement_loop_below :
    (k n remaining : ℕ) (indices : List ℕ)
    → zero < n
    → All (λ i. i < n) indices
    → All (λ i. i < n) (replacement_loop k n remaining indices)
unfolding replacement_loop
replacement_loop_below zero n r indices p h = h
replacement_loop_below (suc k) n r indices p h =
    replacement_loop_below k n (r / n) (r % n ∷ indices) p (mod-lt r p, h)

length-replacement_loop :
    (k n remaining : ℕ) (indices : List ℕ)
    → length (replacement_loop k n remaining indices) ≡ k + length indices
unfolding replacement_loop
length-replacement_loop zero n r indices = omega arith
length-replacement_loop (suc k) n r indices =
    omega (arith, length-replacement_loop k n (r / n) (r % n ∷ indices))

-- A count above an index bounds it by the power, unless there is nothing to choose.
count_of-positive :
    (n k idx : ℕ) → idx < count_of with_replacement n (suc k) → (zero < n) × (idx < n ^ suc k)
unfolding count_of
count_of-positive n k idx h = ground arith

replacement_indices-ok :
    (n k idx : ℕ) → zero < n → replacement_indices n k idx ≡ ok (replacement_loop k n idx [])
unfolding replacement_indices
replacement_indices-ok n k idx p = ground arith

-- For every index below Count, replacementIndices gives k positions of the pool, which are the digits of
-- the index in base n; so different indices give different selections.
pub replacement_indices-digits_value :
    (n k idx : ℕ)
    → idx < count_of with_replacement n k
    → (xs : List ℕ) × ((replacement_indices n k idx ≡ ok xs)
        × ((length xs ≡ k) × (All (λ i. i < n) xs × (digits_value n 0 xs ≡ idx))))
unfolding replacement_indices count_of digits_value replacement_loop
replacement_indices-digits_value n zero idx h = ([], (ground arith, (refl, (tt, ground arith))))
replacement_indices-digits_value n (suc k) idx h =
    let facts = count_of-positive n k idx h in
    (
      replacement_loop (suc k) n idx [],
      (
        replacement_indices-ok n (suc k) idx facts.0,
        (
          omega (arith, length-replacement_loop (suc k) n idx []),
          (
            replacement_loop_below (suc k) n idx [] facts.0 tt,
            replacement_loop_value (suc k) n idx [] facts.0 facts.1,
          ),
        ),
      ),
    )
