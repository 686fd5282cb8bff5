-- ===== src/Formula/Modes.antt =====
-- `Count` and `GenerateByIndex` of internal/formula/modes.go. A *big.Int is a ℤ, where `none` is the nil
-- pointer, and a count is a natural number.
use pratc.Base.{
  ℕ, zero, suc, ◌+◌, ◌-◌, ◌*◌, ◌/◌, ◌%◌, ◌^◌, ℤ, pos, ◌&&◌, ◌||◌, String, List, [], ◌∷◌,
  if◌then◌else◌, ltb, ◌==◌, length,
}

pub data Mode : Type 0 where
  permutation combination with_replacement : Mode
  other : String → Mode

pub data FormulaError : Type 0 where
  index_out_of_range invalid_selection unsupported_mode : FormulaError

pub data Result (A : Type 0) : Type 0 where
  ok : A → Result A
  err : FormulaError → Result A

abbrev pub and_then : {A B : Type 0} → Result A → (A → Result B) → Result B
and_then (ok a) f = f a
and_then (err e) f = err e

-- The loop of the permutation case: `todo` rounds from `current` on.
unfoldable pub falling_loop : ℕ → ℕ → ℕ → ℕ → ℕ
falling_loop zero current n result = result
falling_loop (suc todo) current n result =
    falling_loop todo (current + 1) n (result * (n - current))

-- The loop of the combination case: `todo` rounds from `step` on.
unfoldable pub binomial_loop : ℕ → ℕ → ℕ → ℕ → ℕ
binomial_loop zero step rest result = result
binomial_loop (suc todo) step rest result =
    binomial_loop todo (step + 1) rest (result * (rest + step) / step)

unfoldable pub count_combinations : ℕ → ℕ → ℕ
unfolding binomial_loop
count_combinations n k =
    if ltb n k
    then 0
    else if k == 0 || k == n
    then 1
    else if ltb (n - k) k
    then binomial_loop (n - k) 1 k 1
    else binomial_loop k 1 (n - k) 1

-- The switch of `Count`, for n and k that are not negative.
unfoldable pub count_of : Mode → ℕ → ℕ → ℕ
unfolding falling_loop
count_of permutation n k = if ltb n k then 0 else falling_loop k 0 n 1
count_of combination n k = count_combinations n k
count_of with_replacement n k = if k == 0 then 1 else if n == 0 then 0 else n ^ k
count_of (other name) n k = 0

-- `Count`.
unfoldable pub count : Mode → ℤ → ℤ → ℕ
count mode (pos n) (pos k) = count_of mode n k
count mode n k = 0

-- `available[i]` taken out.
unfoldable pub remove_at : ℕ → List ℕ → List ℕ
remove_at i [] = []
remove_at zero (x ∷ xs) = xs
remove_at (suc i) (x ∷ xs) = x ∷ remove_at i xs

unfoldable pub element_at : ℕ → List ℕ → ℕ
element_at i [] = 0
element_at zero (x ∷ xs) = x
element_at (suc i) (x ∷ xs) = element_at i xs

-- `available := [0, ..., n-1]`: n numbers from `first` on.
unfoldable pub range_from : ℕ → ℕ → List ℕ
range_from first zero = []
range_from first (suc n) = first ∷ range_from (first + 1) n

abbrev pub cons_ok : ℕ → Result (List ℕ) → Result (List ℕ)
cons_ok x (ok xs) = ok (x ∷ xs)
cons_ok x (err e) = err e

abbrev pub at_least_one : ℕ → ℕ
at_least_one block = if block == 0 then 1 else block

-- The loop of `permutationIndices`, `todo` rounds before the end; `n` is the length of `available`,
-- which is n - pos in the source.
unfoldable pub permutation_loop : ℕ → ℕ → List ℕ → ℕ → Result (List ℕ)
unfolding count_of element_at remove_at
permutation_loop zero n available remaining = ok []
permutation_loop (suc todo) n available remaining =
    let block = at_least_one (count_of permutation (n - 1) todo) in
    let choice = remaining / block in
    let rest = permutation_loop todo (n - 1) (remove_at choice available) (remaining % block) in
    if ltb choice (length available)
    then cons_ok (element_at choice available) rest
    else err index_out_of_range

-- `permutationIndices`.
unfoldable pub permutation_indices : ℕ → ℕ → ℕ → Result (List ℕ)
unfolding permutation_loop range_from
permutation_indices n k idx =
    if ltb n k then err invalid_selection else permutation_loop k n (range_from 0 n) idx

-- The loop of `replacementIndices`, which fills the digits from the last one on.
unfoldable pub replacement_loop : ℕ → ℕ → ℕ → List ℕ → List ℕ
replacement_loop zero base remaining indices = indices
replacement_loop (suc todo) base remaining indices =
    replacement_loop todo base (remaining / base) (remaining % base ∷ indices)

-- `replacementIndices`.
unfoldable pub replacement_indices : ℕ → ℕ → ℕ → Result (List ℕ)
unfolding replacement_loop
replacement_indices n k idx =
    if n == 0 && ltb 0 k then err invalid_selection else ok (replacement_loop k n idx [])
