-- ===== src/Formula/Choices.antt =====
-- `permutationIndices` of internal/formula/modes.go chooses k different positions for every index below
-- Count.
use pratc.Base.{
  ℕ, zero, suc, ◌+◌, ◌-◌, ◌*◌, ◌/◌, ◌%◌, ◌<◌, ◌≤◌, ◌≡◌, ◌≢◌, refl, sym, ap, subst, ◌∙◌, List, [],
  ◌∷◌, All, arith, length, ltb, Bool, true, if◌then◌else◌,
}
use native.Mathlib.Nat.{mod-lt, div-lt_iff_lt-mul, mul-pos, mul_assoc}
use pratc.Formula.Positions.{
  Distinct, length-remove_at, All-remove_at, All-element_at, Distinct-remove_at,
  element_at-remove_at, range_from-All, range_from-Distinct, length-range_from,
}
use pratc.Formula.Modes.{
  at_least_one, cons_ok, index_out_of_range, permutation, ok, err, count_of, falling_loop,
  remove_at, element_at, range_from, permutation_loop, permutation_indices,
}

falling_loop-shift :
    (todo current n result : ℕ)
    → falling_loop todo (current + 1) n result ≡ falling_loop todo current (n - 1) result
unfolding falling_loop
falling_loop-shift zero c n r = refl
falling_loop-shift (suc t) c n r =
    falling_loop-shift t (c + 1) n (r * (n - (c + 1)))
    ∙ ap (λ m. falling_loop t (c + 1) (n - 1) (r * m)) (omega arith)

falling_loop-scale :
    (todo current n a result : ℕ)
    → falling_loop todo current n (a * result) ≡ a * falling_loop todo current n result
unfolding falling_loop
falling_loop-scale zero c n a r = refl
falling_loop-scale (suc t) c n a r =
    ap (falling_loop t (c + 1) n) (mul_assoc a r (n - c))
    ∙ falling_loop-scale t (c + 1) n a (r * (n - c))

-- The first of k positions is chosen among n, and the others among n - 1.
falling_loop-suc : (k n : ℕ) → falling_loop (suc k) 0 n 1 ≡ n * falling_loop k 0 (n - 1) 1
unfolding falling_loop
falling_loop-suc k n =
    falling_loop-shift k 0 n (1 * (n - 0))
    ∙ ap (falling_loop k 0 (n - 1)) (omega arith)
    ∙ falling_loop-scale k 0 (n - 1) n 1

falling_loop_positive : (k n : ℕ) → k ≤ n → 0 < falling_loop k 0 n 1
unfolding falling_loop
falling_loop_positive zero n h = omega arith
falling_loop_positive (suc k) n h =
    rw (falling_loop-suc k n)
      (mul-pos (omega (arith, h)) (falling_loop_positive k (n - 1) (omega (arith, h))))

-- The block of selections that share the first position.
abbrev block : ℕ → ℕ → ℕ
block todo n = at_least_one (count_of permutation (n - 1) todo)

block_lem : (todo n : ℕ) → suc todo ≤ n → block todo n ≡ falling_loop todo 0 (n - 1) 1
unfolding count_of
block_lem todo n h = ground (arith, h, falling_loop_positive todo (n - 1))

module _ (todo n r : ℕ) (h : suc todo ≤ n) (b : r < falling_loop (suc todo) 0 n 1) where
  block_positive : 0 < block todo n
  block_positive = rw (block_lem todo n h) (falling_loop_positive todo (n - 1) (omega (arith, h)))

  choice_below : r / block todo n < n
  choice_below = (div-lt_iff_lt-mul block_positive).1 (
      subst (λ m. r < n * m) (sym (block_lem todo n h))
        (subst (λ m. r < m) (falling_loop-suc todo n) b))

  rest_below : r % block todo n < falling_loop todo 0 (n - 1) 1
  rest_below = subst (λ m. r % block todo n < m) (block_lem todo n h) (mod-lt r block_positive)

  choice_fits : (available : List ℕ) → length available ≡ n → r / block todo n < length available
  choice_fits available l = subst (λ m. r / block todo n < m) (sym l) choice_below

ltb-true : (m n : ℕ) → m < n → ltb m n ≡ true
ltb-true m n h = ground arith

if_true : {A : Type 0} (c : Bool) (a b : A) → c ≡ true → (if c then a else b) ≡ a
if_true c a b h = ground arith

-- The positions that are chosen, for an index in range.
unfoldable chosen : ℕ → ℕ → List ℕ → ℕ → List ℕ
chosen zero n available r = []
chosen (suc todo) n available r =
    element_at (r / block todo n) available
    ∷ chosen todo (n - 1) (remove_at (r / block todo n) available) (r % block todo n)

permutation_loop-chosen :
    (todo n : ℕ) (available : List ℕ) (r : ℕ)
    → todo ≤ n
    → length available ≡ n
    → r < falling_loop todo 0 n 1
    → permutation_loop todo n available r ≡ ok (chosen todo n available r)
unfolding permutation_loop chosen
permutation_loop-chosen zero n av r h l b = refl
permutation_loop-chosen (suc todo) n av r h l b =
    if_true (ltb (r / block todo n) (length av))
      (cons_ok (element_at (r / block todo n) av)
        (permutation_loop todo (n - 1) (remove_at (r / block todo n) av) (r % block todo n)))
      (err index_out_of_range)
      (ltb-true (r / block todo n) (length av) (choice_fits todo n r h b av l))
    ∙ ap (cons_ok (element_at (r / block todo n) av)) (
        permutation_loop-chosen todo (n - 1) (remove_at (r / block todo n) av) (r % block todo n)
          (omega (arith, h))
          (length-remove_at (r / block todo n) av (choice_fits todo n r h b av l)
            ∙ ap (λ m. m - 1) l)
          (rest_below todo n r h b))

module _ (P : ℕ → Type 0) where
  chosen-All :
      (todo n : ℕ) (available : List ℕ) (r : ℕ)
      → todo ≤ n
      → length available ≡ n
      → r < falling_loop todo 0 n 1
      → All P available
      → All P (chosen todo n available r)
  unfolding chosen
  chosen-All zero n av r h l b p = tt
  chosen-All (suc todo) n av r h l b p =
      let fits = choice_fits todo n r h b av l in
      (
        All-element_at P (r / block todo n) av fits p,
        chosen-All todo (n - 1) (remove_at (r / block todo n) av) (r % block todo n)
            (omega (arith, h)) (length-remove_at (r / block todo n) av fits ∙ ap (λ m. m - 1) l)
            (rest_below todo n r h b) (All-remove_at P (r / block todo n) av p),
      )

chosen-Distinct :
    (todo n : ℕ) (available : List ℕ) (r : ℕ)
    → todo ≤ n
    → length available ≡ n
    → r < falling_loop todo 0 n 1
    → Distinct available
    → Distinct (chosen todo n available r)
unfolding chosen Distinct
chosen-Distinct zero n av r h l b d = tt
chosen-Distinct (suc todo) n av r h l b d =
    let fits = choice_fits todo n r h b av l in
    let left = remove_at (r / block todo n) av in
    let same = length-remove_at (r / block todo n) av fits ∙ ap (λ m. m - 1) l in
    let below = rest_below todo n r h b in
    (
      chosen-All (λ y. element_at (r / block todo n) av ≢ y) todo (n - 1) left (r % block todo n)
          (omega (arith, h)) same below (element_at-remove_at (r / block todo n) av fits d),
      chosen-Distinct todo (n - 1) left (r % block todo n) (omega (arith, h)) same below
          (Distinct-remove_at (r / block todo n) av d),
    )

length-chosen :
    (todo n : ℕ) (available : List ℕ) (r : ℕ) → length (chosen todo n available r) ≡ todo
unfolding chosen
length-chosen zero n av r = refl
length-chosen (suc todo) n av r =
    ap suc (length-chosen todo (n - 1) (remove_at (r / block todo n) av) (r % block todo n))

count_of-fits :
    (n k idx : ℕ) → idx < count_of permutation n k → (k ≤ n) × (idx < falling_loop k 0 n 1)
unfolding count_of
count_of-fits n k idx h = ground arith

permutation_indices-loop :
    (n k idx : ℕ) → k ≤ n → permutation_indices n k idx ≡ permutation_loop k n (range_from 0 n) idx
unfolding permutation_indices
permutation_indices-loop n k idx h = ground arith

-- For every index below Count, permutationIndices gives k positions of the pool, no two of them equal.
pub permutation_indices-Distinct :
    (n k idx : ℕ)
    → idx < count_of permutation n k
    → (xs : List ℕ) × ((permutation_indices n k idx ≡ ok xs)
        × ((length xs ≡ k) × (All (λ i. i < n) xs × Distinct xs)))
permutation_indices-Distinct n k idx h =
    let fits = count_of-fits n k idx h in
    let len = length-range_from 0 n in
    (
      chosen k n (range_from 0 n) idx,
      (
        permutation_indices-loop n k idx fits.0
            ∙ permutation_loop-chosen k n (range_from 0 n) idx fits.0 len fits.1,
        (
          length-chosen k n (range_from 0 n) idx,
          (
            chosen-All (λ i. i < n) k n (range_from 0 n) idx fits.0 len fits.1
                (range_from-All 0 n n (omega arith)),
            chosen-Distinct k n (range_from 0 n) idx fits.0 len fits.1 (range_from-Distinct 0 n),
          ),
        ),
      ),
    )
