-- ===== src/Formula/Generate.antt =====
-- `GenerateByIndex` of internal/formula/modes.go. An index out of the pool's range would be a panic, which
-- is `none` here.
use pratc.Base.{
  ℕ, zero, suc, ◌+◌, ◌<◌, sym, ◌≡◌, refl, ap, ◌∙◌, ℤ, pos, negsuc, ◌||◌, List, [], ◌∷◌, map, All,
  arith, Option, none, some, if◌then◌else◌, leb, ◌==◌, length, get_elem?,
}
use pratc.Formula.Modes.{
  Mode, permutation, combination, with_replacement, other, Result, ok, err, index_out_of_range,
  invalid_selection, unsupported_mode, count_of, permutation_indices, replacement_indices,
}
use pratc.Formula.Digits.{replacement_indices-digits_value}
use pratc.Formula.Choices.{permutation_indices-Distinct}
use pratc.Formula.Combinations.{combination_indices, Ascending, combination_indices-Ascending}

-- The switch over the mode.
unfoldable pub indices_of : Mode → ℕ → ℕ → ℕ → Result (List ℕ)
indices_of permutation n k idx = permutation_indices n k idx
indices_of combination n k idx = combination_indices n k idx
indices_of with_replacement n k idx = replacement_indices n k idx
indices_of (other name) n k idx = err unsupported_mode

module _ {A : Type 0} where
  abbrev cons_some : Option A → Option (List A) → Option (List A)
  cons_some (some a) (some as') = some (a ∷ as')
  cons_some _ _ = none

  -- The loop that appends `pool[index]`.
  unfoldable pub pick : List A → List ℕ → Option (List A)
  pick pool [] = some []
  pick pool (i ∷ is') = cons_some (get_elem? pool i) (pick pool is')

  abbrev ok_some : Option (List A) → Option (Result (List A))
  ok_some (some as') = some (ok as')
  ok_some none = none

  unfoldable pub select_at : List A → Result (List ℕ) → Option (Result (List A))
  unfolding pick
  select_at pool (ok indices) = ok_some (pick pool indices)
  select_at pool (err e) = some (err e)

  -- `GenerateByIndex`.
  unfoldable pub generate_by_index : Mode → List A → ℤ → Option ℤ → Option (Result (List A))
  unfolding select_at indices_of
  generate_by_index mode pool k none = some (err index_out_of_range)
  generate_by_index mode pool k (some (negsuc i)) = some (err index_out_of_range)
  generate_by_index mode pool (negsuc k) (some (pos i)) = some (err invalid_selection)
  generate_by_index mode pool (pos k) (some (pos i)) =
      let total = count_of mode (length pool) k in
      if total == 0 || leb total i
      then some (err index_out_of_range)
      else select_at pool (indices_of mode (length pool) k i)

  abbrev Picked : List A → List ℕ → Type 0
  Picked pool is' =
      (as' : List A) × ((pick pool is' ≡ some as') × (map some as' ≡ map (get_elem? pool) is'))

  get_elem?-some : (i : ℕ) (pool : List A) → i < length pool → (a : A) × (get_elem? pool i ≡ some a)
  get_elem?-some i [] h = ground (arith, h)
  get_elem?-some zero (x ∷ xs) h = (x, refl)
  get_elem?-some (suc i) (x ∷ xs) h = get_elem?-some i xs (omega (arith, h))

  cons_equal : {a b : Option A} {as' bs : List (Option A)} → b ≡ a → as' ≡ bs → (a ∷ as') ≡ (b ∷ bs)
  cons_equal e es = λ j. sym e j ∷ es j

  pick-Picked : (pool : List A) (is' : List ℕ) → All (λ i. i < length pool) is' → Picked pool is'
  unfolding pick
  pick-Picked pool [] h = ([], (refl, refl))
  pick-Picked pool (i ∷ is') h =
      let one = get_elem?-some i pool h.0 in
      let more = pick-Picked pool is' h.1 in
      (one.0 ∷ more.0, (rw (one.1, more.1.0) refl, cons_equal one.1 more.1.1))

Ascending-All : (n low : ℕ) (xs : List ℕ) → Ascending n low xs → All (λ i. i < n) xs
unfolding Ascending
Ascending-All n low [] h = tt
Ascending-All n low (x ∷ xs) h = (h.0.1, Ascending-All n (x + 1) xs h.1)

-- In each mode an index below Count gives k positions, all of them in the pool.
abbrev InPool : Mode → ℕ → ℕ → ℕ → Type 0
InPool mode n k idx =
    (xs : List ℕ) × ((indices_of mode n k idx ≡ ok xs) × ((length xs ≡ k) × All (λ i. i < n) xs))

indices_of-InPool : (mode : Mode) (n k idx : ℕ) → idx < count_of mode n k → InPool mode n k idx
unfolding indices_of count_of
indices_of-InPool permutation n k idx h =
    let r = permutation_indices-Distinct n k idx h in (r.0, (r.1.0, (r.1.1.0, r.1.1.1.0)))
indices_of-InPool combination n k idx h =
    let r = combination_indices-Ascending n k idx h in
    (r.0, (r.1.0, (r.1.1.0, Ascending-All n 0 r.0 r.1.1.1)))
indices_of-InPool with_replacement n k idx h =
    let r = replacement_indices-digits_value n k idx h in (r.0, (r.1.0, (r.1.1.0, r.1.1.1.0)))
indices_of-InPool (other name) n k idx h = ground (arith, h)

passes :
    {A : Type 0} (mode : Mode) (pool : List A) (k idx : ℕ)
    → idx < count_of mode (length pool) k
    → generate_by_index mode pool (pos k) (some (pos idx))
      ≡ select_at pool (indices_of mode (length pool) k idx)
unfolding generate_by_index
passes mode pool k idx h = ground (arith, h)

-- For every index below Count, in each mode, GenerateByIndex returns a selection of k pull requests: the
-- entries of the pool at positions that are in its range.
pub generate_by_index_total :
    {A : Type 0} (mode : Mode) (pool : List A) (k idx : ℕ)
    → idx < count_of mode (length pool) k
    → (selection : List A) × ((generate_by_index mode pool (pos k) (some (pos idx))
          ≡ some (ok selection))
        × ((xs : List ℕ) × ((indices_of mode (length pool) k idx ≡ ok xs)
              × ((length xs ≡ k) × (map some selection ≡ map (get_elem? pool) xs)))))
unfolding generate_by_index select_at
generate_by_index_total mode pool k idx h =
    let r = indices_of-InPool mode (length pool) k idx h in
    let sel = pick-Picked pool r.0 r.1.1.1 in
    (
      sel.0,
      (
        passes mode pool k idx h ∙ ap (select_at pool) r.1.0 ∙ ap ok_some sel.1.0,
        (r.0, (r.1.0, (r.1.1.0, sel.1.1))),
      ),
    )
