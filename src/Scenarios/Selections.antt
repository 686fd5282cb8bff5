-- ===== src/Scenarios/Selections.antt =====
-- Selections by index from a pool of four.
use pratc.Base.{pos, some, map, get_elem?, ℕ, ◌<◌, ◌≡◌, refl, List, [], ◌∷◌, arith, length}
use pratc.Formula.Modes.{
  permutation, combination, count_combinations, binomial_loop, with_replacement, ok, count_of,
  falling_loop, permutation_indices, permutation_loop, range_from, remove_at, element_at,
  replacement_indices, replacement_loop,
}
use pratc.Formula.Binomials.{choose, count_combinations-choose}
use pratc.Formula.Combinations.{
  candidate_search, combination_loop, combination_indices, Ascending, combination_indices-Ascending,
}
use pratc.Formula.Generate.{indices_of, generate_by_index, generate_by_index_total}

permutation_count : count_of permutation 4 3 ≡ 24
unfolding count_of falling_loop
permutation_count = refl

permutation_at_17 : permutation_indices 4 3 17 ≡ ok (2 ∷ 3 ∷ 1 ∷ [])
unfolding permutation_indices permutation_loop count_of falling_loop range_from remove_at element_at
permutation_at_17 = refl

index_in_range : 17 < count_of permutation 4 3
unfolding count_of falling_loop
index_in_range = omega arith

replacement_at_27 : replacement_indices 4 3 27 ≡ ok (1 ∷ 2 ∷ 3 ∷ [])
unfolding replacement_indices replacement_loop
replacement_at_27 = refl

digits_in_range : 27 < count_of with_replacement 4 3
unfolding count_of
digits_in_range = omega arith

combination_at_2 : combination_indices 4 2 2 ≡ ok (0 ∷ 3 ∷ [])
unfolding combination_indices combination_loop candidate_search count_combinations binomial_loop
combination_at_2 = refl

combination_in_range : 2 < count_of combination 4 2
unfolding count_of count_combinations binomial_loop
combination_in_range = omega arith

count_combinations-choose_example : count_combinations 6 4 ≡ choose 6 4
count_combinations-choose_example = count_combinations-choose 6 4

combination_indices-Ascending_example :
    (xs : List ℕ) × ((combination_indices 4 2 2 ≡ ok xs) × ((length xs ≡ 2) × Ascending 4 0 xs))
combination_indices-Ascending_example = combination_indices-Ascending 4 2 2 combination_in_range

abbrev pool : List ℕ
pool = 70 ∷ 71 ∷ 72 ∷ 73 ∷ []

pool_in_range : 2 < count_of combination (length pool) 2
unfolding count_of count_combinations binomial_loop
pool_in_range = omega arith

generate_by_index_total_example :
    (selection : List ℕ) × ((generate_by_index combination pool (pos 2) (some (pos 2))
        ≡ some (ok selection))
      × ((xs : List ℕ) × ((indices_of combination (length pool) 2 2 ≡ ok xs)
            × ((length xs ≡ 2) × (map some selection ≡ map (get_elem? pool) xs)))))
generate_by_index_total_example = generate_by_index_total combination pool 2 2 pool_in_range
