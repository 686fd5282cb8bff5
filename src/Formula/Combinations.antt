-- ===== src/Formula/Combinations.antt =====
-- `combinationIndices` of internal/formula/modes.go, and why it finds a selection for every index below
-- Count.
use pratc.Base.{
  ℕ, zero, suc, ◌+◌, ◌-◌, ◌<◌, ◌≤◌, ◌≡◌, refl, ap, subst, ◌∙◌, List, [], ◌∷◌, arith, Option, none,
  some, if◌then◌else◌, ltb, false, Bool-cases, inl, inr, length,
}
use pratc.Formula.Modes.{
  Result, ok, err, index_out_of_range, invalid_selection, cons_ok, count_of, combination,
  count_combinations,
}
use pratc.Formula.Binomials.{choose, choose_over, count_combinations-choose}

-- The inner loop of `combinationIndices`: `left` candidates from `candidate` on, with k - pos - 1 as
-- `others`; the candidate that is found, and what remains.
unfoldable pub candidate_search : ℕ → ℕ → ℕ → ℕ → ℕ → Option (ℕ × ℕ)
candidate_search zero candidate n others remaining = none
candidate_search (suc left) candidate n others remaining =
    let block = count_combinations (n - candidate - 1) others in
    let rest = candidate_search left (candidate + 1) n others (remaining - block) in
    if ltb remaining block then some (candidate, remaining) else rest

-- The outer loop, `todo` rounds before the end. The candidates go from `start` to n - (k - pos).
unfoldable pub combination_loop : ℕ → ℕ → ℕ → ℕ → Result (List ℕ)
unfolding candidate_search
combination_loop zero n start remaining = ok []
combination_loop (suc todo) n start remaining =
    elim (candidate_search (n - suc todo + 1 - start) start n todo remaining) [
      | none ↦ err index_out_of_range
      | some (found, left) ↦ cons_ok found (combination_loop todo n (found + 1) left)
    ]

-- `combinationIndices`.
unfoldable pub combination_indices : ℕ → ℕ → ℕ → Result (List ℕ)
unfolding combination_loop
combination_indices n k idx = if ltb n k then err invalid_selection else combination_loop k n 0 idx

-- What the search finds.
abbrev Found : ℕ → ℕ → ℕ → Option (ℕ × ℕ) → Type 0
Found candidate n others result =
    (x : ℕ) × ((r : ℕ) × ((result ≡ some (x, r))
        × (((candidate ≤ x) × (x < n)) × (r < choose (n - x - 1) others))))

pascal : (m k : ℕ) → 0 < m → choose m (suc k) ≡ choose (m - 1) k + choose (m - 1) (suc k)
unfolding choose
pascal zero k h = omega (arith, h)
pascal (suc m) k h = ap (λ x. choose x k + choose x (suc k)) {x = m} {y = suc m - 1} (omega arith)

-- What remains after a candidate is passed over is in range for the next ones.
rest_below :
    (n c k r : ℕ)
    → c < n
    → r < choose (n - c) (suc k)
    → ltb r (count_combinations (n - c - 1) k) ≡ false
    → r - count_combinations (n - c - 1) k < choose (n - (c + 1)) (suc k)
rest_below n c k r p h above =
    let same : n - c - 1 ≡ n - (c + 1) = omega arith in
    let split = pascal (n - c) k (omega (arith, p)) in
    subst (λ m. r - count_combinations (n - c - 1) k < choose m (suc k)) same
      (ground (arith, h, above, split, count_combinations-choose (n - c - 1) k))

candidate_search-Found :
    (left candidate n others remaining : ℕ)
    → left ≡ n - others - candidate
    → remaining < choose (n - candidate) (suc others)
    → Found candidate n others (candidate_search left candidate n others remaining)
unfolding candidate_search
candidate_search-Found zero c n k r e h =
    let empty = choose_over (n - c) (suc k) (omega (arith, e)) in ground (arith, h, empty)
candidate_search-Found (suc left) c n k r e h =
    elim (Bool-cases (ltb r (count_combinations (n - c - 1) k))) [
      | inl below ↦ (
        c,
        (
          r,
          (
            rw below refl,
            (
              (omega arith, omega (arith, e)),
              ground (arith, below, count_combinations-choose (n - c - 1) k),
            ),
          ),
        ),
      )
      | inr above ↦
          let block = count_combinations (n - c - 1) k in
          let more =
            candidate_search-Found left (c + 1) n k (r - block) (omega (arith, e))
              (rest_below n c k r (omega (arith, e)) h above) in
          (
            more.0,
            (
              more.1.0,
              (rw above more.1.1.0, ((omega (arith, more.1.1.1.0), more.1.1.1.0.1), more.1.1.1.1)),
            ),
          )
    ]

-- Positions below `n` in ascending order, from `low` on, no two of them equal.
unfoldable pub Ascending : ℕ → ℕ → List ℕ → Type 0
Ascending n low [] = Unit
Ascending n low (x ∷ xs) = ((low ≤ x) × (x < n)) × Ascending n (x + 1) xs

abbrev Selects : ℕ → ℕ → ℕ → Result (List ℕ) → Type 0
Selects n k low result = (xs : List ℕ) × ((result ≡ ok xs) × ((length xs ≡ k) × Ascending n low xs))

room : (m k r : ℕ) → r < choose m (suc k) → k < m
room m k r h = ground (arith, h, choose_over m (suc k))

-- A round of the loop whose search succeeds, where the rest of the loop does for what remains.
Selects-next :
    (todo n start remaining : ℕ)
    → Found start n todo (candidate_search (n - suc todo + 1 - start) start n todo remaining)
    → ((x left : ℕ)
        → left < choose (n - (x + 1)) todo
        → Selects n todo (x + 1) (combination_loop todo n (x + 1) left))
    → Selects n (suc todo) start (combination_loop (suc todo) n start remaining)
unfolding combination_loop Ascending
Selects-next todo n start r (x, (left, (e, (within, below)))) others =
    let rest = others x left (subst (λ m. left < choose m todo) (omega arith) below) in
    (
      x ∷ rest.0,
      (
        rw (e, combination_loop) (ap (cons_ok x) rest.1.0),
        (ap suc rest.1.1.0, (within, rest.1.1.1)),
      ),
    )

combination_loop-Ascending :
    (todo n start remaining : ℕ)
    → remaining < choose (n - start) todo
    → Selects n todo start (combination_loop todo n start remaining)
unfolding combination_loop Ascending
combination_loop-Ascending zero n start r h = ([], (refl, (refl, tt)))
combination_loop-Ascending (suc todo) n start r h =
    let enough = room (n - start) todo r h in
    Selects-next todo n start r
      (candidate_search-Found (n - suc todo + 1 - start) start n todo r (omega (arith, enough)) h)
      (λ x left below. combination_loop-Ascending todo n (x + 1) left below)

combination_indices-loop :
    (n k idx : ℕ)
    → idx < count_of combination n k
    → combination_indices n k idx ≡ combination_loop k n 0 idx
unfolding combination_indices count_of count_combinations
combination_indices-loop n k idx h = ground arith

count_of-choose : (n k : ℕ) → count_of combination n k ≡ choose n k
unfolding count_of
count_of-choose n k = count_combinations-choose n k

-- For every index below Count, combinationIndices gives k positions of the pool in ascending order; so
-- none of them is chosen twice, and the search for the next one never fails.
pub combination_indices-Ascending :
    (n k idx : ℕ)
    → idx < count_of combination n k
    → (xs : List ℕ) × ((combination_indices n k idx ≡ ok xs) × ((length xs ≡ k) × Ascending n 0 xs))
combination_indices-Ascending n k idx h =
    let below : idx < choose (n - 0) k =
      subst (λ m. idx < choose m k) (omega arith) (subst (λ m. idx < m) (count_of-choose n k) h) in
    let all = combination_loop-Ascending k n 0 idx below in
    (all.0, (combination_indices-loop n k idx h ∙ all.1.0, all.1.1))
