-- ===== src/Formula/Positions.antt =====
-- The list `available` of internal/formula/modes.go: distinct positions, of which one is taken out at a
-- time.
use pratc.Base.{
  ℕ, zero, suc, ◌+◌, ◌-◌, ◌<◌, ◌≤◌, ◌≡◌, ◌≢◌, refl, sym, List, [], ◌∷◌, All, arith, length,
}
use pratc.Formula.Modes.{remove_at, element_at, range_from}

-- No number stands twice in the list.
unfoldable pub Distinct : List ℕ → Type 0
Distinct [] = Unit
Distinct (x ∷ xs) = All (λ y. x ≢ y) xs × Distinct xs

pub length-remove_at :
    (i : ℕ) (xs : List ℕ) → i < length xs → length (remove_at i xs) ≡ length xs - 1
unfolding remove_at
length-remove_at i [] h = refl
length-remove_at zero (x ∷ xs) h = omega arith
length-remove_at (suc i) (x ∷ xs) h = omega (arith, h, length-remove_at i xs (omega (arith, h)))

module _ (P : ℕ → Type 0) where
  pub All-remove_at : (i : ℕ) (xs : List ℕ) → All P xs → All P (remove_at i xs)
  unfolding remove_at
  All-remove_at i [] h = tt
  All-remove_at zero (x ∷ xs) h = h.1
  All-remove_at (suc i) (x ∷ xs) h = (h.0, All-remove_at i xs h.1)

  pub All-element_at : (i : ℕ) (xs : List ℕ) → i < length xs → All P xs → P (element_at i xs)
  unfolding element_at
  All-element_at i [] h a = ground (arith, h)
  All-element_at zero (x ∷ xs) h a = a.0
  All-element_at (suc i) (x ∷ xs) h a = All-element_at i xs (omega (arith, h)) a.1

pub Distinct-remove_at : (i : ℕ) (xs : List ℕ) → Distinct xs → Distinct (remove_at i xs)
unfolding Distinct remove_at
Distinct-remove_at i [] d = tt
Distinct-remove_at zero (x ∷ xs) d = d.1
Distinct-remove_at (suc i) (x ∷ xs) d =
    (All-remove_at (λ y. x ≢ y) i xs d.0, Distinct-remove_at i xs d.1)

pub element_at-remove_at :
    (i : ℕ) (xs : List ℕ)
    → i < length xs
    → Distinct xs
    → All (λ y. element_at i xs ≢ y) (remove_at i xs)
unfolding Distinct remove_at element_at
element_at-remove_at i [] h d = tt
element_at-remove_at zero (x ∷ xs) h d = d.0
element_at-remove_at (suc i) (x ∷ xs) h d = (
  λ e. All-element_at (λ y. x ≢ y) i xs (omega (arith, h)) d.0 (sym e),
  element_at-remove_at i xs (omega (arith, h)) d.1,
)

pub range_from-All :
    (first n bound : ℕ) → first + n ≤ bound → All (λ i. i < bound) (range_from first n)
unfolding range_from
range_from-All first zero bound h = tt
range_from-All first (suc n) bound h =
    (omega (arith, h), range_from-All (first + 1) n bound (omega (arith, h)))

range_from-above : (first n low : ℕ) → low < first → All (λ i. low ≢ i) (range_from first n)
unfolding range_from
range_from-above first zero low h = tt
range_from-above first (suc n) low h =
    (λ e. omega (arith, h, e), range_from-above (first + 1) n low (omega (arith, h)))

pub range_from-Distinct : (first n : ℕ) → Distinct (range_from first n)
unfolding range_from Distinct
range_from-Distinct first zero = tt
range_from-Distinct first (suc n) =
    (range_from-above (first + 1) n first (omega arith), range_from-Distinct (first + 1) n)

pub length-range_from : (first n : ℕ) → length (range_from first n) ≡ n
unfolding range_from
length-range_from first zero = refl
length-range_from first (suc n) = omega (arith, length-range_from (first + 1) n)
