-- ===== src/Budget/Bounds.antt =====
-- What the rate limit budget of internal/telemetry/ratelimit keeps, and the sizes of chunks within it.
use pratc.Base.{
  ℕ, suc, ◌+◌, ◌-◌, ◌*◌, ◌/◌, ◌≤◌, ◌<◌, true, ◌≡◌, ◌⊎◌, ℤ, pos, pos_part, neg_part, ◌+ℤ◌, ◌-ℤ◌,
  ◌≤ℤ◌, is_positive, if◌then◌else◌, List, [], ◌∷◌, some, arith, done,
}
use package.pratc.Budget.Manager.{BudgetManager, remaining, can_afford, reserve}
use package.pratc.Budget.Chunks.{requests_per_pr, calculate_chunk_size, sync_chunk_size}

-- The value of an integer, moved up by an offset that makes it natural, is what the comparisons read.
abbrev Same : ℤ → ℕ → ℕ → Type 0
Same a p n = pos_part a + n ≡ p + neg_part a

sub_value : (a b : ℤ) → Same (a -ℤ b) (pos_part a + neg_part b) (neg_part a + pos_part b)
unfolding ◌-ℤ◌
sub_value a b = ground arith

add_value : (a b : ℤ) → Same (a +ℤ b) (pos_part a + pos_part b) (neg_part a + neg_part b)
unfolding ◌+ℤ◌
add_value a b = ground arith

-- A reservation that is granted takes its count off what remains, which stays at or above the reserve buffer
-- or is used up to the last request; it never falls below 0.
pub reserve_granted :
    (count : ℤ) (b c : BudgetManager)
    → reserve count b ≡ done tt c
    → (pos 0 ≤ℤ count)
      × ((pos 0 ≤ℤ remaining c) × ((c.reserve_buffer ≤ℤ remaining c) ⊎ (remaining c ≤ℤ pos 0)))
unfolding reserve remaining
reserve_granted count b c h = ground (
  arith,
  sub_value b.remaining_val b.reserved_count,
  sub_value (b.remaining_val -ℤ b.reserved_count) count,
  add_value b.reserved_count count,
  sub_value b.remaining_val (b.reserved_count +ℤ count),
)

-- Whatever CanAfford says can be reserved, where the reserve buffer is not negative.
can_afford-reserve :
    (count : ℤ) (b : BudgetManager)
    → pos 0 ≤ℤ count
    → pos 0 ≤ℤ b.reserve_buffer
    → can_afford count b ≡ true
    → reserve count b ≡ done tt (record b { reserved_count = b.reserved_count +ℤ count })
unfolding reserve remaining can_afford
can_afford-reserve count b h k a = ground (
  arith,
  sub_value b.remaining_val b.reserved_count,
  sub_value (b.remaining_val -ℤ b.reserved_count) count,
)

requests_per_pr_positive : (options : List ℤ) (n : ℕ) → 1 ≤ n → 1 ≤ requests_per_pr options n
unfolding requests_per_pr
requests_per_pr_positive [] n h = h
requests_per_pr_positive (o ∷ os) n h =
    requests_per_pr_positive os (if is_positive o then pos_part o else n) (ground arith)

quotient_bound : (a n : ℕ) → 1 ≤ n → a / n * n ≤ a
quotient_bound a n h = grind arith

quotient_most : (a n : ℕ) → 1 ≤ n → a < suc (a / n) * n
quotient_most a n h = grind arith

product_mono : (a b n : ℕ) → a ≤ b → a * n ≤ b * n
product_mono a b n h = grind arith

-- A chunk has at most the pull requests that there are, and costs at most what the remaining budget leaves above
-- the reserve. It is the largest such chunk, unless no budget remains at all.
pub calculate_chunk_size-bounds :
    (total_prs remaining_budget reserve_buffer : ℤ) (options : List ℤ)
    → let size = calculate_chunk_size total_prs remaining_budget reserve_buffer options in
      let cost = requests_per_pr options 3 in
      let available = pos_part (remaining_budget -ℤ reserve_buffer) in
      (size ≤ pos_part total_prs)
      × ((size * cost ≤ available)
          × ((remaining_budget ≤ℤ pos 0)
              ⊎ ((size ≡ pos_part total_prs) ⊎ (available < suc size * cost))))
unfolding calculate_chunk_size
calculate_chunk_size-bounds total_prs remaining_budget reserve_buffer options =
    let cost = requests_per_pr options 3 in
    let positive = requests_per_pr_positive options 3 (omega arith) in
    let available = pos_part (remaining_budget -ℤ reserve_buffer) in
    ground (
      arith,
      positive,
      quotient_bound available cost positive,
      quotient_most available cost positive,
      product_mono (pos_part total_prs) (available / cost) cost,
    )

-- A chunk of the sync is empty or can be afforded at three requests for each pull request, where the reserve
-- buffer is at most 200, which it is by default.
pub sync_chunk_size-afforded :
    (b : BudgetManager)
    → b.reserve_buffer ≤ℤ pos 200
    → (sync_chunk_size (some b) ≡ 0) ⊎ (can_afford (pos (sync_chunk_size (some b) * 3)) b ≡ true)
unfolding sync_chunk_size can_afford remaining
sync_chunk_size-afforded b h = ground (
  arith,
  sub_value b.remaining_val b.reserved_count,
  sub_value (b.remaining_val -ℤ b.reserved_count)
      (pos ((pos_part (b.remaining_val -ℤ b.reserved_count) - 200) / 3 * 3)),
)
