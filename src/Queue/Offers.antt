-- ===== src/Queue/Offers.antt =====
-- What GetClaimable of internal/workqueue/queue.go offers to a worker.
use mathlib.Core.List.{Perm}
use mathlib.Core.List.Perm
use pratc.Base.{
  ℕ, suc, ◌<◌, ◌≤◌, min, Bool, ◌&&◌, ◌||◌, ◌++◌, ◌∙◌, pos, negsuc, All-map, str_eq, String, true,
  false, ◌≡◌, refl, sym, subst, ap, Bool-cases, List, [], ◌∷◌, map, All, arith, inl, inr, ◌⊎◌, ℤ,
  length, length-take, take, select, done, final,
}
use pratc.Model.Kinds.{ActionLane, ActionWorkItemState, unset, claimable, lane_eq, is_claimable}
use pratc.Queue.Store.{ItemRow, Queue}
use pratc.Queue.Consistent.{RowInSync, Consistent, InSync}
use pratc.Queue.Columns.{expire_leases-InSync}
use pratc.Queue.Leasing.{before, insert_row, order_rows, offers, effective_limit, get_claimable}
use pratc.Queue.Grants.{Reliable}
use pratc.Queue.Expiry.{expired_row, expire_leases_complete}

-- Each row comes before the next ones in the order of the statement.
abbrev Ordered : List ItemRow → Type 0
Ordered [] = Unit {0}
Ordered (r ∷ rs) = All (λ s. before r s ≡ true) rs × Ordered rs

-- Each row has a higher priority than each later one, or the same and no greater number.
abbrev pub Ranked : List ItemRow → Type 0
Ranked [] = Unit {0}
Ranked (r ∷ rs) =
    All
      (λ s.
        (s.priority_score < r.priority_score)
        ⊎ ((r.priority_score ≡ s.priority_score) × (r.pr_number ≤ s.pr_number)))
      rs
    × Ranked rs

before-All_ranked :
    (r : ItemRow) (rs : List ItemRow)
    → All (λ s. before r s ≡ true) rs
    → All
        (λ s.
          (s.priority_score < r.priority_score)
          ⊎ ((r.priority_score ≡ s.priority_score) × (r.pr_number ≤ s.pr_number)))
        rs
unfolding before
before-All_ranked r rs h = All-map (λ s first. ground arith) rs h

Ordered-Ranked : (rs : List ItemRow) → Ordered rs → Ranked rs
Ordered-Ranked [] o = tt
Ordered-Ranked (r ∷ rs) o = (before-All_ranked r rs o.0, Ordered-Ranked rs o.1)

before_total : (a b : ItemRow) → before a b ≡ false → before b a ≡ true
unfolding before
before_total a b h = ground arith

before_trans : (a b c : ItemRow) → before a b ≡ true → before b c ≡ true → before a c ≡ true
unfolding before
before_trans a b c h k = ground arith

All-insert_row :
    (P : ItemRow → Type 0) (r : ItemRow) (rs : List ItemRow)
    → P r
    → All P rs
    → All P (insert_row r rs)
unfolding insert_row
All-insert_row P r [] p h = (p, tt)
All-insert_row P r (s ∷ rs) p h = ground (arith, All-insert_row P r rs p h.1)

before-All :
    (a b : ItemRow) (rs : List ItemRow)
    → before a b ≡ true
    → All (λ s. before b s ≡ true) rs
    → All (λ s. before a s ≡ true) rs
before-All a b [] h k = tt
before-All a b (s ∷ rs) h k = (before_trans a b s h k.0, before-All a b rs h k.1)

insert_row-Ordered : (r : ItemRow) (rs : List ItemRow) → Ordered rs → Ordered (insert_row r rs)
unfolding insert_row
insert_row-Ordered r [] o = (tt, tt)
insert_row-Ordered r (s ∷ rs) o = elim (Bool-cases (before r s)) [
  | inl first ↦ rw first ((first, before-All r s rs first o.0), o)
  | inr later ↦ rw later (
    All-insert_row (λ t. before s t ≡ true) r rs (before_total r s later) o.0,
    insert_row-Ordered r rs o.1,
  )
]

order_rows-Ordered : (rs : List ItemRow) → Ordered (order_rows rs)
unfolding order_rows
order_rows-Ordered [] = tt
order_rows-Ordered (r ∷ rs) = insert_row-Ordered r (order_rows rs) (order_rows-Ordered rs)

insert_row-perm : (r : ItemRow) (rs : List ItemRow) → Perm (insert_row r rs) (r ∷ rs)
unfolding insert_row
insert_row-perm r [] = Perm.refl (r ∷ [])
insert_row-perm r (s ∷ rs) = elim (Bool-cases (before r s)) [
  | inl first ↦ rw first (Perm.refl (r ∷ s ∷ rs))
  | inr later ↦ rw later (Perm.trans (Perm.cons s (insert_row-perm r rs)) (Perm.swap r s rs))
]

order_rows-perm : (rs : List ItemRow) → Perm (order_rows rs) rs
unfolding order_rows
order_rows-perm [] = Perm.refl []
order_rows-perm (r ∷ rs) =
    Perm.trans (insert_row-perm r (order_rows rs)) (Perm.cons r (order_rows-perm rs))

abbrev stands_claimable : ActionWorkItemState → Bool
stands_claimable claimable = true
stands_claimable _ = false

-- A row that may be offered for a repository and a lane (`unset` stands for every lane).
abbrev pub is_offer : String → ActionLane → ItemRow → Bool
is_offer repo lane r =
    stands_claimable r.payload.state
    && str_eq r.repo repo
    && (lane_eq lane unset || lane_eq r.lane lane)

-- The number of rows that a limit allows.
abbrev pub most : ℤ → ℕ
most (pos ℕ.zero) = 100
most (pos (suc n)) = suc n
most (negsuc n) = 100

effective_limit-most : (limit : ℤ) → effective_limit limit ≡ most limit
effective_limit-most (pos ℕ.zero) = refl
effective_limit-most (pos (suc n)) = ground arith
effective_limit-most (negsuc n) = refl

is_claimable-stands : (s : ActionWorkItemState) → is_claimable s ≡ stands_claimable s
is_claimable-stands s = ground arith

select-offers :
    (repo : String) (lane : ActionLane) (rows : List ItemRow)
    → All RowInSync rows
    → select (offers repo lane) rows ≡ select (is_offer repo lane) rows
unfolding select offers
select-offers repo lane [] sync = refl
select-offers repo lane (r ∷ rs) sync = ground (
  arith,
  ap is_claimable sync.0.same_state,
  is_claimable-stands r.payload.state,
  select-offers repo lane rs sync.1,
)

-- What `take` leaves.
unfoldable beyond : ℕ → List ItemRow → List ItemRow
beyond ℕ.zero rs = rs
beyond (suc n) [] = []
beyond (suc n) (r ∷ rs) = beyond n rs

take-beyond : (n : ℕ) (rs : List ItemRow) → take n rs ++ beyond n rs ≡ rs
unfolding beyond
take-beyond ℕ.zero rs = refl
take-beyond (suc n) [] = refl
take-beyond (suc n) (r ∷ rs) = ap (λ xs. r ∷ xs) (take-beyond n rs)

length-insert_row : (r : ItemRow) (rs : List ItemRow) → length (insert_row r rs) ≡ suc (length rs)
unfolding insert_row
length-insert_row r [] = refl
length-insert_row r (s ∷ rs) = ground (arith, length-insert_row r rs)

length-order_rows : (rs : List ItemRow) → length (order_rows rs) ≡ length rs
unfolding order_rows
length-order_rows [] = refl
length-order_rows (r ∷ rs) =
    omega (arith, length-insert_row r (order_rows rs), length-order_rows rs)

-- When the database answers, GetClaimable ends. It first frees the claims that have run out; of the rows that are
-- claimable then, of the repository and of the lane, it returns the payloads of the first ones by falling
-- priority and then rising number: as many as there are, up to the limit, which is 100 for a limit that
-- is not positive.
pub get_claimable-offers :
    (repo : String) (lane : ActionLane) (limit : ℤ) (q : Queue)
    → Reliable q
    → InSync q
    → let offered = select (is_offer repo lane) (map (expired_row q.now) q.items) in
      (t : Queue) × (rows : List ItemRow) × (rest : List ItemRow) × (get_claimable repo lane limit q
        ≡ done (map (λ r. r.payload) rows) t)
      × Ranked (rows ++ rest)
      × Perm (rows ++ rest) offered
      × (length rows ≡ min (most limit) (length offered))
unfolding get_claimable Consistent
get_claimable-offers repo lane limit q ok sync =
    let n = effective_limit limit in
    let (t, ran, table, _, same) = expire_leases_complete q ok sync in
    let kept : Consistent t.items =
      subst (λ o. InSync (final o)) ran (expire_leases-InSync q sync) in
    let found = select (offers repo lane) t.items in
    let offered : found ≡ select (is_offer repo lane) (map (expired_row q.now) q.items) =
      select-offers repo lane t.items kept.0 ∙ ap (select (is_offer repo lane)) table in
    let whole : take n (order_rows found) ++ beyond n (order_rows found) ≡ order_rows found =
      take-beyond n (order_rows found) in
    (
      record t { ticks = suc t.ticks },
      take n (order_rows found),
      beyond n (order_rows found),
      ground (arith, ran, same, ok t.ticks),
      subst Ranked (sym whole) (Ordered-Ranked (order_rows found) (order_rows-Ordered found)),
      subst (λ xs. Perm xs (select (is_offer repo lane) (map (expired_row q.now) q.items)))
          (sym whole) (subst (λ xs. Perm (order_rows found) xs) offered (order_rows-perm found)),
      length-take n (order_rows found)
          ∙ ap (λ m. min n m) (length-order_rows found ∙ ap length offered)
          ∙ ap (λ m. min m (length (select (is_offer repo lane) (map (expired_row q.now) q.items))))
              (effective_limit-most limit),
    )
