-- ===== src/Queue/Expiry.antt =====
-- ExpireLeases of internal/workqueue/queue.go gives back every lease that has run out, and no other.
use pratc.Base.{
  ℕ, suc, ◌≢◌, String, Bool, true, false, ◌&&◌, ◌≡◌, refl, sym, ap, subst, ◌∙◌, Bool-cases, List,
  [], ◌∷◌, map, All, select, arith, inl, inr, str_eq, str_eq_iff, done, for_each, leb,
  if◌then◌else◌,
}
use pratc.Model.Kinds.{claimable, ActionWorkItemState, claimed, is_claimed}
use pratc.Model.Records.{ActionWorkItem, no_lease, Stamp, instant}
use pratc.Queue.Store.{ItemRow, Queue, update_item, saved, save_unlocked, append_transition}
use pratc.Queue.Lease.{lease_expired}
use pratc.Queue.Consistent.{RowInSync, Consistent, InSync, DistinctIds}
use pratc.Queue.Leasing.{expired_items, expire_item, expire_leases}
use pratc.Queue.Grants.{Reliable, log_row}

map_twice :
    (rows : List ItemRow)
    → map (λ item. item.id) (map (λ r. r.payload) rows) ≡ map (λ r. r.payload.id) rows
map_twice [] = refl
map_twice (r ∷ rs) = ap (λ rest. r.payload.id ∷ rest) (map_twice rs)

-- A lease that has run out at `now`: it ends then or before, or its end is empty or cannot be read.
abbrev has_run_out : Stamp → ℕ → Bool
has_run_out (instant e) now = leb e now
has_run_out _ now = true

abbrev stands_claimed : ActionWorkItemState → Bool
stands_claimed claimed = true
stands_claimed _ = false

-- A claimed item whose lease has run out at `now`.
abbrev pub is_overdue : ℕ → ItemRow → Bool
is_overdue now r =
    stands_claimed r.payload.state && has_run_out r.payload.lease_state.expires_at now

-- The item, claimable again and without a lease.
abbrev pub freed : ActionWorkItem → ActionWorkItem
freed item = record item { state = claimable; lease_state = no_lease }

-- The row after ExpireLeases.
abbrev pub expired_row : ℕ → ItemRow → ItemRow
expired_row now r = if is_overdue now r then saved (freed r.payload) now r else r

-- The row after these items have been saved as free.
unfoldable row_after : ℕ → List ActionWorkItem → ItemRow → ItemRow
row_after now [] r = r
row_after now (item ∷ items) r =
    row_after now items (if str_eq r.id item.id then saved (freed item) now r else r)

map-row_after :
    (now : ℕ) (item : ActionWorkItem) (items : List ActionWorkItem) (rows : List ItemRow)
    → map (row_after now items) (update_item (freed item) now rows)
      ≡ map (row_after now (item ∷ items)) rows
unfolding update_item row_after
map-row_after now item items [] = refl
map-row_after now item items (r ∷ rs) =
    ap (λ rest. row_after now (item ∷ items) r ∷ rest) (map-row_after now item items rs)

map-row_after_nil : (now : ℕ) (rows : List ItemRow) → map (row_after now []) rows ≡ rows
unfolding row_after
map-row_after_nil now [] = refl
map-row_after_nil now (r ∷ rs) = ap (λ rest. r ∷ rest) (map-row_after_nil now rs)

-- An item of another id leaves the row as it is.
row_after_other :
    (now : ℕ) (items : List ActionWorkItem) (r : ItemRow)
    → All (λ item. item.id ≢ r.id) items
    → row_after now items r ≡ r
unfolding row_after
row_after_other now [] r h = refl
row_after_other now (item ∷ items) r h =
    ground (arith, str_eq_iff r.id item.id, row_after_other now items r h.1)

is_claimed-stands : (s : ActionWorkItemState) → is_claimed s ≡ stands_claimed s
is_claimed-stands s = ground arith

lease_expired-run_out : (e : Stamp) (now : ℕ) → lease_expired e now ≡ has_run_out e now
unfolding lease_expired
lease_expired-run_out e now = ground arith

expired_items-overdue :
    (now : ℕ) (r : ItemRow) (rs : List ItemRow)
    → RowInSync r
    → expired_items now (r ∷ rs)
      ≡ (if is_overdue now r then r.payload ∷ expired_items now rs else expired_items now rs)
unfolding expired_items
expired_items-overdue now r rs sync = ground (
  arith,
  ap is_claimed sync.same_state,
  is_claimed-stands r.payload.state,
  lease_expired-run_out r.payload.lease_state.expires_at now,
)

-- ExpireLeases collects the overdue items.
expired_items-select :
    (now : ℕ) (rows : List ItemRow)
    → All RowInSync rows
    → expired_items now rows ≡ map (λ r. r.payload) (select (is_overdue now) rows)
unfolding select expired_items
expired_items-select now [] sync = refl
expired_items-select now (r ∷ rs) sync =
    ground (arith, expired_items-overdue now r rs sync.0, expired_items-select now rs sync.1)

-- The collected items have ids of the rows.
expired_items-other :
    (now : ℕ) (id : String) (rows : List ItemRow)
    → All RowInSync rows
    → All (λ s. s.id ≢ id) rows
    → All (λ item. item.id ≢ id) (expired_items now rows)
unfolding expired_items
expired_items-other now id [] sync h = tt
expired_items-other now id (r ∷ rs) sync h =
    ground (arith, sync.0.same_id, expired_items-other now id rs sync.1 h.1)

map-row_after_skip :
    (now : ℕ) (item : ActionWorkItem) (items : List ActionWorkItem) (rows : List ItemRow)
    → All (λ s. s.id ≢ item.id) rows
    → map (row_after now (item ∷ items)) rows ≡ map (row_after now items) rows
unfolding row_after
map-row_after_skip now item items [] h = refl
map-row_after_skip now item items (r ∷ rs) h =
    ground (arith, str_eq_iff r.id item.id, map-row_after_skip now item items rs h.1)

row_after-expired :
    (now : ℕ) (rows : List ItemRow)
    → All RowInSync rows
    → DistinctIds rows
    → map (row_after now (expired_items now rows)) rows ≡ map (expired_row now) rows
unfolding row_after expired_items
row_after-expired now [] sync one = refl
row_after-expired now (r ∷ rs) sync one =
    let rest = expired_items now rs in
    let others = expired_items-other now r.id rs sync.1 one.0 in
    let apart = subst (λ id. All (λ s. s.id ≢ id) rs) (sym sync.0.same_id) one.0 in
    let tail = row_after-expired now rs sync.1 one.1 in
    let over = saved (freed r.payload) now r in
    ap (λ items. map (row_after now items) (r ∷ rs)) (expired_items-overdue now r rs sync.0)
    ∙ elim (Bool-cases (is_overdue now r)) [
      | inl due ↦
          let head : row_after now (r.payload ∷ rest) r ≡ over = ground (
            arith,
            sync.0.same_id,
            str_eq_iff r.id r.payload.id,
            row_after_other now rest over others,
          ) in
          ground (arith, due, head, map-row_after_skip now r.payload rest rs apart, tail)
      | inr fine ↦ ground (arith, fine, row_after_other now rest r others, tail)
    ]

expire_item_done :
    (item : ActionWorkItem) (q : Queue)
    → Reliable q
    → expire_item item q
      ≡ done tt (record q {
        items = update_item (freed item) q.now q.items;
        transitions =
            log_row item.id item.state claimable "system" "lease_expired" q.now ∷ q.transitions;
        ticks = suc (suc q.ticks);
      })
unfolding expire_item save_unlocked append_transition
expire_item_done item q ok = ground (arith, ok q.ticks, ok (suc q.ticks))

expire_loop :
    (items : List ActionWorkItem) (q : Queue)
    → Reliable q
    → (t : Queue) × (for_each items expire_item q ≡ done tt t)
      × (t.items ≡ map (row_after q.now items) q.items)
      × (t.now ≡ q.now)
      × (t.fails ≡ q.fails)
unfolding for_each
expire_loop [] q ok = (q, refl, sym (map-row_after_nil q.now q.items), refl, refl)
expire_loop (item ∷ rest) q ok =
    let q1 : Queue = record q {
      items = update_item (freed item) q.now q.items;
      transitions =
          log_row item.id item.state claimable "system" "lease_expired" q.now ∷ q.transitions;
      ticks = suc (suc q.ticks);
    } in
    let (t, ran, rows, clock, same) = expire_loop rest q1 ok in
    (
      t,
      rw (expire_item_done item q ok, for_each) ran,
      rows ∙ map-row_after q.now item rest q.items,
      clock,
      same,
    )

-- When the database answers, ExpireLeases ends and returns the ids of exactly the claimed items whose lease has
-- run out (an end that is empty or cannot be read counts as run out), in the order of the table; these
-- become claimable and lose their lease, and every other row of the table stays as it is.
pub expire_leases_complete :
    (q : Queue)
    → Reliable q
    → InSync q
    → (t : Queue) × (expire_leases q
        ≡ done (map (λ r. r.payload.id) (select (is_overdue q.now) q.items)) t)
      × (t.items ≡ map (expired_row q.now) q.items)
      × (t.now ≡ q.now)
      × (t.fails ≡ q.fails)
unfolding expire_leases Consistent
expire_leases_complete q ok sync =
    let q' : Queue = record q { ticks = suc q.ticks } in
    let items = expired_items q.now q.items in
    let (t, ran, rows, clock, same) = expire_loop items q' ok in
    let ids : map (λ item. item.id) items
        ≡ map (λ r. r.payload.id) (select (is_overdue q.now) q.items) =
      ap (map (λ item. item.id)) (expired_items-select q.now q.items sync.0)
      ∙ map_twice (select (is_overdue q.now) q.items) in
    (
      t,
      ground (arith, ok q.ticks, ran, ids),
      rows ∙ row_after-expired q.now q.items sync.0 sync.1,
      clock,
      same,
    )
