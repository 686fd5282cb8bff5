-- ===== src/Queue/Consistent.antt =====
-- The invariant of `action_work_items`: each row's columns repeat its JSON payload, and the primary key
-- is one. The statements of `Store` keep it.
use pratc.Base.{
  ℕ, String, ◌≢◌, ◌≡◌, Bool-cases, List, [], ◌∷◌, All, arith, inl, inr, str_eq, str_eq_iff, some,
}
use pratc.Model.Records.{ActionWorkItem}
use pratc.Queue.Store.{ItemRow, Queue, find_item, upsert_item, update_item}
use pratc.Queue.Rows.{find_item_holds}

pub record RowInSync (r : ItemRow) : Type 0 where
  pub same_id : r.payload.id ≡ r.id
  pub same_state : r.payload.state ≡ r.state
  pub same_lease : r.payload.lease_state ≡ r.lease

abbrev pub DistinctIds : List ItemRow → Type 0
DistinctIds [] = Unit {0}
DistinctIds (r ∷ rs) = All (λ s. s.id ≢ r.id) rs × DistinctIds rs

-- Shut, so that the proofs about operations carry it whole.
unfoldable pub Consistent : List ItemRow → Type 0
Consistent rows = All RowInSync rows × DistinctIds rows

abbrev pub InSync : Queue → Type 0
InSync q = Consistent q.items

update_item-Row :
    (item : ActionWorkItem) (now : ℕ) (rows : List ItemRow)
    → All RowInSync rows
    → All RowInSync (update_item item now rows)
unfolding update_item
update_item-Row item now [] h = tt
update_item-Row item now (r ∷ rs) h =
    ground (arith, str_eq_iff r.id item.id, update_item-Row item now rs h.1)

update_item-fresh :
    (item : ActionWorkItem) (now : ℕ) (id : String) (rows : List ItemRow)
    → All (λ s. s.id ≢ id) rows
    → All (λ s. s.id ≢ id) (update_item item now rows)
unfolding update_item
update_item-fresh item now id [] h = tt
update_item-fresh item now id (r ∷ rs) h =
    ground (arith, str_eq_iff r.id item.id, update_item-fresh item now id rs h.1)

update_item-Distinct :
    (item : ActionWorkItem) (now : ℕ) (rows : List ItemRow)
    → DistinctIds rows
    → DistinctIds (update_item item now rows)
unfolding update_item
update_item-Distinct item now [] h = tt
update_item-Distinct item now (r ∷ rs) h =
    let rest : All (λ s. s.id ≢ r.id) (update_item item now rs)
        × DistinctIds (update_item item now rs) =
      (update_item-fresh item now r.id rs h.0, update_item-Distinct item now rs h.1) in
    elim (Bool-cases (str_eq r.id item.id)) [ inl hit ↦ rw hit rest | inr miss ↦ rw miss rest ]

pub update_item-InSync :
    (item : ActionWorkItem) (now : ℕ) (rows : List ItemRow)
    → Consistent rows
    → Consistent (update_item item now rows)
unfolding Consistent
update_item-InSync item now rows h =
    (update_item-Row item now rows h.0, update_item-Distinct item now rows h.1)

upsert_item-Row :
    (row : ItemRow) (rows : List ItemRow)
    → RowInSync row
    → All RowInSync rows
    → All RowInSync (upsert_item row rows)
unfolding upsert_item
upsert_item-Row row [] v h = (v, tt)
upsert_item-Row row (r ∷ rs) v h =
    ground (arith, str_eq_iff r.id row.id, upsert_item-Row row rs v h.1)

upsert_item-fresh :
    (row : ItemRow) (id : String) (rows : List ItemRow)
    → row.id ≢ id
    → All (λ s. s.id ≢ id) rows
    → All (λ s. s.id ≢ id) (upsert_item row rows)
unfolding upsert_item
upsert_item-fresh row id [] n h = (n, tt)
upsert_item-fresh row id (r ∷ rs) n h = ground (arith, upsert_item-fresh row id rs n h.1)

upsert_item-Distinct :
    (row : ItemRow) (rows : List ItemRow) → DistinctIds rows → DistinctIds (upsert_item row rows)
unfolding upsert_item
upsert_item-Distinct row [] h = (tt, tt)
upsert_item-Distinct row (r ∷ rs) h = elim (Bool-cases (str_eq r.id row.id)) [
  | inl hit ↦ rw (hit, ← (str_eq_iff r.id row.id).0 hit) h
  | inr miss ↦ rw miss (
    upsert_item-fresh row r.id rs (λ e. ground (arith, str_eq_iff r.id row.id)) h.0,
    upsert_item-Distinct row rs h.1,
  )
]

pub upsert_item-InSync :
    (row : ItemRow) (rows : List ItemRow)
    → RowInSync row
    → Consistent rows
    → Consistent (upsert_item row rows)
unfolding Consistent
upsert_item-InSync row rows v h =
    (upsert_item-Row row rows v h.0, upsert_item-Distinct row rows h.1)

-- What a lookup finds has its own id in the payload.
pub find_item-RowInSync :
    (id : String) (rows : List ItemRow) (r : ItemRow)
    → Consistent rows
    → find_item id rows ≡ some r
    → RowInSync r × (r.id ≡ id)
unfolding Consistent
find_item-RowInSync id rows r h e = find_item_holds RowInSync id rows r h.0 e
