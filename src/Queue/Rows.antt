-- ===== src/Queue/Rows.antt =====
-- What the SQL statements of the work queue do to the row that a lookup finds.
use pratc.Base.{
  ℕ, String, Bool-cases, inl, inr, subst, false, ◌≡◌, List, [], ◌∷◌, some, All, arith, str_eq,
  str_eq_iff, str_eq_refl, if◌then◌else◌,
}
use mathlib.Core.Option
use pratc.Model.Records.{ActionWorkItem}
use pratc.Queue.Store.{ItemRow, find_item, upsert_item, update_item, saved}

pub find_item-update_item :
    (j : String) (item : ActionWorkItem) (now : ℕ) (rows : List ItemRow)
    → find_item j (update_item item now rows) ≡ (
        if str_eq item.id j
        then Option.map (saved item now) (find_item j rows)
        else find_item j rows)
unfolding find_item update_item
find_item-update_item j item now [] = ground arith
find_item-update_item j item now (r ∷ rs) = ground (
  arith,
  str_eq_iff r.id item.id,
  str_eq_iff r.id j,
  str_eq_iff item.id j,
  find_item-update_item j item now rs,
)

pub find_item-upsert_item :
    (j : String) (row : ItemRow) (rows : List ItemRow)
    → str_eq row.id j ≡ false
    → find_item j (upsert_item row rows) ≡ find_item j rows
unfolding find_item upsert_item
find_item-upsert_item j row [] h = ground arith
find_item-upsert_item j row (r ∷ rs) h = ground (
  arith,
  str_eq_iff r.id row.id,
  str_eq_iff r.id j,
  str_eq_iff row.id j,
  find_item-upsert_item j row rs,
)

pub find_item_holds :
    (P : ItemRow → Type 0) (id : String) (rows : List ItemRow) (r : ItemRow)
    → All P rows
    → find_item id rows ≡ some r
    → P r × (r.id ≡ id)
unfolding find_item
find_item_holds P id [] r h e = cc
find_item_holds P id (x ∷ rows) r h e = elim (Bool-cases (str_eq x.id id)) [
  | inl hit ↦
      let same : x ≡ r = ground arith in
      subst (λ y. P y × (y.id ≡ id)) same (h.0, (str_eq_iff x.id id).0 hit)
  | inr miss ↦ find_item_holds P id rows r h.1 (ground arith)
]

-- An upserted row is found, with its creation time kept from an older row.
pub find_item-upsert_item_self :
    (row : ItemRow) (rows : List ItemRow)
    → (t : ℕ) × (find_item row.id (upsert_item row rows) ≡ some (record row { created_at = t }))
unfolding find_item upsert_item
find_item-upsert_item_self row [] = (row.created_at, rw (str_eq_refl row.id))
find_item-upsert_item_self row (r ∷ rs) = elim (Bool-cases (str_eq r.id row.id)) [
  | inl hit ↦ (r.created_at, rw (hit, str_eq_refl row.id))
  | inr miss ↦ let (t, found) = find_item-upsert_item_self row rs in (t, rw (miss, miss) found)
]
