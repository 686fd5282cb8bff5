-- ===== src/Queue/HeldRows.antt =====
-- What the statements of internal/workqueue/queue.go leave of a lease that somebody holds.
use pratc.Base.{
  ℕ, String, ◌≢◌, ◌≡◌, Bool-cases, List, arith, inl, inr, ◌⊎◌, subst, str_eq, str_eq_iff,
  str_eq-false, ap, sym, ◌∙◌, Option, some, none,
}
use pratc.Model.Kinds.{claimed}
use pratc.Model.Records.{ActionWorkItem, instant}
use pratc.Queue.Store.{ItemRow, find_item, upsert_item, update_item}
use pratc.Queue.Rows.{find_item-update_item, find_item-upsert_item}
use pratc.Queue.Consistent.{
  Consistent, RowInSync, upsert_item-InSync, find_item-RowInSync, update_item-InSync,
}

-- A row that `w` has claimed until `e`.
abbrev pub IsHeld : String → ℕ → Option ItemRow → Type 0
IsHeld w e none = ⊥
IsHeld w e (some r) =
    (r.payload.state ≡ claimed)
    × (r.payload.lease_state.claimed_by ≡ w)
    × (r.payload.lease_state.expires_at ≡ instant e)

module _ (id w : String) (e : ℕ) where
  -- `w` holds the item `id` until `e`. Shut, so that the proofs about operations carry it whole.
  unfoldable pub HeldIn : List ItemRow → Type 0
  HeldIn rows = Consistent rows × IsHeld w e (find_item id rows)

  -- What a lookup finds is another item, or the held one.
  pub found-Held :
      (i : String) (rows : List ItemRow) (r : ItemRow)
      → HeldIn rows
      → find_item i rows ≡ some r
      → (r.payload.id ≢ id) ⊎ IsHeld w e (some r)
  unfolding HeldIn
  found-Held i rows r h found =
      let (sync, key) = find_item-RowInSync i rows r h.0 found in
      elim (Bool-cases (str_eq i id)) [
        | inl hit ↦
            let same : i ≡ id = (str_eq_iff i id).0 hit in
            inr (subst (IsHeld w e) (ap (λ j. find_item j rows) (sym same) ∙ found) h.1)
        | inr miss ↦ inl (λ same. ground (arith, str_eq_iff i id))
      ]

  -- A save of another item leaves the held one.
  pub save-Held :
      (item : ActionWorkItem) (now : ℕ) (rows : List ItemRow)
      → item.id ≢ id
      → HeldIn rows
      → HeldIn (update_item item now rows)
  unfolding HeldIn
  save-Held item now rows other h = (
    update_item-InSync item now rows h.0,
    rw (find_item-update_item id item now rows, str_eq-false item.id id other) h.1,
  )

  -- So does a save that keeps the state and the lease of the held one.
  pub save-Held_same :
      (item : ActionWorkItem) (now : ℕ) (rows : List ItemRow)
      → item.state ≡ claimed
      → item.lease_state.claimed_by ≡ w
      → item.lease_state.expires_at ≡ instant e
      → HeldIn rows
      → HeldIn (update_item item now rows)
  unfolding HeldIn
  save-Held_same item now rows s c x h =
      (update_item-InSync item now rows h.0, ground (arith, find_item-update_item id item now rows))

  pub away_from :
      (i : String) (rows : List ItemRow) (r : ItemRow)
      → i ≢ id
      → HeldIn rows
      → find_item i rows ≡ some r
      → r.payload.id ≢ id
  unfolding HeldIn
  away_from i rows r other h found same =
      let (sync, key) = find_item-RowInSync i rows r h.0 found in
      other (sym (sync.same_id ∙ key) ∙ same)

  pub upsert-Held_row :
      (row : ItemRow) (rows : List ItemRow)
      → row.id ≢ id
      → RowInSync row
      → HeldIn rows
      → HeldIn (upsert_item row rows)
  unfolding HeldIn
  upsert-Held_row row rows other v h = (
    upsert_item-InSync row rows v h.0,
    rw (find_item-upsert_item id row rows (str_eq-false row.id id other)) h.1,
  )
