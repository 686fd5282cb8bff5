-- ===== src/Queue/Attach.antt =====
-- Who may attach a proof bundle by AttachProof of internal/workqueue/queue.go, and how often.
use pratc.Base.{
  suc, ◌+◌, String, true, false, ◌≡◌, ap, ◌∙◌, List, [], ◌∷◌, ◌++◌, arith, str_eq_iff, str_eq_refl,
  str_elem, some, none, done, fail, ◌⊎◌, ℕ, Outcome,
}
use pratc.Model.Kinds.{claimed, preflighted}
use pratc.Model.Records.{ActionWorkItem, ProofBundle}
use pratc.Model.Proof.{validate_proof_bundle}
use pratc.Queue.Store.{
  ItemRow, Queue, QueueError, find_item, update_item, saved, get_unlocked, save_unlocked,
  append_transition,
}
use pratc.Queue.Lease.{lease_expired}
use pratc.Queue.Rows.{find_item-update_item}
use pratc.Queue.Consistent.{InSync, find_item-RowInSync}
use pratc.Queue.Evidence.{
  find_proof, get_proof, with_ref, attach_existing, attach_new, attach_proof,
}
use pratc.Queue.Grants.{Reliable, log_row}

-- The worker holds the item under a lease that has not run out, and the bundle is valid for it.
abbrev pub Authorised : String → ProofBundle → ℕ → ItemRow → Type 0
Authorised w bundle now r =
    (r.payload.state ≡ claimed)
    × (r.payload.lease_state.claimed_by ≡ w)
    × (lease_expired r.payload.lease_state.expires_at now ≡ false)
    × (validate_proof_bundle r.payload bundle ≡ none)

-- What AttachProof may leave of the state `q`: on success the bundle, stored for the holder, the item, and the log
-- with one more entry; on failure nothing new, or the bundle stored for the holder where a later statement failed.
abbrev pub Attached :
    String → ProofBundle → Queue → ItemRow → Outcome Queue QueueError ProofBundle → Type 0
Attached w bundle q r (done stored q') =
    Authorised w bundle q.now r
    × (stored ≡ bundle)
    × (q'.proofs ≡ bundle ∷ q.proofs)
    × (q'.items
        ≡ update_item (record (with_ref bundle.id r.payload) { state = preflighted }) q.now q.items)
    × (q'.transitions
        ≡ log_row r.payload.id claimed preflighted w "proof_attached" q.now ∷ q.transitions)
Attached w bundle q r (fail e q') =
    ((q'.proofs ≡ q.proofs) × (q'.items ≡ q.items) × (q'.transitions ≡ q.transitions))
    ⊎ (Authorised w bundle q.now r
        × (q'.proofs ≡ bundle ∷ q.proofs)
        × (q'.transitions ≡ q.transitions))

-- A bundle that the queue did not know is stored only for the worker that holds the item under a lease that has
-- not run out, and only if it passes validation: on success the item becomes preflighted, with the bundle
-- referenced, and the step is logged; a call that fails changes nothing, unless it fails in the database after
-- those checks, and then it may have stored the bundle and saved the item, but logs nothing.
pub attach_proof_authority :
    (id w : String) (bundle : ProofBundle) (q : Queue) (r : ItemRow)
    → find_item id q.items ≡ some r
    → find_proof bundle.id q.proofs ≡ none
    → Attached w bundle q r (attach_proof id w bundle q)
unfolding attach_proof attach_new get_proof get_unlocked save_unlocked append_transition
attach_proof_authority id w bundle q r found fresh =
    ground (arith, str_eq_iff r.payload.lease_state.claimed_by w)

attach_proof_stores :
    (id w : String) (bundle stored : ProofBundle) (q q' : Queue) (r : ItemRow)
    → find_item id q.items ≡ some r
    → find_proof bundle.id q.proofs ≡ none
    → attach_proof id w bundle q ≡ done stored q'
    → (r.payload.state ≡ claimed)
      × (r.payload.lease_state.claimed_by ≡ w)
      × (lease_expired r.payload.lease_state.expires_at q.now ≡ false)
      × (validate_proof_bundle r.payload bundle ≡ none)
      × (stored ≡ bundle)
      × (q'.proofs ≡ bundle ∷ q.proofs)
      × (q'.items
          ≡ update_item
              (record (with_ref bundle.id r.payload) { state = preflighted })
              q.now
              q.items)
      × (q'.transitions
          ≡ log_row r.payload.id claimed preflighted w "proof_attached" q.now ∷ q.transitions)
unfolding attach_proof attach_new get_proof get_unlocked save_unlocked append_transition
attach_proof_stores id w bundle stored q q' r found fresh went =
    ground (arith, str_eq_iff r.payload.lease_state.claimed_by w)

str_elem-snoc : (id : String) (ids : List String) → str_elem id (ids ++ id ∷ []) ≡ true
unfolding str_elem
str_elem-snoc id [] = ground (arith, str_eq_refl id)
str_elem-snoc id (x ∷ ids) = ground (arith, str_elem-snoc id ids)

with_ref-elem :
    (id : String) (item : ActionWorkItem) → str_elem id (with_ref id item).proof_bundle_refs ≡ true
unfolding with_ref
with_ref-elem id item = ground (arith, str_elem-snoc id item.proof_bundle_refs)

with_ref-id : (id : String) (item : ActionWorkItem) → (with_ref id item).id ≡ item.id
unfolding with_ref
with_ref-id id item = ground arith

valid-work_item :
    (item : ActionWorkItem) (bundle : ProofBundle)
    → validate_proof_bundle item bundle ≡ none
    → bundle.work_item_id ≡ item.id
unfolding validate_proof_bundle
valid-work_item item bundle h = ground (arith, str_eq_iff bundle.work_item_id item.id)

attach_existing_noop :
    (id x : String) (bundle : ProofBundle) (q : Queue) (r : ItemRow)
    → Reliable q
    → find_item id q.items ≡ some r
    → find_proof bundle.id q.proofs ≡ some bundle
    → bundle.work_item_id ≡ id
    → str_elem bundle.id r.payload.proof_bundle_refs ≡ true
    → attach_proof id x bundle q ≡ done bundle (record q { ticks = q.ticks + 2 })
unfolding attach_proof attach_existing get_proof get_unlocked
attach_existing_noop id x bundle q r ok found known owner listed =
    ground (arith, ok q.ticks, ok (suc q.ticks), str_eq_iff bundle.work_item_id id)

attach_fails :
    (id w : String) (bundle stored : ProofBundle) (q q' : Queue)
    → Reliable q
    → attach_proof id w bundle q ≡ done stored q'
    → Reliable q'
unfolding attach_proof attach_new attach_existing get_proof get_unlocked save_unlocked
    append_transition
attach_fails id w bundle stored q q' ok went =
    let same : q'.fails ≡ q.fails = ground arith in λ n. ap (λ f. f n) same ∙ ok n

-- AttachProof is idempotent: once a new bundle has been attached, attaching it to the same item again,
-- by whatever worker, returns it and changes nothing but the count of statements.
pub attach_proof_again :
    (id w x : String) (bundle stored : ProofBundle) (q q' : Queue) (r : ItemRow)
    → Reliable q
    → InSync q
    → find_item id q.items ≡ some r
    → find_proof bundle.id q.proofs ≡ none
    → attach_proof id w bundle q ≡ done stored q'
    → attach_proof id x bundle q' ≡ done bundle (record q' { ticks = q'.ticks + 2 })
unfolding find_proof
attach_proof_again id w x bundle stored q q' r ok sync found fresh went =
    let (_, _, _, valid, _, proofs, items, _) =
      attach_proof_stores id w bundle stored q q' r found fresh went in
    let (row, key) = find_item-RowInSync id q.items r sync found in
    let item = record (with_ref bundle.id r.payload) { state = preflighted } in
    let here : item.id ≡ id = with_ref-id bundle.id r.payload ∙ row.same_id ∙ key in
    let lookup : find_item id q'.items ≡ some (saved item q.now r) =
      ground
        (arith, items, here, str_eq_iff item.id id, find_item-update_item id item q.now q.items) in
    attach_existing_noop id x bundle q' (saved item q.now r)
      (attach_fails id w bundle stored q q' ok went) lookup
      (ground (arith, proofs, str_eq_refl bundle.id))
      (valid-work_item r.payload bundle valid ∙ row.same_id ∙ key)
      (with_ref-elem bundle.id r.payload)
