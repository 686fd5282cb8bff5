-- ===== src/Queue/Evidence.antt =====
-- AttachProof, GetProof and GetProofsForItem of internal/workqueue/queue.go.
use pratc.Base.{
  String, Bool, true, false, not, List, [], ◌∷◌, ◌++◌, map, Option, none, some, if◌then◌else◌,
  str_eq, str_elem, done, fail, ◌>>=◌, ◌>>◌, return, ensure, when, modify, gets, select,
}
use pratc.Model.Kinds.{preflighted, claimed, is_claimed}
use pratc.Model.Records.{ActionWorkItem, ProofBundle}
use pratc.Model.Proof.{validate_proof_bundle}
use pratc.Queue.Store.{
  QueueError, Op, proof_elsewhere, not_claimed, not_claimed_by, lease_has_expired, proof_not_found,
  proof_invalid, statement, get_unlocked, save_unlocked, append_transition,
}
use pratc.Queue.Lease.{lease_expired}

-- `SELECT ... FROM action_proof_bundles WHERE id = ?`.
unfoldable pub find_proof : String → List ProofBundle → Option ProofBundle
find_proof id [] = none
find_proof id (b ∷ bs) = if str_eq b.id id then some b else find_proof id bs

abbrev found_proof : Option ProofBundle → Op ProofBundle
found_proof none q = fail proof_not_found q
found_proof (some b) q = done b q

-- `GetProof`.
unfoldable pub get_proof : String → Op ProofBundle
get_proof id = do statement; proofs ← gets (λ q. q.proofs); found_proof (find_proof id proofs)

-- `item.ProofBundleRefs` with the bundle's id appended, if it is absent.
unfoldable pub with_ref : String → ActionWorkItem → ActionWorkItem
with_ref id item =
    if str_elem id item.proof_bundle_refs
    then item
    else record item { proof_bundle_refs = item.proof_bundle_refs ++ id ∷ [] }

-- The branch of AttachProof for a bundle that is stored already.
unfoldable pub attach_existing : String → ActionWorkItem → ProofBundle → Op ProofBundle
unfolding with_ref
attach_existing work_item_id item existing = do
  ensure (str_eq existing.work_item_id work_item_id) proof_elsewhere
  when (not (str_elem existing.id item.proof_bundle_refs))
      (save_unlocked (with_ref existing.id item))
  return existing

abbrev accept : Option String → Op (Unit {0})
accept none q = done tt q
accept (some complaint) q = fail (proof_invalid complaint) q

-- The branch of AttachProof for a new bundle.
unfoldable pub attach_new : String → ActionWorkItem → ProofBundle → Op ProofBundle
unfolding with_ref
attach_new worker item bundle = do
  ensure (is_claimed item.state) not_claimed
  ensure (str_eq item.lease_state.claimed_by worker) not_claimed_by
  now ← gets (λ q. q.now)
  ensure (not (lease_expired item.lease_state.expires_at now)) lease_has_expired
  accept (validate_proof_bundle item bundle)
  statement
  modify (λ q. record q { proofs = bundle ∷ q.proofs })
  let attached = with_ref bundle.id item
  save_unlocked (record attached { state = preflighted })
  append_transition item.id claimed preflighted worker "proof_attached"
  return bundle

abbrev pub is_no_rows : QueueError → Bool
is_no_rows proof_not_found = true
is_no_rows _ = false

-- `AttachProof`.
unfoldable pub attach_proof : String → String → ProofBundle → Op ProofBundle
attach_proof work_item_id worker bundle = do
  item ← get_unlocked work_item_id
  λ q. elim (get_proof bundle.id q) [
    | done existing q' ↦ attach_existing work_item_id item existing q'
    | fail e q' ↦ if is_no_rows e then attach_new worker item bundle q' else fail e q'
  ]

-- The second loop of GetProofsForItem.
unfoldable pub get_each_proof : List String → Op (List ProofBundle)
get_each_proof [] q = done [] q
get_each_proof (id ∷ rest) q = elim (get_proof id q) [
  | fail e q' ↦ fail e q'
  | done bundle q' ↦ elim (get_each_proof rest q') [
    | fail e q'' ↦ fail e q''
    | done bundles q'' ↦ done (bundle ∷ bundles) q''
  ]
]

-- `GetProofsForItem`.
unfoldable pub get_proofs_for_item : String → Op (List ProofBundle)
get_proofs_for_item work_item_id = do
  statement
  proofs ← gets (λ q. q.proofs)
  get_each_proof (map (λ b. b.id) (select (λ b. str_eq b.work_item_id work_item_id) proofs))
