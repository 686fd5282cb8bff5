-- ===== src/Scenarios/WorkQueue.antt =====
-- Runs of the work queue on two items, and its theorems there.
use mathlib.Core.List.{Perm}
use pratc.Base.{
  min, ◌++◌, ℕ, String, true, false, ◌≢◌, ◌≡◌, refl, List, [], ◌∷◌, map, arith, pos, length, select,
  str_eq, str_eq_iff, trim_space, str_elem, Outcome, done, fail, final, if◌then◌else◌,
}
use pratc.Model.Kinds.{
  fast_merge, comment, guarded, proposed, claimable, claimed, preflighted, approved_for_execution,
  executed, verified, state_eq,
}
use pratc.Model.Records.{ActionWorkItem, ActionLease, ActionIntent, ProofBundle, instant, no_lease}
use pratc.Model.Proof.{validate_proof_bundle}
use pratc.Queue.Store.{
  ItemRow, TransitionRow, Queue, QueueError, not_claimable, database, find_item, update_item,
  get_unlocked, save_unlocked, append_transition,
}
use pratc.Queue.Lease.{lease_expired, valid_transition}
use pratc.Queue.Consistent.{RowInSync, InSync, Consistent}
use pratc.Queue.Leasing.{claim, claimed_item, transition, expire_leases, get_claimable}
use pratc.Queue.Intake.{fresh_row}
use pratc.Queue.Evidence.{attach_proof, attach_new, get_proof, find_proof}
use pratc.Queue.System.{upserts_intent, claims, expires, waits, run, step}
use pratc.Queue.Columns.{run-InSync}
use pratc.Queue.HeldRows.{IsHeld}
use pratc.Queue.Exclusion.{lease_stable, lease_exclusive, looked_up}
use pratc.Queue.Grants.{claim-transition}
use pratc.Queue.Lifecycle.{Walk, here, next, Visits, walk-executed}
use pratc.Queue.Expiry.{expired_row, expire_leases_complete}
use pratc.Queue.Offers.{is_offer, Ranked, get_claimable-offers}
use pratc.Queue.Keys.{run-DistinctKeys, DistinctKeys}
use pratc.Queue.Attach.{Attached, attach_proof_authority}

abbrev pub item_a : ActionWorkItem
item_a = record {
  id = "a";
  pr_number = 7;
  lane = fast_merge;
  state = claimable;
  priority_score = 90;
  confidence = 80;
  risk_flags = [];
  reason_trail = [];
  evidence_refs = [];
  required_preflight_checks = [];
  idempotency_key = "k";
  lease_state = no_lease;
  allowed_actions = [];
  blocked_reasons = [];
  proof_bundle_refs = [];
}

abbrev lease_of_w : ActionLease
lease_of_w = record { claimed_by = "w"; claimed_at = instant 100; expires_at = instant 150 }

abbrev item_b : ActionWorkItem
item_b = record item_a { id = "b"; pr_number = 5; state = claimed; lease_state = lease_of_w }

abbrev item_c : ActionWorkItem
item_c = record item_a { id = "c"; pr_number = 9; state = executed }

abbrev pub queue_at : ℕ → Queue
queue_at now = record {
  items = fresh_row "o/r" item_a 1 ∷ fresh_row "o/r" item_b 1 ∷ fresh_row "o/r" item_c 1 ∷ [];
  intents = [];
  transitions = [];
  proofs = [];
  now = now;
  fails = λ n. false;
  ticks = 0;
}

abbrev bundle : ProofBundle
bundle = record {
  id = "p";
  work_item_id = "b";
  pr_number = 5;
  summary = "tests pass";
  evidence_refs = "e" ∷ [];
  artifact_refs = "f" ∷ [];
  test_commands = "go test" ∷ [];
  test_results = "ok" ∷ [];
  created_by = "w";
  created_at = "now";
}

abbrev intent : ActionIntent
intent = record {
  id = "i";
  work_item_id = "a";
  action = comment;
  pr_number = 7;
  lane = fast_merge;
  dry_run = true;
  policy_profile = guarded;
  confidence = 80;
  risk_flags = [];
  reasons = "looks good" ∷ [];
  evidence_refs = [];
  preconditions = [];
  idempotency_key = "k";
  created_at = "now";
  payload = [];
}

ne : (s t : String) → str_eq s t ≡ false → s ≢ t
ne s t h e = ground (arith, str_eq_iff s t)

fresh_in_sync : (item : ActionWorkItem) → RowInSync (fresh_row "o/r" item 1)
fresh_in_sync item = record { same_id = refl; same_state = refl; same_lease = refl }

queue-InSync : (now : ℕ) → InSync (queue_at now)
unfolding Consistent
queue-InSync now = (
  (fresh_in_sync item_a, (fresh_in_sync item_b, (fresh_in_sync item_c, tt))),
  ((ne "b" "a" refl, (ne "c" "a" refl, tt)), ((ne "c" "b" refl, tt), (tt, tt))),
)

abbrev log_of : Outcome Queue QueueError ActionWorkItem → List TransitionRow
log_of o = (final o).transitions

abbrev ticks_of : Outcome Queue QueueError ActionWorkItem → ℕ
ticks_of o = (final o).ticks

-- A claim, a refusal, a release and the proof of work, as the source runs them.
claim_test : (run (claims "a" "v" (pos 30) ∷ []) (queue_at 120)).ticks ≡ 3
unfolding run step claim get_unlocked save_unlocked append_transition find_item update_item
    lease_expired
claim_test = refl

claim_busy_test :
    claim "b" "v" (pos 30) (queue_at 120) ≡ fail not_claimable (looked_up (queue_at 120))
unfolding claim get_unlocked find_item lease_expired
claim_busy_test = refl

run-InSync_example : InSync (run (claims "b" "v" (pos 5) ∷ expires ∷ []) (queue_at 120))
run-InSync_example =
    run-InSync (claims "b" "v" (pos 5) ∷ expires ∷ []) (queue_at 120) (queue-InSync 120)

IsHeld-b : (now : ℕ) → IsHeld "w" 150 (find_item "b" (queue_at now).items)
unfolding find_item
IsHeld-b now = (refl, refl, refl)

lease_stable_example :
    IsHeld "w" 150
      (find_item "b" (run (claims "b" "v" (pos 5) ∷ waits 20 ∷ expires ∷ []) (queue_at 120)).items)
lease_stable_example =
    lease_stable "b" "w" 150 (claims "b" "v" (pos 5) ∷ waits 20 ∷ expires ∷ []) (queue_at 120)
      (queue-InSync 120) (IsHeld-b 120) (ne "v" "w" refl, (tt, (tt, tt))) (omega arith)

lease_exclusive_example :
    let t = run (waits 20 ∷ []) (final (claim "a" "w" (pos 30) (queue_at 120))) in
    claim "a" "v" (pos 5) t
    ≡ fail (if t.fails t.ticks then database else not_claimable) (looked_up t)
unfolding claim get_unlocked save_unlocked append_transition find_item update_item lease_expired
lease_exclusive_example =
    lease_exclusive "a" "w" "v" (pos 30) (pos 5) (queue_at 120)
      (final (claim "a" "w" (pos 30) (queue_at 120))) _ (waits 20 ∷ []) (queue-InSync 120) refl
      (tt, tt) (omega arith) (ne "v" "w" refl) (ne "v" "" refl) (omega arith)

claim-transition_example :
    (t : Queue) × (claim "c" "v"
        (pos 30)
        (final (transition "c" "w" executed verified "done" (queue_at 200)))
      ≡ done (claimed_item (record item_c { state = verified }) "v" 200 (pos 30)) t)
unfolding transition get_unlocked save_unlocked append_transition find_item update_item
    valid_transition state_eq
claim-transition_example =
    claim-transition "c" "w" "v" executed verified "done" (pos 30) (queue_at 200)
      (final (transition "c" "w" executed verified "done" (queue_at 200)))
      (record item_c { state = verified }) (λ n. refl) (queue-InSync 200) refl (λ e. cc)
      (ne "v" "" refl) (omega arith)

abbrev full_walk : Walk proposed executed
unfolding valid_transition state_eq
full_walk =
    next {t = approved_for_execution}
      (next {t = preflighted}
        (next {t = claimed} (next {t = claimable} (next {t = proposed} here refl) refl) refl) refl)
      refl

expire_leases_complete_example :
    (t : Queue) × (expire_leases (queue_at 200) ≡ done ("b" ∷ []) t)
    × (t.items ≡ map (expired_row 200) (queue_at 200).items)
    × (t.now ≡ 200)
    × (t.fails ≡ (λ n. false))
unfolding select
expire_leases_complete_example =
    expire_leases_complete (queue_at 200) (λ n. refl) (queue-InSync 200)

walk-executed_example :
    Visits claimed full_walk
    × Visits preflighted full_walk
    × Visits approved_for_execution full_walk
walk-executed_example = walk-executed full_walk refl

get_claimable-offers_example :
    let offered = select (is_offer "o/r" fast_merge) (map (expired_row 200) (queue_at 200).items) in
    (t : Queue) × (rows : List ItemRow) × (rest : List ItemRow) × (get_claimable "o/r" fast_merge
        (pos 1)
        (queue_at 200)
      ≡ done (map (λ r. r.payload) rows) t)
    × Ranked (rows ++ rest)
    × Perm (rows ++ rest) offered
    × (length rows ≡ min 1 (length offered))
get_claimable-offers_example =
    get_claimable-offers "o/r" fast_merge (pos 1) (queue_at 200) (λ n. refl) (queue-InSync 200)

run-DistinctKeys_example :
    DistinctKeys (run (upserts_intent "o/r" intent 0 ∷ []) (queue_at 9)).intents
run-DistinctKeys_example = run-DistinctKeys (upserts_intent "o/r" intent 0 ∷ []) (queue_at 9) tt

attach_proof_authority_example :
    Attached "w" bundle
      (queue_at 120)
      (fresh_row "o/r" item_b 1)
      (attach_proof "b" "w" bundle (queue_at 120))
unfolding find_item find_proof
attach_proof_authority_example =
    attach_proof_authority "b" "w" bundle (queue_at 120) (fresh_row "o/r" item_b 1) refl refl

-- The holder's bundle is stored; another worker's is not.
stored_for_holder : (final (attach_proof "b" "w" bundle (queue_at 120))).proofs ≡ bundle ∷ []
unfolding attach_proof attach_new get_proof get_unlocked save_unlocked append_transition find_item
    find_proof lease_expired validate_proof_bundle trim_space str_elem update_item
stored_for_holder = refl

refused_to_others : (final (attach_proof "b" "v" bundle (queue_at 120))).proofs ≡ []
unfolding attach_proof attach_new get_proof get_unlocked save_unlocked append_transition find_item
    find_proof lease_expired validate_proof_bundle trim_space str_elem update_item
refused_to_others = refl
