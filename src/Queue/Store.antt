-- ===== src/Queue/Store.antt =====
-- The tables of internal/workqueue/queue.go and its SQL statements as functions of the tables. Any
-- statement may fail: `fails n` says whether the n-th one does, and `ticks` counts them. The clock
-- `q.now()` stands still within one call.
use pratc.Base.{
  ℕ, suc, String, Bool, true, false, Option, none, some, List, [], ◌∷◌, if◌then◌else◌, str_eq, Prog,
  done, fail, ◌>>=◌, ◌>>◌, modify, gets,
}
use pratc.Model.Kinds.{ActionLane, ActionWorkItemState}
use pratc.Model.Records.{ActionLease, ActionWorkItem, ActionIntent, ProofBundle}

-- A row of `action_work_items`.
pub record ItemRow : Type 0 where
  pub id : String
  pub repo : String
  pub pr_number : ℕ
  pub lane : ActionLane
  pub state : ActionWorkItemState
  pub priority_score : ℕ
  pub confidence : ℕ
  pub lease : ActionLease
  pub payload : ActionWorkItem
  pub created_at : ℕ
  pub updated_at : ℕ

-- A row of `action_intents`.
pub record IntentRow : Type 0 where
  pub id : String
  pub repo : String
  pub work_item_id : String
  pub ordinal : ℕ
  pub idempotency_key : String
  pub payload : ActionIntent
  pub created_at : ℕ
  pub updated_at : ℕ

-- A row of `action_state_transitions`; the table is kept newest first.
pub record TransitionRow : Type 0 where
  pub work_item_id : String
  pub from_state : ActionWorkItemState
  pub to_state : ActionWorkItemState
  pub actor : String
  pub reason : String
  pub created_at : ℕ

pub record Queue : Type 0 where
  pub items : List ItemRow
  pub intents : List IntentRow
  pub transitions : List TransitionRow
  pub proofs : List ProofBundle
  pub now : ℕ
  pub fails : ℕ → Bool
  pub ticks : ℕ

pub data QueueError : Type 0 where
  id_required repo_required intent_id_required intent_missing_work_item intent_missing_key
        worker_required ttl_not_positive item_not_found not_claimable not_claimed_by state_mismatch
        invalid_transition proof_elsewhere not_claimed lease_has_expired proof_not_found database
        unique_violation :
      QueueError
  proof_invalid : String → QueueError

abbrev pub Op : Type 0 → Type 0
Op A = Prog Queue QueueError A

-- Run one statement: it fails as a whole, or takes effect.
abbrev pub statement : Op (Unit {0})
statement q =
    let q' = record q { ticks = suc q.ticks } in
    elim (q.fails q.ticks) [ true ↦ fail database q' | false ↦ done tt q' ]

-- `SELECT ... WHERE id = ?`; the primary key makes the first match the only one.
unfoldable pub find_item : String → List ItemRow → Option ItemRow
find_item id [] = none
find_item id (r ∷ rs) = if str_eq r.id id then some r else find_item id rs

-- `INSERT ... ON CONFLICT(id) DO UPDATE`, which keeps `created_at`.
unfoldable pub upsert_item : ItemRow → List ItemRow → List ItemRow
upsert_item row [] = row ∷ []
upsert_item row (r ∷ rs) =
    if str_eq r.id row.id
    then record row { created_at = r.created_at } ∷ rs
    else r ∷ upsert_item row rs

-- The columns that `UPDATE action_work_items SET ...` writes; `repo` and `pr_number` stay.
abbrev pub saved : ActionWorkItem → ℕ → ItemRow → ItemRow
saved item now r = record r {
  state = item.state;
  lane = item.lane;
  priority_score = item.priority_score;
  confidence = item.confidence;
  lease = item.lease_state;
  payload = item;
  updated_at = now;
}

unfoldable pub update_item : ActionWorkItem → ℕ → List ItemRow → List ItemRow
update_item item now [] = []
update_item item now (r ∷ rs) =
    (if str_eq r.id item.id then saved item now r else r) ∷ update_item item now rs

abbrev found : Option ItemRow → Op ActionWorkItem
found none q = fail item_not_found q
found (some r) q = done r.payload q

-- `getUnlocked`.
unfoldable pub get_unlocked : String → Op ActionWorkItem
get_unlocked id = do statement; rows ← gets (λ q. q.items); found (find_item id rows)

-- `saveUnlocked`.
unfoldable pub save_unlocked : ActionWorkItem → Op (Unit {0})
save_unlocked item = do statement; modify (λ q. record q { items = update_item item q.now q.items })

-- `appendTransitionUnlocked`.
unfoldable pub append_transition :
    String → ActionWorkItemState → ActionWorkItemState → String → String → Op (Unit {0})
append_transition id from to actor reason = do
  statement
  modify (λ q. record q {
    transitions =
        record {
          work_item_id = id;
          from_state = from;
          to_state = to;
          actor = actor;
          reason = reason;
          created_at = q.now;
        }
        ∷ q.transitions;
  })
