-- ===== src/Queue/Intake.antt =====
-- Upsert, EnqueueActionPlan, UpsertIntent and GetIntentsForWorkItem of internal/workqueue/queue.go.
use pratc.Base.{
  ℕ, suc, String, Bool, true, false, not, ◌&&◌, ◌||◌, List, [], ◌∷◌, map, if◌then◌else◌, str_eq,
  ltb, done, fail, ◌>>=◌, ◌>>◌, return, ensure, modify, gets, for_each, select,
}
use pratc.Model.Kinds.{ActionWorkItemState, unset, proposed, claimable}
use pratc.Model.Records.{ActionWorkItem, ActionIntent, ActionPlan, no_lease}
use pratc.Queue.Store.{
  ItemRow, IntentRow, Op, id_required, repo_required, intent_id_required, intent_missing_work_item,
  intent_missing_key, unique_violation, statement, upsert_item, append_transition,
}

abbrev pub default_state : ActionWorkItemState → ActionWorkItemState
default_state unset = proposed
default_state s = s

abbrev pub fresh_row : String → ActionWorkItem → ℕ → ItemRow
fresh_row repo item now = record {
  id = item.id;
  repo = repo;
  pr_number = item.pr_number;
  lane = item.lane;
  state = item.state;
  priority_score = item.priority_score;
  confidence = item.confidence;
  lease = item.lease_state;
  payload = item;
  created_at = now;
  updated_at = now;
}

-- `Upsert`.
unfoldable pub upsert : String → ActionWorkItem → Op (Unit {0})
upsert repo item = do
  ensure (not (str_eq item.id "")) id_required
  ensure (not (str_eq repo "")) repo_required
  let stored = record item { state = default_state item.state }
  statement
  modify (λ q. record q { items = upsert_item (fresh_row repo stored q.now) q.items })

abbrev pub intent_row : String → ActionIntent → ℕ → ℕ → IntentRow
intent_row repo intent ordinal now = record {
  id = intent.id;
  repo = repo;
  work_item_id = intent.work_item_id;
  ordinal = ordinal;
  idempotency_key = intent.idempotency_key;
  payload = intent;
  created_at = now;
  updated_at = now;
}

-- The UNIQUE constraint on `idempotency_key` against the rows with another id.
unfoldable pub key_taken : IntentRow → List IntentRow → Bool
key_taken row [] = false
key_taken row (r ∷ rs) =
    (not (str_eq r.id row.id) && str_eq r.idempotency_key row.idempotency_key) || key_taken row rs

-- `INSERT ... ON CONFLICT(id) DO UPDATE`, which keeps `created_at`.
unfoldable pub upsert_row : IntentRow → List IntentRow → List IntentRow
upsert_row row [] = row ∷ []
upsert_row row (r ∷ rs) =
    if str_eq r.id row.id
    then record row { created_at = r.created_at } ∷ rs
    else r ∷ upsert_row row rs

-- `UpsertIntent`.
unfoldable pub upsert_intent : String → ActionIntent → ℕ → Op (Unit {0})
upsert_intent repo intent ordinal = do
  ensure (not (str_eq repo "")) repo_required
  ensure (not (str_eq intent.id "")) intent_id_required
  ensure (not (str_eq intent.work_item_id "")) intent_missing_work_item
  ensure (not (str_eq intent.idempotency_key "")) intent_missing_key
  statement
  now ← gets (λ q. q.now)
  rows ← gets (λ q. q.intents)
  ensure (not (key_taken (intent_row repo intent ordinal now) rows)) unique_violation
  modify (λ q. record q { intents = upsert_row (intent_row repo intent ordinal now) rows })

abbrev pub enqueued : ActionWorkItem → ActionWorkItem
enqueued item = record item { state = claimable; lease_state = no_lease }

-- One round of the loop over `plan.WorkItems`.
unfoldable pub enqueue_item : String → ActionWorkItem → Op (Unit {0})
enqueue_item repo item = do
  upsert repo (enqueued item)
  append_transition item.id proposed claimable "system" "enqueue_action_plan"

-- The loop over `plan.ActionIntents`, from an ordinal on.
unfoldable pub enqueue_intents : String → ℕ → List ActionIntent → Op (Unit {0})
enqueue_intents repo ordinal [] q = done tt q
enqueue_intents repo ordinal (intent ∷ rest) q = elim (upsert_intent repo intent ordinal q) [
  | done _ q' ↦ enqueue_intents repo (suc ordinal) rest q'
  | fail e q' ↦ fail e q'
]

unfoldable pub all_have_work_item : List ActionIntent → Bool
all_have_work_item [] = true
all_have_work_item (intent ∷ rest) = not (str_eq intent.work_item_id "") && all_have_work_item rest

-- `EnqueueActionPlan`.
unfoldable pub enqueue_action_plan : ActionPlan → Op (Unit {0})
enqueue_action_plan plan = do
  ensure (not (str_eq plan.repo "")) repo_required
  ensure (all_have_work_item plan.action_intents) intent_missing_work_item
  for_each plan.work_items (enqueue_item plan.repo)
  enqueue_intents plan.repo 0 plan.action_intents

-- `ORDER BY ordinal ASC, id ASC`; ties beyond the ordinal keep the order of the table.
unfoldable pub insert_intent : IntentRow → List IntentRow → List IntentRow
insert_intent r [] = r ∷ []
insert_intent r (s ∷ ss) = if ltb s.ordinal r.ordinal then s ∷ insert_intent r ss else r ∷ s ∷ ss

unfoldable pub order_intents : List IntentRow → List IntentRow
order_intents [] = []
order_intents (r ∷ rs) = insert_intent r (order_intents rs)

-- `GetIntentsForWorkItem`.
unfoldable pub get_intents : String → String → Op (List ActionIntent)
get_intents repo work_item_id = do
  ensure (not (str_eq repo "")) repo_required
  ensure (not (str_eq work_item_id "")) id_required
  statement
  rows ← gets (λ q. q.intents)
  let mine = select (λ r. str_eq r.repo repo && str_eq r.work_item_id work_item_id) rows
  return (map (λ r. r.payload) (order_intents mine))
