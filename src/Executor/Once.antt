-- ===== src/Executor/Once.antt =====
-- Why an intent of internal/executor/executor.go runs at most once: its idempotency key is executed in
-- the ledger when ExecuteIntent succeeds, and then every later call of it does nothing.
use pratc.Base.{
  ℕ, String, true, ◌≡◌, inl, inr, List, [], ◌∷◌, arith, Prog, done, final, Outcome-cases, ◌>>=◌,
  ◌>>◌,
}
use pratc.Model.Records.{ActionIntent, ExecutionResult}
use pratc.Executor.Ledger.{
  Ledger, IsLedger, Stage, Snapshot, proposed, preflighted, executed, of_intent, of_preflight,
  of_result,
}
use pratc.Executor.Mutator.{Mutator}
use pratc.Executor.Session.{Config, Session}
use pratc.Executor.Perform.{Failure, attempt, fail_intent, record_stage, perform}
use pratc.Executor.Execute.{
  already_result, blank_result, gate_policy, gate_preflight, settle, execute_fresh, execute_intent,
}
use pratc.Executor.Writes.{record_stage-writes}

module _ {W L : Type 0} (gh : Mutator W) (ops : Ledger L) (laws : IsLedger L ops) (cfg : Config)
    (now : ℕ) where
  module _ (key : String) where
    -- A call whose success leaves the key executed.
    abbrev Marks : {A : Type 0} → Prog (Session W L) Failure A → Type 0
    Marks {A} m =
        (s : Session W L) (r : A) (t : Session W L)
        → m s ≡ done r t
        → ops.is_executed key t.ledger ≡ true

    bind-Marks :
        {A B : Type 0} (m : Prog (Session W L) Failure A) (f : A → Prog (Session W L) Failure B)
        → ((a : A) → Marks (f a))
        → Marks (m >>= f)
    bind-Marks m f rest s r t h = elim (Outcome-cases (m s)) [
      | inl (a, u, e) ↦ ground (arith, rest a u r t)
      | inr (_, u, e) ↦ ground arith
    ]

    seq-Marks :
        {B : Type 0} (m : Prog (Session W L) Failure (Unit {0})) (k : Prog (Session W L) Failure B)
        → Marks k
        → Marks (m >> k)
    seq-Marks m k rest s r t h = elim (Outcome-cases (m s)) [
      | inl (_, u, e) ↦ ground (arith, rest u r t)
      | inr (_, u, e) ↦ ground arith
    ]

  module _ (intent : ActionIntent) where
    settle-Marks :
        (result : ExecutionResult)
        → Marks intent.idempotency_key (settle gh ops cfg now intent result)
    unfolding settle attempt fail_intent
    settle-Marks result s r t h =
        let key = intent.idempotency_key in
        elim (Outcome-cases (ops.record_transition key executed (of_result result) s.ledger)) [
          | inl (_, l, e) ↦
              elim (Outcome-cases (ops.record_transition key executed (of_result result) l)) [
                | inl (_, l', e') ↦ ground (arith, laws.marks key (of_result result) l l' e')
                | inr (_, l', e') ↦ ground arith
              ]
          | inr (_, l, e) ↦ ground arith
        ]

    execute_fresh-Marks : Marks intent.idempotency_key (execute_fresh gh ops cfg now intent)
    unfolding execute_fresh
    execute_fresh-Marks =
        let key = intent.idempotency_key in
        let mark = record_stage gh ops cfg now key preflighted (of_preflight intent.pr_number) in
        let act =
          perform gh ops cfg now intent.action intent (blank_result gh ops cfg now intent)
          >>= λ result. settle gh ops cfg now intent result in
        seq-Marks key (gate_policy gh ops cfg now intent)
          (gate_preflight gh ops cfg now intent >> (mark >> act))
          (seq-Marks key (gate_preflight gh ops cfg now intent) (mark >> act) (
            seq-Marks key mark act (
              bind-Marks key
                (perform gh ops cfg now intent.action intent (blank_result gh ops cfg now intent))
                (λ result. settle gh ops cfg now intent result) settle-Marks)))

    abbrev propose : Prog (Session W L) Failure (Unit {0})
    propose = record_stage gh ops cfg now intent.idempotency_key proposed (of_intent intent.id)

    -- With a ledger that meets IsLedger, when ExecuteIntent succeeds, on any branch, the intent's
    -- idempotency key is executed in the ledger.
    pub execute_intent-IsExecuted :
        (s t : Session W L) (r : ExecutionResult)
        → execute_intent gh ops cfg now intent s ≡ done r t
        → ops.is_executed intent.idempotency_key t.ledger ≡ true
    unfolding execute_intent
    execute_intent-IsExecuted s t r h = elim (Outcome-cases (propose s)) [
      | inl (_, u, e) ↦ ground (arith, execute_fresh-Marks u r t)
      | inr (_, u, e) ↦ ground arith
    ]

    record_stage-kept :
        (stage : Stage) (snapshot : Snapshot) (s : Session W L)
        → ops.is_executed intent.idempotency_key s.ledger ≡ true
        → (ops.is_executed intent.idempotency_key
              (final (record_stage gh ops cfg now intent.idempotency_key stage snapshot s)).ledger
            ≡ true)
          × ((final (record_stage gh ops cfg now intent.idempotency_key stage snapshot s)).world
              ≡ s.world)
    unfolding record_stage
    record_stage-kept stage snapshot s h =
        ground (
          arith,
          laws.keeps intent.idempotency_key intent.idempotency_key stage snapshot s.ledger h,
        )

    -- With a ledger that meets IsLedger, once the key is executed, ExecuteIntent changes nothing on GitHub
    -- and calls nothing that could, and the key stays executed; if it succeeds, its result says that the
    -- intent was already executed.
    execute_intent-again :
        (s : Session W L)
        → ops.is_executed intent.idempotency_key s.ledger ≡ true
        → (((final (execute_intent gh ops cfg now intent s)).writes ≡ s.writes)
            × ((final (execute_intent gh ops cfg now intent s)).world ≡ s.world))
          × ((ops.is_executed intent.idempotency_key
                  (final (execute_intent gh ops cfg now intent s)).ledger
                ≡ true)
              × ((r : ExecutionResult) (t : Session W L)
                  → execute_intent gh ops cfg now intent s ≡ done r t
                  → r ≡ already_result gh ops cfg now intent))
    unfolding execute_intent
    execute_intent-again s h =
        let kept = record_stage-kept proposed (of_intent intent.id) s h in
        let quiet =
          record_stage-writes gh ops cfg now intent.idempotency_key proposed (of_intent intent.id)
            s in
        elim (Outcome-cases (propose s)) [
          | inl (_, u, e) ↦ ground (arith, kept, quiet)
          | inr (_, u, e) ↦ ground (arith, kept, quiet)
        ]

module _ {W L : Type 0} (gh : Mutator W) (ops : Ledger L) where
  -- What other executions record in a shared ledger.
  unfoldable pub record_all : List (String × (Stage × Snapshot)) → L → L
  record_all [] l = l
  record_all ((key, (stage, snapshot)) ∷ rest) l =
      record_all rest (final (ops.record_transition key stage snapshot l))

  record_all-keeps :
      IsLedger L ops
      → (others : List (String × (Stage × Snapshot))) (k : String) (l : L)
      → ops.is_executed k l ≡ true
      → ops.is_executed k (record_all others l) ≡ true
  unfolding record_all
  record_all-keeps laws [] k l h = h
  record_all-keeps laws ((key, (stage, snapshot)) ∷ rest) k l h =
      record_all-keeps laws rest k (final (ops.record_transition key stage snapshot l))
        (laws.keeps key k stage snapshot l h)

  -- With a ledger that meets IsLedger, an intent acts at most once: after ExecuteIntent has succeeded,
  -- whatever happens on GitHub and whatever else is recorded in the ledger, no later call of it, under
  -- any configuration, makes a mutating call or changes GitHub.
  pub execute_intent-once :
      IsLedger L ops
      → (cfg cfg' : Config) (now now' : ℕ) (intent : ActionIntent) (s t : Session W L)
        (r : ExecutionResult) (w : W) (others : List (String × (Stage × Snapshot)))
      → execute_intent gh ops cfg now intent s ≡ done r t
      → ((final (
            execute_intent gh ops cfg' now' intent
              (record t { world = w; ledger = record_all others t.ledger }))).writes
          ≡ t.writes)
        × ((final (
              execute_intent gh ops cfg' now' intent
                (record t { world = w; ledger = record_all others t.ledger }))).world
            ≡ w)
  execute_intent-once laws cfg cfg' now now' intent s t r w others h =
      (execute_intent-again gh ops laws cfg' now' intent
        (record t { world = w; ledger = record_all others t.ledger })
        (record_all-keeps laws others intent.idempotency_key t.ledger
          (execute_intent-IsExecuted gh ops laws cfg now intent s t r h))).0
