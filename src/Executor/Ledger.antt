-- ===== src/Executor/Ledger.antt =====
-- internal/executor/ledger.go: the interface `Ledger` and its implementation `MemoryLedger`. The time
-- of a record is left out, and snapshots are kept as what they render.
use pratc.Base.{
  ℕ, String, Bool, true, false, ◌||◌, ◌&&◌, ◌≡◌, refl, List, [], ◌∷◌, arith, if◌then◌else◌, str_eq,
  str_eq_iff, str_eq_refl, done, Prog, final,
}
use pratc.Model.Records.{ExecutionResult}

-- The names of transitions that the executor writes.
pub data Stage : Type 0 where
  proposed preflighted executed failed circuit_denied : Stage

abbrev pub is_executed_stage : Stage → Bool
is_executed_stage executed = true
is_executed_stage _ = false

abbrev pub stage_eq : Stage → Stage → Bool
stage_eq proposed proposed = true
stage_eq preflighted preflighted = true
stage_eq executed executed = true
stage_eq failed failed = true
stage_eq circuit_denied circuit_denied = true
stage_eq _ _ = false

-- What a snapshot shows.
pub data Snapshot : Type 0 where
  of_intent : String → Snapshot
  of_preflight : ℕ → Snapshot
  of_error : String → Snapshot
  of_result : ExecutionResult → Snapshot

-- The part of the interface `Ledger` that the executor calls.
pub record Ledger (L : Type 0) : Type 0 where
  pub record_transition : String → Stage → Snapshot → Prog L String (Unit {0})
  pub is_executed : String → L → Bool

-- What the executor relies on: a key that is executed stays so, recording `executed` makes it so, and
-- no other record does.
pub record IsLedger (L : Type 0) (ops : Ledger L) : Type 0 where
  pub keeps :
      (j k : String) (t : Stage) (s : Snapshot) (l : L)
      → ops.is_executed k l ≡ true
      → ops.is_executed k (final (ops.record_transition j t s l)) ≡ true
  pub marks :
      (k : String) (s : Snapshot) (l l' : L)
      → ops.record_transition k executed s l ≡ done tt l'
      → ops.is_executed k l' ≡ true
  pub only :
      (j k : String) (t : Stage) (s : Snapshot) (l : L)
      → is_executed_stage t ≡ false
      → ops.is_executed k (final (ops.record_transition j t s l)) ≡ ops.is_executed k l

-- `types.TransitionRecord`.
pub record TransitionRecord : Type 0 where
  pub intent_id : String
  pub transition : Stage
  pub snapshot : Snapshot

-- `map[string][]types.TransitionRecord`.
abbrev pub MemoryLedger : Type 0
MemoryLedger = List (String × List TransitionRecord)

unfoldable pub history : String → MemoryLedger → List TransitionRecord
history k [] = []
history k ((j, h) ∷ rest) = if str_eq j k then h else history k rest

unfoldable pub set_history : String → List TransitionRecord → MemoryLedger → MemoryLedger
set_history k h [] = (k, h) ∷ []
set_history k h ((j, g) ∷ rest) =
    if str_eq j k then (j, h) ∷ rest else (j, g) ∷ set_history k h rest

-- The loop of RecordTransition: a record of the same transition is replaced, another one is appended.
unfoldable pub put_record : TransitionRecord → List TransitionRecord → List TransitionRecord
put_record r [] = r ∷ []
put_record r (x ∷ xs) = if stage_eq x.transition r.transition then r ∷ xs else x ∷ put_record r xs

-- `RecordTransition`.
unfoldable pub memory_record : String → Stage → Snapshot → Prog MemoryLedger String (Unit {0})
memory_record k t s l = done tt (
    set_history k
      (put_record (record { intent_id = k; transition = t; snapshot = s }) (history k l)) l)

unfoldable pub has_executed : List TransitionRecord → Bool
has_executed [] = false
has_executed (r ∷ rs) = is_executed_stage r.transition || has_executed rs

-- `IsExecuted`.
unfoldable pub memory_is_executed : String → MemoryLedger → Bool
memory_is_executed k l = has_executed (history k l)

abbrev pub memory_ledger : Ledger MemoryLedger
memory_ledger = record { record_transition = memory_record; is_executed = memory_is_executed }

history-set_history :
    (j k : String) (h : List TransitionRecord) (l : MemoryLedger)
    → history j (set_history k h l) ≡ (if str_eq k j then h else history j l)
unfolding history set_history
history-set_history j k h [] = refl
history-set_history j k h ((i, g) ∷ rest) =
    ground (arith, str_eq_iff i j, str_eq_iff i k, str_eq_iff k j, history-set_history j k h rest)

has_executed-put_record :
    (r : TransitionRecord) (xs : List TransitionRecord)
    → has_executed (put_record r xs) ≡ (is_executed_stage r.transition || has_executed xs)
unfolding has_executed put_record
has_executed-put_record r [] = refl
has_executed-put_record r (x ∷ xs) = ground (arith, has_executed-put_record r xs)

-- One equation says what a record changes: the key that it names, and only by `executed`.
pub memory_is_executed-record :
    (j k : String) (t : Stage) (s : Snapshot) (l : MemoryLedger)
    → memory_is_executed k (final (memory_record j t s l))
      ≡ ((str_eq j k && is_executed_stage t) || memory_is_executed k l)
unfolding memory_is_executed memory_record
memory_is_executed-record j k t s l = ground (
  arith,
  str_eq_iff j k,
  history-set_history k j
      (put_record (record { intent_id = j; transition = t; snapshot = s }) (history j l)) l,
  has_executed-put_record (record { intent_id = j; transition = t; snapshot = s }) (history j l),
)

memory_marks :
    (k : String) (s : Snapshot) (l l' : MemoryLedger)
    → memory_record k executed s l ≡ done tt l'
    → memory_is_executed k l' ≡ true
unfolding memory_record
memory_marks k s l l' h = ground (arith, memory_is_executed-record k k executed s l, str_eq_refl k)

-- The in-memory ledger is a ledger: an executed key stays executed, recording `executed` makes its key
-- executed, and no other record makes or unmakes an executed key.
pub memory_ledger-IsLedger : IsLedger MemoryLedger memory_ledger
memory_ledger-IsLedger = record {
  keeps = λ j k t s l h. ground (arith, memory_is_executed-record j k t s l);
  marks = memory_marks;
  only = λ j k t s l h. ground (arith, memory_is_executed-record j k t s l);
}
