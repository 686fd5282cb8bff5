-- ===== src/Executor/Session.antt =====
-- The state of one `ExecuteIntent` of internal/executor/executor.go: the world behind the mutator and the
-- ledger. `writes` remembers the mutating calls that were made, newest first; the source has no such
-- field, and nothing reads it.
use pratc.Base.{ℕ, String, Bool, List, ◌∷◌, Prog, done, fail}
use pratc.Model.Kinds.{ActionKind, PolicyProfile}

pub record Config : Type 0 where
  pub repo : String
  pub dry_run : Bool
  pub policy_profile : PolicyProfile

-- A mutating call: its kind, its pull request, and the `dryRun` that it was given.
pub record Write : Type 0 where
  pub kind : ActionKind
  pub pr_number : ℕ
  pub dry_run : Bool

pub record Session (W L : Type 0) : Type 0 where
  pub world : W
  pub ledger : L
  pub writes : List Write

module _ {W L : Type 0} where
  -- A call of the mutator that only reads.
  abbrev pub query : {A : Type 0} → Prog W String A → Prog (Session W L) String A
  query m s = elim (m s.world) [
    | done a w ↦ done a (record s { world = w })
    | fail e w ↦ fail e (record s { world = w })
  ]

  -- A call of the mutator that writes, unless it is a dry run: the number and the `dryRun` that the call is
  -- given are those that are remembered.
  abbrev pub write :
      {A : Type 0}
      → ActionKind
      → ℕ
      → Bool
      → (ℕ → Bool → Prog W String A)
      → Prog (Session W L) String A
  write kind pr dry call s =
      query (call pr dry)
        (record s { writes = record { kind = kind; pr_number = pr; dry_run = dry } ∷ s.writes })

  -- A call of the ledger.
  abbrev pub on_ledger : {A : Type 0} → Prog L String A → Prog (Session W L) String A
  on_ledger m s = elim (m s.ledger) [
    | done a l ↦ done a (record s { ledger = l })
    | fail e l ↦ fail e (record s { ledger = l })
  ]
