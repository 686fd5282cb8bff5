-- ===== src/Executor/Writes.antt =====
-- The parts of `ExecuteIntent` of internal/executor/executor.go that make no mutating call.
use pratc.Base.{ℕ, String, ◌≡◌, arith, final}
use pratc.Model.Records.{ActionIntent}
use pratc.Executor.Ledger.{Ledger, Stage, Snapshot}
use pratc.Executor.Mutator.{Mutator}
use pratc.Executor.Session.{Config, Session}
use pratc.Executor.Perform.{record_stage}
use pratc.Executor.Execute.{gate_policy, gate_preflight}
use pratc.Executor.Quiet.{run_preflight_checks-Quiet}

module _ {W L : Type 0} (gh : Mutator W) (ops : Ledger L) (cfg : Config) (now : ℕ) where
  pub record_stage-writes :
      (key : String) (stage : Stage) (snapshot : Snapshot) (s : Session W L)
      → (final (record_stage gh ops cfg now key stage snapshot s)).writes ≡ s.writes
  unfolding record_stage
  record_stage-writes key stage snapshot s = ground arith

  pub gate_policy-writes :
      (intent : ActionIntent) (s : Session W L)
      → (final (gate_policy gh ops cfg now intent s)).writes ≡ s.writes
  unfolding gate_policy
  gate_policy-writes intent s = ground arith

  pub gate_preflight-writes :
      (intent : ActionIntent) (s : Session W L)
      → (final (gate_preflight gh ops cfg now intent s)).writes ≡ s.writes
  unfolding gate_preflight
  gate_preflight-writes intent s = ground (arith, run_preflight_checks-Quiet gh ops cfg intent s)
