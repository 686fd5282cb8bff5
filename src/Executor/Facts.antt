-- ===== src/Executor/Facts.antt =====
-- Facts about GitHub that calls of the interface GitHubMutator of internal/executor/executor.go keep.
use pratc.Base.{ℕ, String, Bool, List, final}
use pratc.Model.Kinds.{ActionKind, merge, close, comment, label, apply_fix}
use pratc.Executor.Mutator.{Mutator, MergeOptions}

-- Which mutating calls are meant: their kind, repository, pull request and `dryRun`.
abbrev pub Calls : Type 1
Calls = ActionKind → String → ℕ → Bool → Type 0

-- A fact about GitHub that the calls that only read keep, and the mutating calls that are meant, whether they
-- succeed or fail.
pub record IsKept {W : Type 0} (gh : Mutator W) (may : Calls) (P : W → Type 0) : Type 0 where
  pub merges :
      (repo : String) (pr : ℕ) (o : MergeOptions) (dry : Bool) (w : W)
      → may merge repo pr dry
      → P w
      → P (final (gh.merge repo pr o dry w))
  pub closes :
      (repo : String) (pr : ℕ) (text : String) (dry : Bool) (w : W)
      → may close repo pr dry
      → P w
      → P (final (gh.close repo pr text dry w))
  pub comments :
      (repo : String) (pr : ℕ) (text : String) (dry : Bool) (w : W)
      → may comment repo pr dry
      → P w
      → P (final (gh.add_comment repo pr text dry w))
  pub labels :
      (repo : String) (pr : ℕ) (names : List String) (dry : Bool) (w : W)
      → may label repo pr dry
      → P w
      → P (final (gh.add_labels repo pr names dry w))
  pub fixes :
      (repo : String) (pr : ℕ) (text : String) (dry : Bool) (w : W)
      → may apply_fix repo pr dry
      → P w
      → P (final (gh.apply_fix repo pr text dry w))
  pub state : (repo : String) (pr : ℕ) (w : W) → P w → P (final (gh.get_pr_state repo pr w))
  pub head : (repo : String) (pr : ℕ) (w : W) → P w → P (final (gh.get_head_sha repo pr w))
  pub base : (repo : String) (pr : ℕ) (w : W) → P w → P (final (gh.get_base_branch repo pr w))
  pub ci : (repo : String) (pr : ℕ) (w : W) → P w → P (final (gh.get_ci_status repo pr w))
  pub mergeable : (repo : String) (pr : ℕ) (w : W) → P w → P (final (gh.get_mergeable repo pr w))
  pub reviews :
      (repo : String) (pr : ℕ) (w : W) → P w → P (final (gh.get_required_reviews repo pr w))
  pub rate : (w : W) → P w → P (final (gh.get_rate_limit_remaining w))
  pub said : (repo : String) (pr : ℕ) (w : W) → P w → P (final (gh.get_comments repo pr w))
  pub labeled : (repo : String) (pr : ℕ) (w : W) → P w → P (final (gh.get_labels repo pr w))

-- What all calls of one kind keep, those of another one do that are among them.
pub IsKept-weaken :
    {W : Type 0} (gh : Mutator W) (may few : Calls) (P : W → Type 0)
    → ((kind : ActionKind) (repo : String) (pr : ℕ) (dry : Bool)
        → few kind repo pr dry
        → may kind repo pr dry)
    → IsKept gh may P
    → IsKept gh few P
IsKept-weaken gh may few P sub k = record {
  merges = λ repo pr o dry w m. k.merges repo pr o dry w (sub merge repo pr dry m);
  closes = λ repo pr text dry w m. k.closes repo pr text dry w (sub close repo pr dry m);
  comments = λ repo pr text dry w m. k.comments repo pr text dry w (sub comment repo pr dry m);
  labels = λ repo pr names dry w m. k.labels repo pr names dry w (sub label repo pr dry m);
  fixes = λ repo pr text dry w m. k.fixes repo pr text dry w (sub apply_fix repo pr dry m);
  state = k.state;
  head = k.head;
  base = k.base;
  ci = k.ci;
  mergeable = k.mergeable;
  reviews = k.reviews;
  rate = k.rate;
  said = k.said;
  labeled = k.labeled;
}
