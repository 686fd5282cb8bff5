-- ===== src/Executor/Mutator.antt =====
-- The interface `GitHubMutator` of internal/executor/executor.go: GitHub as a world `W` that each call may
-- change, and that may refuse. The executor is verified for every implementation of it.
use pratc.Base.{ℕ, ℤ, String, Bool, List, Prog}

pub record MergeOptions : Type 0 where
  pub commit_title : String
  pub commit_message : String
  pub merge_method : String
  pub expected_head_sha : String

pub record MergeResult : Type 0 where
  pub merged : Bool
  pub sha : String
  pub already_merged : Bool

pub record ApplyFixResult : Type 0 where
  pub applied : Bool
  pub new_branch : String
  pub test_output : String

pub record PrState : Type 0 where
  pub number : ℕ
  pub state : String
  pub head_sha : String
  pub base_branch : String
  pub mergeable : Bool
  pub ci_status : String

pub record Mutator (W : Type 0) : Type 0 where
  pub merge : String → ℕ → MergeOptions → Bool → Prog W String MergeResult
  pub close : String → ℕ → String → Bool → Prog W String (Unit {0})
  pub add_comment : String → ℕ → String → Bool → Prog W String (Unit {0})
  pub add_labels : String → ℕ → List String → Bool → Prog W String (Unit {0})
  pub apply_fix : String → ℕ → String → Bool → Prog W String ApplyFixResult
  pub get_pr_state : String → ℕ → Prog W String PrState
  pub get_head_sha : String → ℕ → Prog W String String
  pub get_base_branch : String → ℕ → Prog W String String
  pub get_ci_status : String → ℕ → Prog W String String
  pub get_mergeable : String → ℕ → Prog W String Bool
  pub get_required_reviews : String → ℕ → Prog W String Bool
  pub get_rate_limit_remaining : Prog W String ℤ
  pub get_comments : String → ℕ → Prog W String (List String)
  pub get_labels : String → ℕ → Prog W String (List String)
