-- ===== src/Model/Kinds.antt =====
-- The string enumerations of internal/types/models.go. `unset` is the empty string, Go's zero value,
-- and `other` any further string.
use pratc.Base.{
  ℕ, String, Bool, true, false, ◌≡◌, refl, sym, ap, ◌∙◌, ◌↔◌, List, [], ◌∷◌, ◌==◌, ==_iff, arith,
}

pub data ActionLane : Type 0 where
  unset fast_merge fix_and_merge duplicate_close reject_or_close focused_review future_or_reengage
        human_escalate :
      ActionLane

pub data PolicyProfile : Type 0 where
  unset advisory guarded autonomous : PolicyProfile
  other : String → PolicyProfile

pub data ActionKind : Type 0 where
  unset merge close comment label request_changes apply_fix : ActionKind
  other : String → ActionKind

pub data ActionWorkItemState : Type 0 where
  unset proposed claimable claimed preflighted patched tested approved_for_execution executed
        verified failed escalated canceled :
      ActionWorkItemState

unfoldable pub state_code : ActionWorkItemState → ℕ
state_code unset = 0
state_code proposed = 1
state_code claimable = 2
state_code claimed = 3
state_code preflighted = 4
state_code patched = 5
state_code tested = 6
state_code approved_for_execution = 7
state_code executed = 8
state_code verified = 9
state_code failed = 10
state_code escalated = 11
state_code canceled = 12

-- `a == b` on states.
unfoldable pub state_eq : ActionWorkItemState → ActionWorkItemState → Bool
unfolding state_code
state_eq a b = state_code a == state_code b

nth_state : ℕ → List ActionWorkItemState → ActionWorkItemState
nth_state n [] = unset
nth_state ℕ.zero (s ∷ ss) = s
nth_state (ℕ.suc n) (s ∷ ss) = nth_state n ss

abbrev states : List ActionWorkItemState
states =
    unset ∷ proposed ∷ claimable ∷ claimed ∷ preflighted ∷ patched ∷ tested ∷ approved_for_execution
    ∷ executed ∷ verified ∷ failed ∷ escalated ∷ canceled ∷ []

nth_state-state_code : (s : ActionWorkItemState) → nth_state (state_code s) states ≡ s
unfolding nth_state state_code
nth_state-state_code unset = refl
nth_state-state_code _ = refl

pub state_eq_iff : (a b : ActionWorkItemState) → (state_eq a b ≡ true) ↔ (a ≡ b)
unfolding state_eq
state_eq_iff a b = (
  λ h.
      sym (nth_state-state_code a)
      ∙ ap (λ n. nth_state n states) ((==_iff (state_code a) (state_code b)).0 h)
      ∙ nth_state-state_code b,
  λ h. (==_iff (state_code a) (state_code b)).1 (ap state_code h),
)

-- `item.State == types.ActionWorkItemStateClaimed`, and so for claimable.
abbrev pub is_claimed : ActionWorkItemState → Bool
is_claimed claimed = true
is_claimed _ = false

abbrev pub is_claimable : ActionWorkItemState → Bool
is_claimable claimable = true
is_claimable _ = false

unfoldable pub lane_code : ActionLane → ℕ
lane_code unset = 0
lane_code fast_merge = 1
lane_code fix_and_merge = 2
lane_code duplicate_close = 3
lane_code reject_or_close = 4
lane_code focused_review = 5
lane_code future_or_reengage = 6
lane_code human_escalate = 7

-- `a == b` on lanes.
unfoldable pub lane_eq : ActionLane → ActionLane → Bool
unfolding lane_code
lane_eq a b = lane_code a == lane_code b

pub lane_eq_sound : (a b : ActionLane) → lane_eq a b ≡ true → a ≡ b
unfolding lane_eq
lane_eq_sound a b h = ground arith
