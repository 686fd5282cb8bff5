-- ===== src/Actions/Gate.antt =====
-- What the policy gate of internal/actions/policy.go lets through, and what it denies.
use pratc.Base.{
  Bool-cases, Option-cases, inl, inr, ◌⊎◌, Bool, true, false, not, ◌||◌, ◌&&◌, ◌≡◌, refl, sym, ap,
  subst, ◌∙◌, List, [], ◌∷◌, ◌++◌, map, arith, Option, none, some, select, if◌then◌else◌, str_eq,
}
use mathlib.Core.List.{append_assoc, append-nil, map-append}
use pratc.Model.Kinds.{
  PolicyProfile, unset, other, advisory, guarded, autonomous, human_escalate, lane_eq, ActionKind,
  ActionLane, merge, close, comment, label,
}
use pratc.Model.Records.{ActionPreflight}
use pratc.Actions.Classifier.{LaneDecision}
use pratc.Actions.Policy.{
  DenialReason, PolicyGateResult, normalize_policy_profile, is_talk_action, requires_live_preflight,
  gate_of, executing, denying, deny_all, gate_guarded, denial_scan, preflight_denial_reason,
  guarded_non_destructive_only, human_escalate_non_executable, advisory_zero_write, gate_live,
  gate_autonomous, apply_profile, apply_policy,
}

-- Every required check passed, and there is one.
abbrev any_required : List ActionPreflight → Bool
any_required [] = false
any_required (c ∷ cs) = c.required || any_required cs

abbrev required_pass : List ActionPreflight → Bool
required_pass [] = true
required_pass (c ∷ cs) = (not c.required || str_eq c.status "passed") && required_pass cs

abbrev pub cleared : List ActionPreflight → Bool
cleared checks = any_required checks && required_pass checks

-- An action that only says something, and one that ends a pull request.
abbrev speaks : ActionKind → Bool
speaks comment = true
speaks label = true
speaks _ = false

abbrev pub ends : ActionKind → Bool
ends merge = true
ends close = true
ends _ = false

-- A merge or a close needs the checks.
abbrev live : LaneDecision → ActionKind → Bool
live d a = not (ends a) || cleared d.required_preflight_checks

abbrev pub escalates : ActionLane → Bool
escalates human_escalate = true
escalates _ = false

-- What a profile permits for a decision, which may be one to escalate: guarded comments and labels; autonomous
-- also the rest, but merges and closes only with the checks passed; any other profile nothing.
abbrev pub passes : Bool → PolicyProfile → LaneDecision → ActionKind → Bool
passes true profile d a = false
passes false guarded d a = speaks a
passes false autonomous d a = live d a
passes false profile d a = false

abbrev pub permitted : PolicyProfile → LaneDecision → ActionKind → Bool
permitted profile d a = passes (escalates d.lane) profile d a

is_talk_action-speaks : (a : ActionKind) → is_talk_action a ≡ speaks a
is_talk_action-speaks a = ground arith

requires_live_preflight-ends : (a : ActionKind) → requires_live_preflight a ≡ ends a
unfolding requires_live_preflight
requires_live_preflight-ends a = ground arith

lane_eq-escalates : (l : ActionLane) → lane_eq l human_escalate ≡ escalates l
unfolding lane_eq
lane_eq-escalates l = ground arith

-- The gate `g` after it has gone through the actions `as'`, of which `p` lets some through.
abbrev Sorted : (ActionKind → Bool) → List ActionKind → PolicyGateResult → PolicyGateResult → Type 0
Sorted p as' g h =
    (h.executable_actions ≡ g.executable_actions ++ select p as')
    × (map (λ d. d.action) h.denied_actions
        ≡ map (λ d. d.action) g.denied_actions ++ select (λ a. not (p a)) as')

module _ {A : Type 0} where
  append-select :
      (p : A → Bool) (xs : List A) (a : A) (as' : List A)
      → p a ≡ true
      → (xs ++ (a ∷ [])) ++ select p as' ≡ xs ++ select p (a ∷ as')
  unfolding select
  append-select p xs a as' h = rw (h, select) (append_assoc xs (a ∷ []) (select p as'))

  append-select_skip :
      (p : A → Bool) (xs : List A) (a : A) (as' : List A)
      → p a ≡ false
      → xs ++ select p as' ≡ xs ++ select p (a ∷ as')
  unfolding select
  append-select_skip p xs a as' h = rw (h, select) refl

-- One round that lets `a` through exactly if `p` does, and then the rest.
Sorted-executing :
    (p : ActionKind → Bool) (a : ActionKind) (as' : List ActionKind) (g h : PolicyGateResult)
    → p a ≡ true
    → Sorted p as' (executing a g) h
    → Sorted p (a ∷ as') g h
Sorted-executing p a as' g h e s = (
  s.0 ∙ append-select p g.executable_actions a as' e,
  s.1 ∙ append-select_skip (λ b. not (p b)) (map (λ d. d.action) g.denied_actions) a as' (ap not e),
)

Sorted-denying :
    (p : ActionKind → Bool) (a : ActionKind) (reason : DenialReason) (as' : List ActionKind)
    (g h : PolicyGateResult)
    → p a ≡ false
    → Sorted p as' (denying a reason g) h
    → Sorted p (a ∷ as') g h
Sorted-denying p a reason as' g h e s = (
  s.0 ∙ append-select_skip p g.executable_actions a as' e,
  s.1
      ∙ ap (λ l. l ++ select (λ b. not (p b)) as')
          (map-append (λ d. d.action) g.denied_actions
            (record { action = a; reason = reason } ∷ []))
      ∙ append-select (λ b. not (p b)) (map (λ d. d.action) g.denied_actions) a as' (ap not e),
)

Sorted-done : (p : ActionKind → Bool) (g : PolicyGateResult) → Sorted p [] g g
unfolding select
Sorted-done p g =
    (sym (append-nil g.executable_actions), sym (append-nil (map (λ d. d.action) g.denied_actions)))

deny_all-Sorted :
    (p : ActionKind → Bool)
    → ((a : ActionKind) → p a ≡ false)
    → (as' : List ActionKind) (reason : DenialReason) (g : PolicyGateResult)
    → Sorted p as' g (deny_all as' reason g)
unfolding deny_all
deny_all-Sorted p none_pass [] reason g = Sorted-done p g
deny_all-Sorted p none_pass (a ∷ as') reason g =
    Sorted-denying p a reason as' g (deny_all as' reason (denying a reason g)) (none_pass a)
      (deny_all-Sorted p none_pass as' reason (denying a reason g))

gate_guarded-Sorted :
    (as' : List ActionKind) (g : PolicyGateResult) → Sorted speaks as' g (gate_guarded as' g)
unfolding gate_guarded
gate_guarded-Sorted [] g = Sorted-done speaks g
gate_guarded-Sorted (a ∷ as') g =
    let same = is_talk_action-speaks a in
    elim (Bool-cases (is_talk_action a)) [
      | inl e ↦
          rw (e, gate_guarded)
            (Sorted-executing speaks a as' g (gate_guarded as' (executing a g)) (sym same ∙ e)
              (gate_guarded-Sorted as' (executing a g)))
      | inr e ↦
          rw (e, gate_guarded)
            (Sorted-denying speaks a guarded_non_destructive_only as' g
              (gate_guarded as' (denying a guarded_non_destructive_only g)) (sym same ∙ e)
              (gate_guarded-Sorted as' (denying a guarded_non_destructive_only g)))
    ]

abbrev is_none : Option DenialReason → Bool
is_none none = true
is_none (some _) = false

denial_scan-is_none :
    (checks : List ActionPreflight) (seen : Bool)
    → is_none (denial_scan checks seen) ≡ ((seen || any_required checks) && required_pass checks)
unfolding denial_scan
denial_scan-is_none [] seen = ground arith
denial_scan-is_none (c ∷ cs) seen =
    ground (arith, denial_scan-is_none cs true, denial_scan-is_none cs seen)

gate_live_cases :
    (d : LaneDecision) (a : ActionKind) (g : PolicyGateResult)
    → ((live d a ≡ true) × (gate_live d a g ≡ executing a g))
      ⊎ ((live d a ≡ false) × ((reason : DenialReason) × (gate_live d a g ≡ denying a reason g)))
unfolding gate_live preflight_denial_reason
gate_live_cases d a g =
    let scan = denial_scan-is_none d.required_preflight_checks false in
    let same = requires_live_preflight-ends a in
    elim (Option-cases (denial_scan d.required_preflight_checks false)) [
      | inl n ↦ inl (ground (arith, scan, n, same), ground (arith, n))
      | inr (reason, e) ↦ elim (Bool-cases (requires_live_preflight a)) [
        | inl needs ↦ inr (ground (arith, scan, e, needs, same), (reason, ground (arith, e, needs)))
        | inr free ↦ inl (ground (arith, free, same), ground (arith, free))
      ]
    ]

gate_autonomous-Sorted :
    (d : LaneDecision) (as' : List ActionKind) (g : PolicyGateResult)
    → Sorted (live d) as' g (gate_autonomous d as' g)
unfolding gate_autonomous
gate_autonomous-Sorted d [] g = Sorted-done (live d) g
gate_autonomous-Sorted d (a ∷ as') g = elim (gate_live_cases d a g) [
  | inl (e, same) ↦
      rw (same, gate_autonomous)
        (Sorted-executing (live d) a as' g (gate_autonomous d as' (executing a g)) e
          (gate_autonomous-Sorted d as' (executing a g)))
  | inr (e, (reason, same)) ↦
      rw (same, gate_autonomous)
        (Sorted-denying (live d) a reason as' g (gate_autonomous d as' (denying a reason g)) e
          (gate_autonomous-Sorted d as' (denying a reason g)))
]

abbrev gate : Bool → LaneDecision → PolicyProfile → PolicyGateResult → PolicyGateResult
gate escalated d profile g =
    if escalated
    then deny_all d.allowed_actions human_escalate_non_executable g
    else apply_profile d (normalize_policy_profile profile) g

gate-Sorted :
    (escalated : Bool) (d : LaneDecision) (profile : PolicyProfile) (g : PolicyGateResult)
    → Sorted (passes escalated profile d) d.allowed_actions g (gate escalated d profile g)
unfolding apply_profile normalize_policy_profile
gate-Sorted true d profile g =
    deny_all-Sorted (passes true profile d) (λ a. refl) d.allowed_actions
      human_escalate_non_executable g
gate-Sorted false d guarded g = gate_guarded-Sorted d.allowed_actions g
gate-Sorted false d autonomous g = gate_autonomous-Sorted d d.allowed_actions g
gate-Sorted false d advisory g =
    deny_all-Sorted (passes false advisory d) (λ a. refl) d.allowed_actions advisory_zero_write g
gate-Sorted false d unset g =
    deny_all-Sorted (passes false unset d) (λ a. refl) d.allowed_actions advisory_zero_write g
gate-Sorted false d (other name) g =
    deny_all-Sorted (passes false (other name) d) (λ a. refl) d.allowed_actions advisory_zero_write
      g

-- ApplyPolicy carries out exactly the proposed actions that the profile permits, and denies exactly the
-- others, each list in the order of the proposal. Nothing is permitted in the lane human_escalate;
-- guarded permits comments and labels; autonomous permits all, but merges and closes only where there
-- are required checks and all of them have passed; every other profile permits nothing.
pub apply_policy-permitted :
    (d : LaneDecision) (profile : PolicyProfile)
    → ((apply_policy d profile).executable_actions ≡ select (permitted profile d) d.allowed_actions)
      × (map (λ x. x.action) (apply_policy d profile).denied_actions
          ≡ select (λ a. not (permitted profile d a)) d.allowed_actions)
unfolding apply_policy
apply_policy-permitted d profile =
    let escalated = lane_eq d.lane human_escalate in
    let start = gate_of d (normalize_policy_profile profile) in
    subst
      (λ b. Sorted (passes b profile d) d.allowed_actions start (gate escalated d profile start))
      (lane_eq-escalates d.lane) (gate-Sorted escalated d profile start)
