-- ===== src/Worker/Steady.antt =====
-- The queue's calls that ProcessOnce of internal/executor/worker.go makes before its last transition.
use pratc.Base.{
  ℕ, suc, String, ◌≡◌, refl, List, [], ◌∷◌, final, Outcome-cases, inl, inr, arith, ℤ,
  for_each_keeps,
}
use pratc.Model.Kinds.{ActionLane, ActionWorkItemState, verified, failed}
use pratc.Model.Records.{ActionWorkItem}
use pratc.Queue.Store.{TransitionRow, Queue, Op, get_unlocked, save_unlocked, append_transition}
use pratc.Queue.Leasing.{
  claim, transition, expire_leases, expire_item, get_claimable, expired_items,
}
use pratc.Queue.Intake.{get_intents}

-- The rows of the log that move an item to `verified`.
unfoldable pub verified_rows : List TransitionRow → ℕ
verified_rows [] = 0
verified_rows (r ∷ rs) =
    let rest = verified_rows rs in elim r.to_state [ verified ↦ suc rest | _ ↦ rest ]

-- A call that marks nothing as verified and stores no intent.
abbrev pub SameQueue : Queue → Queue → Type 0
SameQueue q q' =
    (verified_rows q'.transitions ≡ verified_rows q.transitions) × (q'.intents ≡ q.intents)

abbrev pub Steady : {A : Type 0} → Op A → Type 0
Steady m = (q : Queue) → SameQueue q (final (m q))

pub claim-Steady : (id worker : String) (ttl : ℤ) → Steady (claim id worker ttl)
unfolding claim get_unlocked save_unlocked append_transition verified_rows
claim-Steady id worker ttl q = ground arith

pub transition-Steady :
    (id actor : String) (from : ActionWorkItemState) (reason : String)
    → Steady (transition id actor from failed reason)
unfolding transition get_unlocked save_unlocked append_transition verified_rows
transition-Steady id actor from reason q = ground arith

pub get_intents-Steady : (repo id : String) → Steady (get_intents repo id)
unfolding get_intents
get_intents-Steady repo id q = ground arith

expire_item-Steady : (item : ActionWorkItem) → Steady (expire_item item)
unfolding expire_item save_unlocked append_transition verified_rows
expire_item-Steady item q = ground arith

expire_leases-Steady : Steady expire_leases
unfolding expire_leases
expire_leases-Steady q =
    let q' = record q { ticks = suc q.ticks } in
    let expired = expired_items q.now q.items in
    let kept =
      for_each_keeps (SameQueue q) expire_item
        (λ item t h. ground (arith, expire_item-Steady item t)) expired q' (refl, refl) in
    ground (arith, kept)

pub get_claimable-Steady :
    (repo : String) (lane : ActionLane) (limit : ℤ) → Steady (get_claimable repo lane limit)
unfolding get_claimable
get_claimable-Steady repo lane limit q = elim (Outcome-cases (expire_leases q)) [
  | inl (_, t, e) ↦ ground (arith, expire_leases-Steady q)
  | inr (_, t, e) ↦ ground (arith, expire_leases-Steady q)
]
