-- ===== src/Executor/InFlight.antt =====
-- The counters and the slots of internal/executor/circuit_breaker.go.
use pratc.Base.{
  ℕ, ◌+◌, ◌-◌, ◌<◌, ◌≤◌, String, ◌≡◌, refl, List, [], ◌∷◌, none, some, arith, if◌then◌else◌, str_eq,
  str_eq_iff, length,
}
use pratc.Executor.Breaker.{
  Slot, in_flight, set_in_flight, delete_repo, drop_in_flight, find_slot, remove_slot,
}

-- The slots of a repository that are not released.
unfoldable pub slots_of : String → List Slot → ℕ
slots_of repo [] = 0
slots_of repo (s ∷ ss) = if str_eq s.repo repo then 1 + slots_of repo ss else slots_of repo ss

-- The slots are listed newest first, all of them numbered below `n`.
unfoldable pub Descending : ℕ → List Slot → Type 0
Descending n [] = Unit
Descending n (s ∷ ss) = (s.id < n) × Descending s.id ss

pub in_flight-set_in_flight :
    (r repo : String) (n : ℕ) (m : List (String × ℕ))
    → in_flight r (set_in_flight repo n m) ≡ (if str_eq repo r then n else in_flight r m)
unfolding in_flight set_in_flight
in_flight-set_in_flight r repo n [] = refl
in_flight-set_in_flight r repo n ((k, v) ∷ rest) = ground (
  arith,
  str_eq_iff repo r,
  str_eq_iff k r,
  str_eq_iff k repo,
  in_flight-set_in_flight r repo n rest,
)

in_flight-delete_repo :
    (r repo : String) (m : List (String × ℕ))
    → in_flight r (delete_repo repo m) ≡ (if str_eq repo r then 0 else in_flight r m)
unfolding in_flight delete_repo
in_flight-delete_repo r repo [] = ground arith
in_flight-delete_repo r repo ((k, v) ∷ rest) =
    ground (
      arith,
      str_eq_iff repo r,
      str_eq_iff k r,
      str_eq_iff k repo,
      in_flight-delete_repo r repo rest,
    )

pub in_flight-drop_in_flight :
    (r repo : String) (m : List (String × ℕ))
    → in_flight r (drop_in_flight repo m)
      ≡ (if str_eq repo r then in_flight r m - 1 else in_flight r m)
unfolding drop_in_flight
in_flight-drop_in_flight r repo m = ground (
  arith,
  str_eq_iff repo r,
  in_flight-set_in_flight r repo (in_flight repo m - 1) m,
  in_flight-delete_repo r repo m,
)

-- Removing the slot that was found takes one off each count that has it.
pub length-remove_slot :
    (id : ℕ) (ss : List Slot) (s : Slot)
    → find_slot id ss ≡ some s
    → length ss ≡ length (remove_slot id ss) + 1
unfolding find_slot remove_slot
length-remove_slot id [] s h = ground arith
length-remove_slot id (x ∷ ss) s h = ground (arith, length-remove_slot id ss s)

pub slots_of-remove_slot :
    (repo : String) (id : ℕ) (ss : List Slot) (s : Slot)
    → find_slot id ss ≡ some s
    → slots_of repo ss ≡ slots_of repo (remove_slot id ss) + (if str_eq s.repo repo then 1 else 0)
unfolding find_slot remove_slot slots_of
slots_of-remove_slot repo id [] s h = ground arith
slots_of-remove_slot repo id (x ∷ ss) s h = ground (arith, slots_of-remove_slot repo id ss s)

pub Descending-weaken : (m n : ℕ) (ss : List Slot) → m ≤ n → Descending m ss → Descending n ss
unfolding Descending
Descending-weaken m n [] h d = tt
Descending-weaken m n (s ∷ ss) h d = ground arith

pub Descending-remove_slot :
    (n id : ℕ) (ss : List Slot) → Descending n ss → Descending n (remove_slot id ss)
unfolding Descending remove_slot
Descending-remove_slot n id [] d = tt
Descending-remove_slot n id (s ∷ ss) d =
    ground (arith, Descending-weaken s.id n ss, Descending-remove_slot s.id id ss)

find_slot-old : (id n : ℕ) (ss : List Slot) → n ≤ id → Descending n ss → find_slot id ss ≡ none
unfolding find_slot Descending
find_slot-old id n [] h d = refl
find_slot-old id n (s ∷ ss) h d = ground (arith, find_slot-old id s.id ss)

pub find_slot-remove_slot :
    (id n : ℕ) (ss : List Slot) → Descending n ss → find_slot id (remove_slot id ss) ≡ none
unfolding find_slot remove_slot Descending
find_slot-remove_slot id n [] d = refl
find_slot-remove_slot id n (s ∷ ss) d =
    ground (arith, find_slot-old id s.id ss, find_slot-remove_slot id s.id ss)
