-- ===== src/Base/Effect.antt =====
-- Go methods that mutate their receiver and return `(T, error)`: a state monad whose failures keep
-- the state that was reached, as an early `return ..., err` does.

use mathlib.Core.Path.{◌≡◌, refl, subst}
use mathlib.Core.Bool.{Bool, true, false}
use mathlib.Core.Logic.{◌⊎◌, inl, inr}
use mathlib.Core.List.{List, [], ◌∷◌}
use package.pratc.Base.Lists.{All}

All-units : {A : Type 0} (xs : List A) → All (λ _. Unit {0}) xs
All-units [] = tt
All-units (x ∷ xs) = (tt, All-units xs)

pub data Outcome (S E A : Type 0) : Type 0 where
  done : A → S → Outcome S E A
  fail : E → S → Outcome S E A

abbrev pub Prog : Type 0 → Type 0 → Type 0 → Type 0
Prog S E A = S → Outcome S E A

infixl 5 ◌>>=◌ ◌>>◌
abbrev pub ◌>>=◌ : {S E A B : Type 0} → Prog S E A → (A → Prog S E B) → Prog S E B
◌>>=◌ m f s = elim (m s) [ done a t ↦ f a t | fail e t ↦ fail e t ]

abbrev pub ◌>>◌ : {S E B : Type 0} → Prog S E (Unit {0}) → Prog S E B → Prog S E B
◌>>◌ m k s = elim (m s) [ done a t ↦ k t | fail e t ↦ fail e t ]

module _ {S E : Type 0} where
  abbrev pub return : {A : Type 0} → A → Prog S E A
  return a s = done a s

  abbrev pub throw : {A : Type 0} → E → Prog S E A
  throw e s = fail e s

  -- `if !ok { return err }`.
  abbrev pub ensure : Bool → E → Prog S E (Unit {0})
  ensure true e s = done tt s
  ensure false e s = fail e s

  abbrev pub when : Bool → Prog S E (Unit {0}) → Prog S E (Unit {0})
  when true m s = m s
  when false m s = done tt s

  abbrev pub modify : (S → S) → Prog S E (Unit {0})
  modify f s = done tt (f s)

  abbrev pub gets : {A : Type 0} → (S → A) → Prog S E A
  gets f s = done (f s) s

  -- `for _, a := range list { if err := body(a); err != nil { return err } }`.
  unfoldable pub for_each : {A : Type 0} → List A → (A → Prog S E (Unit {0})) → Prog S E (Unit {0})
  for_each [] body s = done tt s
  for_each (a ∷ rest) body s = elim (body a s) [
    | done _ t ↦ for_each rest body t
    | fail e t ↦ fail e t
  ]

  -- The state in which a call leaves the receiver, whether or not it fails.
  abbrev pub final : {A : Type 0} → Outcome S E A → S
  final (done a s) = s
  final (fail e s) = s

  pub Outcome-cases :
      {A : Type 0} (o : Outcome S E A)
      → ((a : A) × (s : S) × (o ≡ done a s)) ⊎ ((e : E) × (s : S) × (o ≡ fail e s))
  Outcome-cases (done a s) = inl (a, s, refl)
  Outcome-cases (fail e s) = inr (e, s, refl)

  -- A loop keeps what its body keeps at each element, on every exit.
  pub for_each_keeps_all :
      {A : Type 0} (P : S → Type 0) (Q : A → Type 0) (body : A → Prog S E (Unit {0}))
      → ((a : A) (s : S) → Q a → P s → P (final (body a s)))
      → (xs : List A) (s : S) → All Q xs
      → P s
      → P (final (for_each xs body s))
  unfolding for_each
  for_each_keeps_all P Q body keep [] s qs h = h
  for_each_keeps_all P Q body keep (x ∷ xs) s qs h = elim (Outcome-cases (body x s)) [
    | inl (_, t, e) ↦
        rw (e, for_each)
          (for_each_keeps_all P Q body keep xs t qs.1
            (subst (λ o. P (final o)) e (keep x s qs.0 h)))
    | inr (_, t, e) ↦ rw (e, for_each) (subst (λ o. P (final o)) e (keep x s qs.0 h))
  ]

  pub for_each_keeps :
      {A : Type 0} (P : S → Type 0) (body : A → Prog S E (Unit {0}))
      → ((a : A) (s : S) → P s → P (final (body a s)))
      → (xs : List A) (s : S) → P s
      → P (final (for_each xs body s))
  for_each_keeps P body keep xs s h =
      for_each_keeps_all P (λ _. Unit {0}) body (λ a t _ k. keep a t k) xs s (All-units xs) h
