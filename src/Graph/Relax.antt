-- ===== src/Graph/Relax.antt =====
-- The loop over the children of a pull request in `TopologicalOrder` of internal/graph/graph.go.
use pratc.Base.{
  ℕ, zero, suc, ◌+◌, ◌≤◌, true, false, ◌&&◌, ◌||◌, ◌≡◌, refl, List, [], ◌∷◌, ==_iff, ◌==◌, arith,
  inl, inr, ◌⊎◌,
}
use pratc.Base.Numbers.{elem, insert_id, Distinct, elem-insert_id, insert_id-Distinct}
use package.pratc.Graph.Order.{Degrees, set_degree, relax}
use package.pratc.Graph.Degrees.{count, elem-count, count-elem}

abbrev Counted : List ℕ → Degrees → Type 0
Counted children degrees = (k : ℕ) → count k children ≤ degrees k

abbrev ReadyZero : Degrees → List ℕ → Type 0
ReadyZero degrees ready = (k : ℕ) → elem k ready ≡ true → degrees k ≡ 0

-- What the loop does, where each degree counts the children at least, and what is ready has degree 0.
pub record Relaxed (children : List ℕ) (degrees : Degrees) (ready : List ℕ) : Type 0 where
  pub lowered : (k : ℕ) → (relax children degrees ready).0 k + count k children ≡ degrees k
  pub pushed :
      (k : ℕ)
      → elem k (relax children degrees ready).1
        ≡ (elem k ready || (elem k children && ((relax children degrees ready).0 k == 0)))
  pub distinct : Distinct (relax children degrees ready).1

abbrev pushed_ready : ℕ → ℕ → List ℕ → List ℕ
pushed_ready next n ready = elim n [ zero ↦ insert_id next ready | suc _ ↦ ready ]

relax-step :
    (next n : ℕ) (rest : List ℕ) (degrees : Degrees) (ready : List ℕ)
    → degrees next ≡ suc n
    → relax (next ∷ rest) degrees ready
      ≡ relax rest (set_degree next n degrees) (pushed_ready next n ready)
unfolding relax
relax-step next n rest degrees ready e = rw (e, relax)

pushed_ready-elem :
    (k next n : ℕ) (ready : List ℕ)
    → elem k (pushed_ready next n ready) ≡ (elem k ready || ((next == k) && (n == 0)))
unfolding elem
pushed_ready-elem k next zero ready = ground (arith, elem-insert_id k next ready)
pushed_ready-elem k next (suc n) ready = ground arith

pushed_ready-Distinct :
    (next n : ℕ) (ready : List ℕ)
    → elem next ready ≡ false
    → Distinct ready
    → Distinct (pushed_ready next n ready)
pushed_ready-Distinct next zero ready e h = insert_id-Distinct next ready e h
pushed_ready-Distinct next (suc n) ready e h = h

zero_or_suc : (n : ℕ) → (n ≡ 0) ⊎ ((m : ℕ) × (n ≡ suc m))
zero_or_suc zero = inl refl
zero_or_suc (suc n) = inr (n, refl)

relax_done : (degrees : Degrees) (ready : List ℕ) → Distinct ready → Relaxed [] degrees ready
unfolding relax count elem
relax_done degrees ready h = record {
  lowered = λ k. ground arith;
  pushed = λ k. ground arith;
  distinct = h;
}

Relaxed-step :
    (next n : ℕ) (rest : List ℕ) (degrees : Degrees) (ready : List ℕ)
    → degrees next ≡ suc n
    → Counted (next ∷ rest) degrees
    → Relaxed rest (set_degree next n degrees) (pushed_ready next n ready)
    → Relaxed (next ∷ rest) degrees ready
unfolding count elem
Relaxed-step next n rest degrees ready e c h =
    let step = relax-step next n rest degrees ready e in
    record {
      lowered = λ k. ground (arith, step, e, h.lowered k, c k, ==_iff next k);
      pushed = λ k. ground (
        arith,
        step,
        e,
        h.lowered k,
        h.pushed k,
        pushed_ready-elem k next n ready,
        elem-count k rest,
        count-elem k rest,
        c k,
      );
      distinct = rw step h.distinct;
    }

pub relax-Relaxed :
    (children : List ℕ) (degrees : Degrees) (ready : List ℕ)
    → Counted children degrees
    → ReadyZero degrees ready
    → Distinct ready
    → Relaxed children degrees ready
unfolding count elem
relax-Relaxed [] degrees ready c z h = relax_done degrees ready h
relax-Relaxed (next ∷ rest) degrees ready c z h = elim (zero_or_suc (degrees next)) [
  | inl e ↦ absurd (ground (arith, c next))
  | inr (n, e) ↦ Relaxed-step next n rest degrees ready e c (
      relax-Relaxed rest (set_degree next n degrees) (pushed_ready next n ready)
        (λ k. ground (arith, c k, ==_iff next k))
        (λ k m. ground (arith, z k, pushed_ready-elem k next n ready, ==_iff next k))
        (pushed_ready-Distinct next n ready (ground (arith, z next)) h))
]
