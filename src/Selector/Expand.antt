-- ===== src/Selector/Expand.antt =====
-- What a selector selects: `Expand` and `AllIDs` of internal/planning/selector_types.go, and an independent
-- description of it.
use pratc.Base.{
  ℕ, zero, suc, ◌+◌, ◌-◌, Bool, true, false, ◌&&◌, ◌||◌, ◌≡◌, refl, List, [], ◌∷◌, leb, arith,
  ==_iff, ltb, ◌==◌, ◌<◌, Option, some, none, ap, Bool-cases, inl, inr,
}
use package.pratc.Selector.Syntax.{
  SelectNode, select_or, select_and, select_id_set, select_range, Nodes, nil, cons,
}
use pratc.Base.Numbers.{
  elem, add_all, keep_common, elem-add_all, elem-select, Distinct, add_all-Distinct,
}

-- The largest int.
unfoldable pub max_int : ℕ
max_int = 9223372036854775807

-- `for id := n.Start; id <= n.End; id++`: the IDs that the loop visits, from `id` on, or `none` where it does not come
-- to an end: at the largest int the counter wraps around to the least one, which is below every end.
unfoldable pub range_loop : ℕ → ℕ → ℕ → Option (List ℕ)
unfolding max_int
range_loop zero id end = none
range_loop (suc fuel) id end = elim (ltb end id) [
  | true ↦ some []
  | false ↦ elim (id == max_int) [
    | true ↦ none
    | false ↦ elim (range_loop fuel (suc id) end) [ none ↦ none | some ids ↦ some (id ∷ ids) ]
  ]
]

-- The IDs of a range, with one round of fuel more than it has IDs. A loop without an end has no list; it is empty here,
-- and the theorems leave it out.
unfoldable pub range_ids : ℕ → ℕ → List ℕ
unfolding range_loop
range_ids start end = elim (range_loop (suc (suc end - start)) start end) [
  | some ids ↦ ids
  | none ↦ []
]

-- `expandInto`. `narrow` is the loop over the other children of an AND, `expand_children` the one of an OR.
unfoldable mutual
  unfolding range_ids add_all keep_common

  pub expand_into : SelectNode → List ℕ → List ℕ
  expand_into (select_id_set ids) acc = add_all ids acc
  expand_into (select_range start end) acc = add_all (range_ids start end) acc
  expand_into (select_and nil) acc = acc
  expand_into (select_and (cons child rest)) acc = add_all (narrow rest (expand_into child [])) acc
  expand_into (select_or children) acc = expand_children children acc

  pub narrow : Nodes → List ℕ → List ℕ
  narrow nil first = first
  narrow (cons child rest) first = narrow rest (keep_common first (expand_into child []))

  pub expand_children : Nodes → List ℕ → List ℕ
  expand_children nil acc = acc
  expand_children (cons child rest) acc = expand_children rest (expand_into child acc)

-- `Expand`.
unfoldable pub expand : SelectNode → List ℕ
expand node = expand_into node []

-- What a selector means: an AND without children selects nothing.
unfoldable mutual
  unfolding elem

  pub selects : SelectNode → ℕ → Bool
  selects (select_id_set ids) x = elem x ids
  selects (select_range start end) x = leb start x && leb x end
  selects (select_and nil) x = false
  selects (select_and (cons child rest)) x = selects child x && all_select rest x
  selects (select_or children) x = any_selects children x

  pub all_select : Nodes → ℕ → Bool
  all_select nil x = true
  all_select (cons child rest) x = selects child x && all_select rest x

  pub any_selects : Nodes → ℕ → Bool
  any_selects nil x = false
  any_selects (cons child rest) x = selects child x || any_selects rest x

-- Every range of the selector ends below the largest int, so that the loops over ranges come to an end.
unfoldable mutual
  unfolding max_int

  pub Ends : SelectNode → Type 0
  Ends (select_id_set ids) = Unit
  Ends (select_range start end) = end < max_int
  Ends (select_and children) = AllEnd children
  Ends (select_or children) = AllEnd children

  pub AllEnd : Nodes → Type 0
  AllEnd nil = Unit
  AllEnd (cons child rest) = Ends child × AllEnd rest

ids_from : ℕ → ℕ → List ℕ
ids_from zero id = []
ids_from (suc rounds) id = id ∷ ids_from rounds (suc id)

range_loop-ids_from :
    (fuel id end : ℕ)
    → end < max_int
    → suc end - id < fuel
    → range_loop fuel id end ≡ some (ids_from (suc end - id) id)
unfolding range_loop ids_from
range_loop-ids_from zero id end h enough = absurd (omega arith)
range_loop-ids_from (suc fuel) id end h enough = elim (Bool-cases (ltb end id)) [
  | inl over ↦
      let none_left : suc end - id ≡ 0 = ground arith in
      ground (arith, ap (λ n. ids_from n id) none_left)
  | inr inside ↦
      let more : suc end - id ≡ suc (suc end - suc id) = ground arith in
      ground (
        arith,
        ap (λ n. ids_from n id) more,
        range_loop-ids_from fuel (suc id) end h (ground arith),
      )
]

elem-ids_from :
    (x rounds id : ℕ) → elem x (ids_from rounds id) ≡ (leb id x && leb (suc x) (id + rounds))
unfolding elem ids_from
elem-ids_from x zero id = ground arith
elem-ids_from x (suc rounds) id = ground (arith, elem-ids_from x rounds (suc id), ==_iff id x)

elem-range_ids :
    (x start end : ℕ) → end < max_int → elem x (range_ids start end) ≡ (leb start x && leb x end)
unfolding range_ids
elem-range_ids x start end h = ground (
  arith,
  range_loop-ids_from (suc (suc end - start)) start end h (omega arith),
  elem-ids_from x (suc end - start) start,
)

or_swap :
    (a b c : Bool) {whole later : Bool}
    → whole ≡ (a || later)
    → later ≡ (b || c)
    → whole ≡ ((b || a) || c)
or_swap true true c p q = cc
or_swap true false c p q = cc
or_swap false true c p q = cc
or_swap false false c p q = cc

mutual
  unfolding expand_into selects keep_common elem Ends

  elem-expand_into :
      (x : ℕ) (node : SelectNode) (acc : List ℕ)
      → Ends node
      → elem x (expand_into node acc) ≡ (selects node x || elem x acc)
  elem-expand_into x (select_id_set ids) acc h = elem-add_all x ids acc
  elem-expand_into x (select_range start end) acc h =
      ground (arith, elem-add_all x (range_ids start end) acc, elem-range_ids x start end h)
  elem-expand_into x (select_and nil) acc h = refl
  elem-expand_into x (select_and (cons child rest)) acc h = ground (
    arith,
    elem-add_all x (narrow rest (expand_into child [])) acc,
    elem-narrow x rest (expand_into child []) h.1,
    elem-expand_into x child [] h.0,
  )
  elem-expand_into x (select_or children) acc h = elem-expand_children x children acc h

  elem-narrow :
      (x : ℕ) (rest : Nodes) (first : List ℕ)
      → AllEnd rest
      → elem x (narrow rest first) ≡ (elem x first && all_select rest x)
  elem-narrow x nil first h = ground arith
  elem-narrow x (cons child rest) first h = ground (
    arith,
    elem-narrow x rest (keep_common first (expand_into child [])) h.1,
    elem-select x (λ id. elem id (expand_into child [])) first,
    elem-expand_into x child [] h.0,
  )

  elem-expand_children :
      (x : ℕ) (children : Nodes) (acc : List ℕ)
      → AllEnd children
      → elem x (expand_children children acc) ≡ (any_selects children x || elem x acc)
  elem-expand_children x nil acc h = refl
  elem-expand_children x (cons child rest) acc h =
      or_swap (any_selects rest x) (selects child x) (elem x acc)
        (elem-expand_children x rest (expand_into child acc) h.1) (elem-expand_into x child acc h.0)

mutual
  unfolding expand_into keep_common

  expand_into-Distinct :
      (node : SelectNode) (acc : List ℕ) → Distinct acc → Distinct (expand_into node acc)
  expand_into-Distinct (select_id_set ids) acc h = add_all-Distinct ids acc h
  expand_into-Distinct (select_range start end) acc h = add_all-Distinct (range_ids start end) acc h
  expand_into-Distinct (select_and nil) acc h = h
  expand_into-Distinct (select_and (cons child rest)) acc h =
      add_all-Distinct (narrow rest (expand_into child [])) acc h
  expand_into-Distinct (select_or children) acc h = expand_children-Distinct children acc h

  expand_children-Distinct :
      (children : Nodes) (acc : List ℕ) → Distinct acc → Distinct (expand_children children acc)
  expand_children-Distinct nil acc h = h
  expand_children-Distinct (cons child rest) acc h =
      expand_children-Distinct rest (expand_into child acc) (expand_into-Distinct child acc h)

-- Whether the loop of every range comes to an end.
unfoldable mutual
  unfolding range_loop

  pub stops : SelectNode → Bool
  stops (select_id_set ids) = true
  stops (select_range start end) = elim (range_loop (suc (suc end - start)) start end) [
    | some ids ↦ true
    | none ↦ false
  ]
  stops (select_and children) = all_stop children
  stops (select_or children) = all_stop children

  all_stop : Nodes → Bool
  all_stop nil = true
  all_stop (cons child rest) = stops child && all_stop rest

mutual
  unfolding stops Ends

  Ends-stops : (node : SelectNode) → Ends node → stops node ≡ true
  Ends-stops (select_id_set ids) h = refl
  Ends-stops (select_range start end) h =
      ground (arith, range_loop-ids_from (suc (suc end - start)) start end h (omega arith))
  Ends-stops (select_and children) h = AllEnd-stops children h
  Ends-stops (select_or children) h = AllEnd-stops children h

  AllEnd-stops : (children : Nodes) → AllEnd children → all_stop children ≡ true
  AllEnd-stops nil h = refl
  AllEnd-stops (cons child rest) h = ground (arith, Ends-stops child h.0, AllEnd-stops rest h.1)

-- Where every range ends below the largest int, the loop of every range comes to an end, and Expand gives exactly
-- the selected IDs.
pub elem-expand :
    (x : ℕ) (node : SelectNode)
    → Ends node
    → (stops node ≡ true) × (elem x (expand node) ≡ selects node x)
unfolding expand elem
elem-expand x node h = (Ends-stops node h, ground (arith, elem-expand_into x node [] h))

pub expand-Distinct : (node : SelectNode) → Distinct (expand node)
unfolding expand Distinct
expand-Distinct node = expand_into-Distinct node [] tt
