-- ===== src/Selector/Eval.antt =====
-- The evaluator of internal/planning/selector_eval.go, over the IDs that are available.
use pratc.Base.{
  ℕ, Bool, true, false, not, ◌&&◌, ◌||◌, ◌≡◌, refl, List, [], ◌∷◌, ◌++◌, map, Option, none, some,
  select, length, arith, if◌then◌else◌, ltb, ◌==◌,
}
use package.pratc.Selector.Syntax.{SelectNode}
use pratc.Base.Numbers.{
  elem, add_all, keep_common, sort_ids, elem-add_all, elem-select, elem-sort_ids, select-Distinct,
  AscendingFrom, sort_ids-Ascending,
}
use package.pratc.Selector.Expand.{Ends, stops, expand, selects, elem-expand, expand-Distinct}
use package.pratc.Selector.Print.{codes, expr_string, itoa}

-- A set of IDs, and a text, are lists of numbers. A nil `*SelectExpr` and one with a nil root are treated alike.
abbrev pub SelectExpr : Type 0
SelectExpr = Option SelectNode

-- `NewEvaluator`: the field `availableIDs`.
unfoldable pub new_evaluator : List ℕ → List ℕ
new_evaluator available_ids = add_all available_ids []

pub record EvalResult : Type 0 where
  pub selected_ids : List ℕ
  pub warnings : List (List ℕ)
  pub expression : List ℕ

-- `s < t` on texts.
unfoldable pub text_less : List ℕ → List ℕ → Bool
text_less [] [] = false
text_less [] (y ∷ ys) = true
text_less (x ∷ xs) [] = false
text_less (x ∷ xs) (y ∷ ys) = ltb x y || ((x == y) && text_less xs ys)

-- `sort.Strings`.
unfoldable pub insert_text : List ℕ → List (List ℕ) → List (List ℕ)
unfolding text_less
insert_text x [] = x ∷ []
insert_text x (y ∷ ys) = if text_less y x then y ∷ insert_text x ys else x ∷ y ∷ ys

unfoldable pub sort_texts : List (List ℕ) → List (List ℕ)
unfolding insert_text
sort_texts [] = []
sort_texts (x ∷ xs) = insert_text x (sort_texts xs)

unfoldable pub not_found : List ℕ → List ℕ
unfolding codes
not_found id = codes "PR #" ++ (id ++ codes " not found")

-- `Eval`.
unfoldable pub eval : List ℕ → SelectExpr → EvalResult
unfolding codes not_found sort_texts sort_ids expand elem itoa expr_string
eval available none = record {
  selected_ids = [];
  warnings = codes "empty expression" ∷ [];
  expression = [];
}
eval available (some root) = record {
  selected_ids = sort_ids (select (λ id. elem id available) (expand root));
  warnings =
      sort_texts
        (map (λ id. not_found (itoa id)) (select (λ id. not (elem id available)) (expand root)));
  expression = expr_string (some root);
}

-- `(*Evaluator).Contains`.
unfoldable pub contains_id : SelectExpr → ℕ → Bool
unfolding expand elem
contains_id none pr = false
contains_id (some root) pr = elem pr (expand root)

-- `(*Evaluator).Count`.
unfoldable pub count_selected : List ℕ → SelectExpr → ℕ
unfolding eval
count_selected available none = 0
count_selected available (some root) = length (eval available (some root)).selected_ids

-- `IsEmpty`.
unfoldable pub selects_none : List ℕ → SelectExpr → Bool
unfolding count_selected
selects_none available expr = count_selected available expr == 0

-- `ToPredicate`, which expects an expression with a root.
unfoldable pub to_predicate : List ℕ → SelectNode → ℕ → Bool
unfolding expand elem
to_predicate available root id = elem id (expand root) && elem id available

-- `Intersection`, `Union` and `Difference` of sets, as sorted slices.
unfoldable pub intersect_rest : List (List ℕ) → List ℕ → List ℕ
unfolding keep_common
intersect_rest [] result = result
intersect_rest (set ∷ sets) result = intersect_rest sets (keep_common result set)

unfoldable pub intersection : List (List ℕ) → List ℕ
unfolding intersect_rest sort_ids
intersection [] = []
intersection (set ∷ sets) = sort_ids (intersect_rest sets set)

unfoldable pub unite : List (List ℕ) → List ℕ → List ℕ
unfolding add_all
unite [] result = result
unite (set ∷ sets) result = unite sets (add_all set result)

unfoldable pub union : List (List ℕ) → List ℕ
unfolding unite sort_ids
union sets = sort_ids (unite sets [])

unfoldable pub difference : List ℕ → List ℕ → List ℕ
unfolding sort_ids elem
difference a b = sort_ids (select (λ id. not (elem id b)) a)

-- `AllIDs` and `IDCount` of selector_types.go.
unfoldable pub all_ids : SelectExpr → List ℕ
unfolding sort_ids expand
all_ids none = []
all_ids (some root) = sort_ids (expand root)

unfoldable pub id_count : SelectExpr → ℕ
unfolding expand
id_count none = 0
id_count (some root) = length (expand root)

elem-new_evaluator : (x : ℕ) (ids : List ℕ) → elem x (new_evaluator ids) ≡ elem x ids
unfolding new_evaluator elem
elem-new_evaluator x ids = ground (arith, elem-add_all x ids [])

-- Where every range ends below the largest int, the loop of every range comes to an end, and Eval selects, in ascending order and each once, exactly the available IDs that the expression means;
-- ToPredicate accepts just these, and Count counts them.
pub eval-selects :
    (ids : List ℕ) (root : SelectNode)
    → Ends root
    → let result = eval (new_evaluator ids) (some root) in
      (stops root ≡ true)
      × AscendingFrom 0 result.selected_ids
      × ((x : ℕ) → elem x result.selected_ids ≡ (selects root x && elem x ids))
      × ((x : ℕ) → to_predicate (new_evaluator ids) root x ≡ elem x result.selected_ids)
      × (count_selected (new_evaluator ids) (some root) ≡ length result.selected_ids)
unfolding eval to_predicate count_selected
eval-selects ids root h =
    let available = new_evaluator ids in
    let p = λ (id : ℕ). elem id available in
    let here = select p (expand root) in
    (
      (elem-expand 0 root h).0,
      sort_ids-Ascending here (select-Distinct p (expand root) (expand-Distinct root)),
      λ x. ground (
        arith,
        elem-sort_ids x here,
        elem-select x p (expand root),
        (elem-expand x root h).1,
        elem-new_evaluator x ids,
      ),
      λ x. ground (arith, elem-sort_ids x here, elem-select x p (expand root)),
      refl,
    )
