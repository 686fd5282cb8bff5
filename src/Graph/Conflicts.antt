-- ===== src/Graph/Conflicts.antt =====
-- `conflictFiles` of internal/graph/graph.go: the files by which two pull requests conflict.
use Prim.Native.Char.{code}
use pratc.Base.{
  String, Bool, true, false, not, ◌&&◌, ◌||◌, ◌≡◌, refl, List, [], ◌∷◌, ltb, ◌==◌, str_eq,
  str_eq_iff, str_elem, if◌then◌else◌, arith, Bool-cases, inl, inr, ap,
}
use pratc.Planner.Pool.{Pr}
use package.pratc.Graph.Noise.{is_noise, filter_noise_files}

-- The order of texts, by their code points as by their UTF-8 bytes.
unfoldable str_ltb : String → String → Bool
str_ltb s String.[] = false
str_ltb String.[] (String.◌∷◌ d t) = true
str_ltb (String.◌∷◌ c s) (String.◌∷◌ d t) =
    ltb (code c) (code d) || ((code c == code d) && str_ltb s t)

-- `sort.Strings`.
unfoldable insert_path : String → List String → List String
unfolding str_ltb
insert_path f [] = f ∷ []
insert_path f (g ∷ files) =
    let rest = insert_path f files in if str_ltb g f then g ∷ rest else f ∷ g ∷ files

unfoldable sort_paths : List String → List String
unfolding insert_path
sort_paths [] = []
sort_paths (f ∷ files) = insert_path f (sort_paths files)

-- `slices.Compact`.
unfoldable compact_after : String → List String → List String
compact_after f [] = []
compact_after f (g ∷ files) = elim (str_eq f g) [
  | true ↦ compact_after f files
  | false ↦ g ∷ compact_after g files
]

unfoldable compact : List String → List String
unfolding compact_after
compact [] = []
compact (f ∷ files) = f ∷ compact_after f files

-- The loop over `left`.
unfoldable shared_paths : List String → List String → List String
shared_paths [] right = []
shared_paths (f ∷ left) right =
    let rest = shared_paths left right in if str_elem f right then f ∷ rest else rest

-- `intersectFiles`. Where a list is empty so is the result.
unfoldable pub intersect_files : List String → List String → List String
unfolding shared_paths sort_paths compact
intersect_files left right = compact (sort_paths (shared_paths left right))

abbrev pub both_conflicting : Pr → Pr → Bool
both_conflicting left right =
    str_eq left.mergeable "conflicting" && str_eq right.mergeable "conflicting"

abbrev pub other_base : Pr → Pr → Bool
other_base left right =
    str_eq left.base_branch ""
    || str_eq right.base_branch ""
    || not (str_eq left.base_branch right.base_branch)

-- `conflictFiles`.
unfoldable pub conflict_files : Pr → Pr → List String
unfolding intersect_files filter_noise_files
conflict_files left right =
    if other_base left right
    then []
    else elim (filter_noise_files (intersect_files left.files_changed right.files_changed)) [
      | [] ↦ if both_conflicting left right then "mergeability_signal" ∷ [] else []
      | f ∷ files ↦ f ∷ files
    ]

module _ (x : String) where
  elem-insert_path :
      (f : String) (files : List String)
      → str_elem x (insert_path f files) ≡ (str_eq f x || str_elem x files)
  unfolding insert_path str_elem
  elem-insert_path f [] = ground arith
  elem-insert_path f (g ∷ files) = ground (arith, elem-insert_path f files)

  elem-sort_paths : (files : List String) → str_elem x (sort_paths files) ≡ str_elem x files
  unfolding sort_paths str_elem
  elem-sort_paths [] = refl
  elem-sort_paths (f ∷ files) =
      ground (arith, elem-sort_paths files, elem-insert_path f (sort_paths files))

  elem-compact_after :
      (f : String) (files : List String)
      → (str_eq f x || str_elem x (compact_after f files)) ≡ (str_eq f x || str_elem x files)
  unfolding compact_after str_elem
  elem-compact_after f [] = refl
  elem-compact_after f (g ∷ files) = ground (
    arith,
    elem-compact_after f files,
    elem-compact_after g files,
    str_eq_iff f g,
    str_eq_iff f x,
    str_eq_iff g x,
  )

  elem-compact : (files : List String) → str_elem x (compact files) ≡ str_elem x files
  unfolding compact str_elem
  elem-compact [] = refl
  elem-compact (f ∷ files) = ground (arith, elem-compact_after f files)

  elem-shared_paths :
      (left right : List String)
      → str_elem x (shared_paths left right) ≡ (str_elem x left && str_elem x right)
  unfolding shared_paths str_elem
  elem-shared_paths [] right = refl
  elem-shared_paths (f ∷ left) right = ground (arith, elem-shared_paths left right, str_eq_iff f x)

  elem-filter_noise_files :
      (files : List String)
      → str_elem x (filter_noise_files files) ≡ (str_elem x files && not (is_noise x))
  unfolding filter_noise_files str_elem
  elem-filter_noise_files [] = refl
  elem-filter_noise_files (f ∷ files) = elim (Bool-cases (str_eq f x)) [
    | inl same ↦
        ground (arith, elem-filter_noise_files files, ap is_noise ((str_eq_iff f x).0 same))
    | inr other ↦ ground (arith, elem-filter_noise_files files)
  ]

  elem-intersect_files :
      (left right : List String)
      → str_elem x (intersect_files left right) ≡ (str_elem x left && str_elem x right)
  unfolding intersect_files
  elem-intersect_files left right = ground (
    arith,
    elem-compact (sort_paths (shared_paths left right)),
    elem-sort_paths (shared_paths left right),
    elem-shared_paths left right,
  )

-- Two pull requests of one base, unless GitHub marks both as conflicting, conflict by exactly the files that both
-- change and that are no noise.
pub conflict_files-shared :
    (left right : Pr) (x : String)
    → other_base left right ≡ false
    → both_conflicting left right ≡ false
    → str_elem x (conflict_files left right)
      ≡ (str_elem x left.files_changed && str_elem x right.files_changed && not (is_noise x))
unfolding conflict_files str_elem
conflict_files-shared left right x same unmarked =
    let shared = intersect_files left.files_changed right.files_changed in
    ground (
      arith,
      elem-filter_noise_files x shared,
      elem-intersect_files x left.files_changed right.files_changed,
    )
