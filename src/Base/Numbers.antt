-- ===== src/Base/Numbers.antt =====
-- Sets of numbers, `map[int]struct{}`, as lists without repetition, and sorted slices of numbers.
use pratc.Base.{
  ℕ, suc, ◌≤◌, Bool, false, ◌&&◌, ◌||◌, ◌≡◌, refl, List, [], ◌∷◌, ==_iff, if◌then◌else◌, ltb, ◌==◌,
  select, arith, true, ◌≢◌, length, Bool-cases, inl, inr,
}

unfoldable pub elem : ℕ → List ℕ → Bool
elem x [] = false
elem x (y ∷ ys) = (y == x) || elem x ys

-- `set[id] = struct{}{}`.
unfoldable pub add : ℕ → List ℕ → List ℕ
unfolding elem
add id set = if elem id set then set else id ∷ set

-- `for _, id := range ids { set[id] = struct{}{} }`.
unfoldable pub add_all : List ℕ → List ℕ → List ℕ
unfolding add
add_all [] set = set
add_all (id ∷ ids) set = add_all ids (add id set)

-- The keys of a set that are in another one: the others are deleted.
unfoldable pub keep_common : List ℕ → List ℕ → List ℕ
unfolding elem
keep_common first set = select (λ id. elem id set) first

-- `sort.Ints`.
unfoldable pub insert_id : ℕ → List ℕ → List ℕ
insert_id x [] = x ∷ []
insert_id x (y ∷ ys) = if ltb y x then y ∷ insert_id x ys else x ∷ y ∷ ys

unfoldable pub sort_ids : List ℕ → List ℕ
unfolding insert_id
sort_ids [] = []
sort_ids (x ∷ xs) = insert_id x (sort_ids xs)

pub elem-add : (x id : ℕ) (set : List ℕ) → elem x (add id set) ≡ ((id == x) || elem x set)
unfolding add elem
elem-add x id set = ground (arith, ==_iff id x)

pub elem-add_all :
    (x : ℕ) (ids set : List ℕ) → elem x (add_all ids set) ≡ (elem x ids || elem x set)
unfolding add_all elem
elem-add_all x [] set = refl
elem-add_all x (id ∷ ids) set = ground (arith, elem-add_all x ids (add id set), elem-add x id set)

pub elem-select :
    (x : ℕ) (p : ℕ → Bool) (ids : List ℕ) → elem x (select p ids) ≡ (elem x ids && p x)
unfolding elem select
elem-select x p [] = refl
elem-select x p (id ∷ ids) = ground (arith, elem-select x p ids, ==_iff id x)

pub elem-insert_id :
    (x id : ℕ) (ids : List ℕ) → elem x (insert_id id ids) ≡ ((id == x) || elem x ids)
unfolding elem insert_id
elem-insert_id x id [] = refl
elem-insert_id x id (y ∷ ids) = ground (arith, elem-insert_id x id ids)

pub elem-sort_ids : (x : ℕ) (ids : List ℕ) → elem x (sort_ids ids) ≡ elem x ids
unfolding elem sort_ids
elem-sort_ids x [] = refl
elem-sort_ids x (id ∷ ids) = ground (arith, elem-sort_ids x ids, elem-insert_id x id (sort_ids ids))

-- No ID is repeated.
unfoldable pub Distinct : List ℕ → Type 0
Distinct [] = Unit
Distinct (x ∷ xs) = (elem x xs ≡ false) × Distinct xs

pub add-Distinct : (id : ℕ) (set : List ℕ) → Distinct set → Distinct (add id set)
unfolding add Distinct
add-Distinct id set h = ground arith

pub add_all-Distinct : (ids set : List ℕ) → Distinct set → Distinct (add_all ids set)
unfolding add_all
add_all-Distinct [] set h = h
add_all-Distinct (id ∷ ids) set h = add_all-Distinct ids (add id set) (add-Distinct id set h)

pub select-Distinct : (p : ℕ → Bool) (ids : List ℕ) → Distinct ids → Distinct (select p ids)
unfolding select Distinct
select-Distinct p [] h = tt
select-Distinct p (x ∷ xs) h = ground (arith, select-Distinct p xs h.1, elem-select x p xs)

-- Strictly ascending, from a bound on.
unfoldable pub AscendingFrom : ℕ → List ℕ → Type 0
AscendingFrom n [] = Unit
AscendingFrom n (x ∷ xs) = (n ≤ x) × AscendingFrom (suc x) xs

AscendingFrom-weaken : (m n : ℕ) (xs : List ℕ) → m ≤ n → AscendingFrom n xs → AscendingFrom m xs
unfolding AscendingFrom
AscendingFrom-weaken m n [] h a = tt
AscendingFrom-weaken m n (x ∷ xs) h a = ground arith

insert_id-Ascending :
    (n x : ℕ) (xs : List ℕ)
    → n ≤ x
    → elem x xs ≡ false
    → AscendingFrom n xs
    → AscendingFrom n (insert_id x xs)
unfolding AscendingFrom insert_id elem
insert_id-Ascending n x [] h e a = ground arith
insert_id-Ascending n x (y ∷ ys) h e a = ground (
  arith,
  insert_id-Ascending (suc y) x ys,
  AscendingFrom-weaken (suc x) (suc y) ys,
  AscendingFrom-weaken (suc x) y ys,
)

pub sort_ids-Ascending : (ids : List ℕ) → Distinct ids → AscendingFrom 0 (sort_ids ids)
unfolding sort_ids Distinct AscendingFrom
sort_ids-Ascending [] h = tt
sort_ids-Ascending (x ∷ xs) h =
    insert_id-Ascending 0 x (sort_ids xs) (omega arith) (ground (arith, elem-sort_ids x xs))
      (sort_ids-Ascending xs h.1)

pub insert_id-Distinct :
    (x : ℕ) (xs : List ℕ) → elem x xs ≡ false → Distinct xs → Distinct (insert_id x xs)
unfolding insert_id Distinct elem
insert_id-Distinct x [] e h = ground arith
insert_id-Distinct x (y ∷ ys) e h =
    ground (arith, insert_id-Distinct x ys, elem-insert_id y x ys, ==_iff x y, ==_iff y x)

pub sort_ids-Distinct : (xs : List ℕ) → Distinct xs → Distinct (sort_ids xs)
unfolding sort_ids Distinct
sort_ids-Distinct [] h = tt
sort_ids-Distinct (x ∷ xs) h =
    insert_id-Distinct x (sort_ids xs) (ground (arith, h.0, elem-sort_ids x xs))
      (sort_ids-Distinct xs h.1)

unfoldable pub remove_id : ℕ → List ℕ → List ℕ
remove_id x [] = []
remove_id x (y ∷ ys) = if y == x then ys else y ∷ remove_id x ys

length-remove_id :
    (x : ℕ) (ys : List ℕ) → elem x ys ≡ true → suc (length (remove_id x ys)) ≡ length ys
unfolding remove_id elem
length-remove_id x [] h = absurd (ground arith)
length-remove_id x (y ∷ ys) h = ground (arith, length-remove_id x ys)

elem-remove_id : (k x : ℕ) (ys : List ℕ) → k ≢ x → elem k ys ≡ true → elem k (remove_id x ys) ≡ true
unfolding remove_id elem
elem-remove_id k x [] n h = h
elem-remove_id k x (y ∷ ys) n h = ground (arith, elem-remove_id k x ys n, ==_iff y x, ==_iff y k)

-- A list without repetition is no longer than one that has all its elements.
pub length-Distinct :
    (xs ys : List ℕ)
    → Distinct xs
    → ((k : ℕ) → elem k xs ≡ true → elem k ys ≡ true)
    → length xs ≤ length ys
unfolding Distinct elem
length-Distinct [] ys d h = omega arith
length-Distinct (x ∷ xs) ys d h =
    let here : elem x ys ≡ true = ground (arith, h x) in
    let rest =
      length-Distinct xs (remove_id x ys) d.1
        (λ k m. elem-remove_id k x ys (λ e. ground (arith, d.0, e)) (ground (arith, h k))) in
    omega (arith, rest, length-remove_id x ys here)

-- As many elements of a list as it has are all of it.
pub elem-full :
    (xs ys : List ℕ) (k : ℕ)
    → Distinct xs
    → ((j : ℕ) → elem j xs ≡ true → elem j ys ≡ true)
    → length ys ≤ length xs
    → elem k ys ≡ true
    → elem k xs ≡ true
elem-full xs ys k d h l m = elim (Bool-cases (elem k xs)) [
  | inl e ↦ e
  | inr e ↦
      let less =
        length-Distinct xs (remove_id k ys) d
          (λ j n. elem-remove_id j k ys (λ s. ground (arith, s, e, n)) (h j n)) in
      absurd (omega (arith, less, length-remove_id k ys m, l))
]
