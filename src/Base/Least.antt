-- ===== src/Base/Least.antt =====
-- `ORDER BY id ASC LIMIT 1`.
use Prim.Native.Nat.{ℕ, ◌≤◌}
use mathlib.Core.Path.{◌≡◌, refl, sym, ◌∙◌}
use mathlib.Core.Bool.{true, false}
use mathlib.Core.Option.{Option, none, some}
use mathlib.Core.List.{List, [], ◌∷◌}
use native.Mathlib.Omega.{arith}
use tca.Base.Rows.{member}
use tca.Base.Sort.{insert, sort, member-sort}

abbrev pub first : List ℕ → Option ℕ
first [] = none
first (i ∷ is) = some i

unfoldable pub least : List ℕ → Option ℕ
unfolding sort
least ids = first (sort ids)

first-member : (xs : List ℕ) (i : ℕ) → first xs ≡ some i → member i xs ≡ true
unfolding member
first-member [] i h = cc
first-member (x ∷ xs) i h = ground arith

first-none : (xs : List ℕ) (j : ℕ) → first xs ≡ none → member j xs ≡ false
unfolding member
first-none [] j h = refl
first-none (x ∷ xs) j h = cc

pub member-least : (ids : List ℕ) (i : ℕ) → least ids ≡ some i → member i ids ≡ true
unfolding least
member-least ids i h = sym (member-sort i ids) ∙ first-member (sort ids) i h

pub least-none : (ids : List ℕ) (j : ℕ) → least ids ≡ none → member j ids ≡ false
unfolding least
least-none ids j h = sym (member-sort j ids) ∙ first-none (sort ids) j h

-- No element is below the first one.
abbrev StartsAbove : ℕ → List ℕ → Type 0
StartsAbove a [] = Unit
StartsAbove a (x ∷ xs) = a ≤ x

-- The elements do not decrease.
abbrev IsSorted : List ℕ → Type 0
IsSorted [] = Unit
IsSorted (x ∷ xs) = StartsAbove x xs × IsSorted xs

insert-IsSorted : (a : ℕ) (xs : List ℕ) → IsSorted xs → IsSorted (insert a xs)
unfolding insert
insert-IsSorted a [] h = (tt, tt)
insert-IsSorted a (x ∷ []) h = ground arith
insert-IsSorted a (x ∷ y ∷ ys) h = ground (arith, insert-IsSorted a (y ∷ ys) h.1)

sort-IsSorted : (xs : List ℕ) → IsSorted (sort xs)
unfolding sort
sort-IsSorted [] = tt
sort-IsSorted (x ∷ xs) = insert-IsSorted x (sort xs) (sort-IsSorted xs)

first_le : (x : ℕ) (xs : List ℕ) (j : ℕ) → IsSorted (x ∷ xs) → member j (x ∷ xs) ≡ true → x ≤ j
unfolding member
first_le x [] j h m = ground arith
first_le x (y ∷ ys) j h m = ground (arith, first_le y ys j h.1)

least_sorted :
    (xs : List ℕ) (i j : ℕ) → IsSorted xs → first xs ≡ some i → member j xs ≡ true → i ≤ j
least_sorted [] i j h e m = cc
least_sorted (x ∷ xs) i j h e m = ground (arith, first_le x xs j h m)

pub least_le : (ids : List ℕ) (i j : ℕ) → least ids ≡ some i → member j ids ≡ true → i ≤ j
unfolding least
least_le ids i j h m = least_sorted (sort ids) i j (sort-IsSorted ids) h (member-sort j ids ∙ m)
