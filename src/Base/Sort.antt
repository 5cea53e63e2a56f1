-- ===== src/Base/Sort.antt =====
-- `sorted` and `ORDER BY id ASC` on numbers, and `sorted(set(...))`.
use Prim.Native.Nat.{ℕ, suc, ◌<◌}
use mathlib.Core.Path.{◌≡◌, refl}
use mathlib.Core.Bool.{◌||◌}
use mathlib.Core.List.{List, [], ◌∷◌}
use native.Mathlib.Omega.{arith}
use tca.Base.Tests.{ltb, leb, ◌==◌, if◌then◌else◌}
use tca.Base.Lists.{length, All}
use tca.Base.Rows.{member}

unfoldable pub insert : ℕ → List ℕ → List ℕ
insert a [] = a ∷ []
insert a (x ∷ xs) = if leb a x then a ∷ x ∷ xs else x ∷ insert a xs

unfoldable pub sort : List ℕ → List ℕ
unfolding insert
sort [] = []
sort (x ∷ xs) = insert x (sort xs)

-- `set.add`, in the order in which `sorted` lists the set.
unfoldable pub insert_once : ℕ → List ℕ → List ℕ
insert_once a [] = a ∷ []
insert_once a (x ∷ xs) =
    if ltb a x then a ∷ x ∷ xs else if a == x then x ∷ xs else x ∷ insert_once a xs

-- Strictly increasing, so with no repetition.
abbrev pub IsIncreasing : List ℕ → Type 0
IsIncreasing [] = Unit
IsIncreasing (x ∷ xs) = All (λ y. x < y) xs × IsIncreasing xs

pub member-insert : (k a : ℕ) (xs : List ℕ) → member k (insert a xs) ≡ (k == a || member k xs)
unfolding member insert
member-insert k a [] = refl
member-insert k a (x ∷ xs) = ground (arith, member-insert k a xs)

pub member-sort : (k : ℕ) (xs : List ℕ) → member k (sort xs) ≡ member k xs
unfolding member sort
member-sort k [] = refl
member-sort k (x ∷ xs) = ground (arith, member-insert k x (sort xs), member-sort k xs)

length-insert : (a : ℕ) (xs : List ℕ) → length (insert a xs) ≡ suc (length xs)
unfolding insert
length-insert a [] = refl
length-insert a (x ∷ xs) = ground (arith, length-insert a xs)

pub length-sort : (xs : List ℕ) → length (sort xs) ≡ length xs
unfolding sort
length-sort [] = refl
length-sort (x ∷ xs) = omega (arith, length-insert x (sort xs), length-sort xs)

pub member-insert_once :
    (k a : ℕ) (xs : List ℕ) → member k (insert_once a xs) ≡ (k == a || member k xs)
unfolding member insert_once
member-insert_once k a [] = refl
member-insert_once k a (x ∷ xs) = ground (arith, member-insert_once k a xs)

All-lt_trans : (a b : ℕ) (xs : List ℕ) → a < b → All (λ y. b < y) xs → All (λ y. a < y) xs
All-lt_trans a b [] h all = tt
All-lt_trans a b (x ∷ xs) h all = (omega arith, All-lt_trans a b xs h all.1)

All-insert_once :
    (a x : ℕ) (xs : List ℕ) → x < a → All (λ y. x < y) xs → All (λ y. x < y) (insert_once a xs)
unfolding insert_once
All-insert_once a x [] h all = (h, tt)
All-insert_once a x (y ∷ ys) h all = ground (arith, All-insert_once a x ys h all.1)

pub insert_once-IsIncreasing :
    (a : ℕ) (xs : List ℕ) → IsIncreasing xs → IsIncreasing (insert_once a xs)
unfolding insert_once
insert_once-IsIncreasing a [] h = (tt, tt)
insert_once-IsIncreasing a (x ∷ xs) h =
    ground (arith, insert_once-IsIncreasing a xs h.1, All-insert_once a x xs, All-lt_trans a x xs)
