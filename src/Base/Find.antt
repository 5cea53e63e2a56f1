-- ===== src/Base/Find.antt =====
-- One row of a table by its key: `one_or_none`, and `UPDATE ... RETURNING`.
use Prim.Native.Nat.{ℕ}
use mathlib.Core.Path.{◌≡◌, refl}
use mathlib.Core.Bool.{Bool, true, false}
use mathlib.Core.Option.{Option, none, some}
use mathlib.Core.Option
use mathlib.Core.List.{List, [], ◌∷◌, ◌++◌, map}
use native.Mathlib.Omega.{arith}
use tca.Base.Tests.{if◌then◌else◌, is_some, leb}
use tca.Base.Rows.{exists_row, keep}

module _ {ℓ} {A : Type ℓ} where
  -- The row of a query that finds one at most.
  unfoldable pub find_row : (A → Bool) → List A → Option A
  find_row p [] = none
  find_row p (x ∷ xs) = let rest = find_row p xs in if p x then some x else rest

  -- `ORDER BY key ASC` on rows.
  unfoldable pub insert_row : (A → ℕ) → A → List A → List A
  insert_row key a [] = a ∷ []
  insert_row key a (x ∷ xs) =
      let rest = insert_row key a xs in if leb (key a) (key x) then a ∷ x ∷ xs else x ∷ rest

  unfoldable pub order_rows : (A → ℕ) → List A → List A
  unfolding insert_row
  order_rows key [] = []
  order_rows key (x ∷ xs) = insert_row key x (order_rows key xs)

  pub is_some-find_row : (p : A → Bool) (xs : List A) → is_some (find_row p xs) ≡ exists_row p xs
  unfolding find_row exists_row
  is_some-find_row p [] = refl
  is_some-find_row p (x ∷ xs) = ground (arith, is_some-find_row p xs)

  pub find_row-holds : (p : A → Bool) (xs : List A) (x : A) → find_row p xs ≡ some x → p x ≡ true
  unfolding find_row
  find_row-holds p [] x h = cc
  find_row-holds p (y ∷ ys) x h = ground (arith, find_row-holds p ys x)

  pub find_row-append :
      (p : A → Bool) (xs ys : List A)
      → find_row p (xs ++ ys) ≡ (if exists_row p xs then find_row p xs else find_row p ys)
  unfolding find_row exists_row
  find_row-append p [] ys = refl
  find_row-append p (x ∷ xs) ys = ground (arith, find_row-append p xs ys)

  pub find_row-map :
      (p : A → Bool) (f : A → A) (xs : List A)
      → ((x : A) → p (f x) ≡ p x)
      → find_row p (map f xs) ≡ Option.map f (find_row p xs)
  unfolding find_row
  find_row-map p f [] h = refl
  find_row-map p f (x ∷ xs) h = ground (arith, h x, find_row-map p f xs h)

  -- A filter that treats alike all the rows that `p` looks for.
  pub find_row-keep :
      (p q : A → Bool) (b : Bool) (xs : List A)
      → ((x : A) → p x ≡ true → q x ≡ b)
      → find_row p (keep q xs) ≡ (if b then find_row p xs else none)
  unfolding find_row keep
  find_row-keep p q true [] h = refl
  find_row-keep p q false [] h = refl
  find_row-keep p q b (x ∷ xs) h = ground (arith, h x, find_row-keep p q b xs h)

  exists_row-insert_row :
      (p : A → Bool) (key : A → ℕ) (a : A) (ys : List A)
      → exists_row p (insert_row key a ys) ≡ exists_row p (a ∷ ys)
  unfolding exists_row insert_row
  exists_row-insert_row p key a [] = refl
  exists_row-insert_row p key a (y ∷ ys) = ground (arith, exists_row-insert_row p key a ys)

  pub exists_row-order_rows :
      (p : A → Bool) (key : A → ℕ) (xs : List A)
      → exists_row p (order_rows key xs) ≡ exists_row p xs
  unfolding exists_row order_rows
  exists_row-order_rows p key [] = refl
  exists_row-order_rows p key (x ∷ xs) =
      ground
        (arith, exists_row-insert_row p key x (order_rows key xs), exists_row-order_rows p key xs)
