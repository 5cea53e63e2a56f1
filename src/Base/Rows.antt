-- ===== src/Base/Rows.antt =====
-- Tables as lists of rows: `WHERE`, `EXISTS`, `IN` and `COUNT`.
use Prim.Native.Nat.{ℕ, suc, ◌+◌, ◌≤◌, ◌<◌}
use mathlib.Core.Path.{◌≡◌, refl}
use mathlib.Core.Bool.{Bool, true, false, not, ◌&&◌, ◌||◌}
use mathlib.Core.List.{List, [], ◌∷◌, ◌++◌, map}
use native.Mathlib.Omega.{arith}
use tca.Base.Tests.{◌==◌, if◌then◌else◌, Bool-cases}
use mathlib.Core.Logic.{inl, inr}
use tca.Base.Lists.{length}

module _ {ℓ} {A : Type ℓ} where
  -- `SELECT * FROM xs WHERE p`.
  unfoldable pub keep : (A → Bool) → List A → List A
  keep p [] = []
  keep p (x ∷ xs) = let rest = keep p xs in if p x then x ∷ rest else rest

  -- `EXISTS (SELECT 1 FROM xs WHERE p)`.
  unfoldable pub exists_row : (A → Bool) → List A → Bool
  exists_row p [] = false
  exists_row p (x ∷ xs) = p x || exists_row p xs

  -- `SELECT COUNT(*) FROM xs WHERE p`.
  unfoldable pub count_rows : (A → Bool) → List A → ℕ
  count_rows p [] = 0
  count_rows p (x ∷ xs) = let rest = count_rows p xs in if p x then suc rest else rest

  pub exists_row-keep :
      (p q : A → Bool) (xs : List A) → exists_row p (keep q xs) ≡ exists_row (λ x. p x && q x) xs
  unfolding keep exists_row
  exists_row-keep p q [] = refl
  exists_row-keep p q (x ∷ xs) = ground (arith, exists_row-keep p q xs)

  pub exists_row-append :
      (p : A → Bool) (xs ys : List A)
      → exists_row p (xs ++ ys) ≡ (exists_row p xs || exists_row p ys)
  unfolding exists_row
  exists_row-append p [] ys = refl
  exists_row-append p (x ∷ xs) ys = ground (arith, exists_row-append p xs ys)

  pub exists_row_or :
      (p q : A → Bool) (xs : List A)
      → exists_row (λ x. p x || q x) xs ≡ (exists_row p xs || exists_row q xs)
  unfolding exists_row
  exists_row_or p q [] = refl
  exists_row_or p q (x ∷ xs) = ground (arith, exists_row_or p q xs)

  pub exists_row_mono :
      (p q : A → Bool) (xs : List A)
      → ((x : A) → p x ≡ true → q x ≡ true)
      → exists_row p xs ≡ true
      → exists_row q xs ≡ true
  unfolding exists_row
  exists_row_mono p q [] h e = e
  exists_row_mono p q (x ∷ xs) h e = ground (arith, h x, exists_row_mono p q xs h)

  -- A filter that treats alike all the rows that `p` looks for.
  pub exists_row-keep_const :
      (p q : A → Bool) (b : Bool) (xs : List A)
      → ((x : A) → p x ≡ true → q x ≡ b)
      → exists_row p (keep q xs) ≡ (exists_row p xs && b)
  unfolding keep exists_row
  exists_row-keep_const p q b [] h = refl
  exists_row-keep_const p q b (x ∷ xs) h = ground (arith, h x, exists_row-keep_const p q b xs h)

  pub exists_row_and :
      (p q : A → Bool) (b : Bool) (xs : List A)
      → ((x : A) → p x ≡ (q x && b))
      → exists_row p xs ≡ (exists_row q xs && b)
  unfolding exists_row
  exists_row_and p q b [] h = refl
  exists_row_and p q b (x ∷ xs) h = ground (arith, h x, exists_row_and p q b xs h)

  pub exists_row_ext :
      (p q : A → Bool) (xs : List A) → ((x : A) → p x ≡ q x) → exists_row p xs ≡ exists_row q xs
  unfolding exists_row
  exists_row_ext p q [] h = refl
  exists_row_ext p q (x ∷ xs) h = ground (arith, h x, exists_row_ext p q xs h)

  -- A row that satisfies `p`, and all that it satisfies.
  pub exists_row_witness :
      (p : A → Bool) (xs : List A)
      → exists_row p xs ≡ true
      → (x : A) × (p x ≡ true) × ((q : A → Bool) → q x ≡ true → exists_row q xs ≡ true)
  unfolding exists_row
  exists_row_witness p [] h = cc
  exists_row_witness p (x ∷ xs) h = elim (Bool-cases (p x)) [
    | inl here ↦ (x, here, λ q e. rw e)
    | inr later ↦
        let (y, e, f) = exists_row_witness p xs (ground arith) in
        (y, e, λ q g. ground (arith, f q g))
  ]

  pub count_rows-zero : (p : A → Bool) (xs : List A) → exists_row p xs ≡ false → count_rows p xs ≡ 0
  unfolding exists_row count_rows
  count_rows-zero p [] h = refl
  count_rows-zero p (x ∷ xs) h = ground (arith, count_rows-zero p xs)

  pub count_rows-add :
      (p : A → Bool) (xs : List A) → count_rows p xs + count_rows (λ x. not (p x)) xs ≡ length xs
  unfolding count_rows
  count_rows-add p [] = omega arith
  count_rows-add p (x ∷ xs) = ground (arith, count_rows-add p xs)

  pub count_rows-le_length : (p : A → Bool) (xs : List A) → count_rows p xs ≤ length xs
  count_rows-le_length p xs = omega (arith, count_rows-add p xs)

  pub count_rows_le :
      (p q : A → Bool) (xs : List A)
      → ((x : A) → p x ≡ true → q x ≡ true)
      → count_rows p xs ≤ count_rows q xs
  unfolding count_rows
  count_rows_le p q [] h = omega arith
  count_rows_le p q (x ∷ xs) h = ground (arith, h x, count_rows_le p q xs h)

  -- `q` counts all that `p` counts, and a row more.
  pub count_rows_lt :
      (p q : A → Bool) (xs : List A)
      → ((x : A) → p x ≡ true → q x ≡ true)
      → exists_row (λ x. q x && not (p x)) xs ≡ true
      → count_rows p xs < count_rows q xs
  unfolding exists_row count_rows
  count_rows_lt p q [] h e = cc
  count_rows_lt p q (x ∷ xs) h e =
      ground (arith, h x, count_rows_lt p q xs h, count_rows_le p q xs h)

  pub keep_all : (p : A → Bool) (xs : List A) → count_rows p xs ≡ 0 → keep (λ x. not (p x)) xs ≡ xs
  unfolding keep count_rows
  keep_all p [] h = refl
  keep_all p (x ∷ xs) h = ground (arith, keep_all p xs)

  pub keep_ext : (p q : A → Bool) (xs : List A) → ((x : A) → p x ≡ q x) → keep p xs ≡ keep q xs
  unfolding keep
  keep_ext p q [] h = refl
  keep_ext p q (x ∷ xs) h = ground (arith, h x, keep_ext p q xs h)

  pub keep-keep : (p q : A → Bool) (xs : List A) → keep p (keep q xs) ≡ keep (λ x. q x && p x) xs
  unfolding keep
  keep-keep p q [] = refl
  keep-keep p q (x ∷ xs) = ground (arith, keep-keep p q xs)

  pub length-keep : (p : A → Bool) (xs : List A) → length (keep p xs) ≡ count_rows p xs
  unfolding keep count_rows
  length-keep p [] = refl
  length-keep p (x ∷ xs) = ground (arith, length-keep p xs)

  pub exists_row-count : (p : A → Bool) (xs : List A) → exists_row p xs ≡ true → 0 < count_rows p xs
  unfolding exists_row count_rows
  exists_row-count p (x ∷ xs) h = ground (arith, exists_row-count p xs)
  exists_row-count p [] h = ground arith

eq_test_subst : (P : ℕ → Bool) (k j : ℕ) → (k == j && P j) ≡ (k == j && P k)
eq_test_subst P k j = elim (Bool-cases (k == j)) [
  | inl same ↦ let e : k ≡ j = ground arith in rw e
  | inr other ↦ rw other
]

-- A property of a key, asked of the rows with the key `k`.
pub exists_row_at {ℓ} :
    {A : Type ℓ} (f : A → ℕ) (P : ℕ → Bool) (k : ℕ) (xs : List A)
    → exists_row (λ x. k == f x && P (f x)) xs ≡ (exists_row (λ x. k == f x) xs && P k)
exists_row_at f P k xs =
    exists_row_and (λ x. k == f x && P (f x)) (λ x. k == f x) (P k) xs
      (λ x. eq_test_subst P k (f x))

pub keep-map {ℓ κ} :
    {A : Type ℓ} {B : Type κ} (p : A → Bool) (f : B → A) (xs : List B)
    → keep p (map f xs) ≡ map f (keep (λ x. p (f x)) xs)
unfolding keep
keep-map p f [] = refl
keep-map p f (x ∷ xs) = ground (arith, keep-map p f xs)

pub count_rows-map {ℓ κ} :
    {A : Type ℓ} {B : Type κ} (p : A → Bool) (f : B → A) (xs : List B)
    → count_rows p (map f xs) ≡ count_rows (λ x. p (f x)) xs
unfolding count_rows
count_rows-map p f [] = refl
count_rows-map p f (x ∷ xs) = ground (arith, count_rows-map p f xs)

pub exists_row-map {ℓ κ} :
    {A : Type ℓ} {B : Type κ} (p : A → Bool) (f : B → A) (xs : List B)
    → exists_row p (map f xs) ≡ exists_row (λ x. p (f x)) xs
unfolding exists_row
exists_row-map p f [] = refl
exists_row-map p f (x ∷ xs) = ground (arith, exists_row-map p f xs)

pub exists_row-map-keep {ℓ κ} :
    {A : Type ℓ} {B : Type κ} (p : A → Bool) (f : B → A) (q : B → Bool) (xs : List B)
    → exists_row p (map f (keep q xs)) ≡ exists_row (λ x. p (f x) && q x) xs
unfolding exists_row keep
exists_row-map-keep p f q [] = refl
exists_row-map-keep p f q (x ∷ xs) = ground (arith, exists_row-map-keep p f q xs)

-- A row that satisfies `p` satisfies `q`, and the constant `b` holds.
pub exists_row_mono_and {ℓ} :
    {A : Type ℓ} (p q : A → Bool) (b : Bool) (xs : List A)
    → ((x : A) → p x ≡ true → (q x && b) ≡ true)
    → exists_row p xs ≡ true
    → (exists_row q xs && b) ≡ true
unfolding exists_row
exists_row_mono_and p q b [] h e = cc
exists_row_mono_and p q b (x ∷ xs) h e = ground (arith, h x, exists_row_mono_and p q b xs h)

pub exists_row_single {ℓ} : {A : Type ℓ} (p : A → Bool) (x : A) → exists_row p (x ∷ []) ≡ p x
unfolding exists_row
exists_row_single p x = ground arith

-- `k IN xs`, for a list of numbers.
unfoldable pub member : ℕ → List ℕ → Bool
member k [] = false
member k (x ∷ xs) = k == x || member k xs

pub member-append : (k : ℕ) (xs ys : List ℕ) → member k (xs ++ ys) ≡ (member k xs || member k ys)
unfolding member
member-append k [] ys = refl
member-append k (x ∷ xs) ys = ground (arith, member-append k xs ys)

-- A number is among the values of a column when some row holds it.
pub member-map {ℓ} :
    {A : Type ℓ} (f : A → ℕ) (k : ℕ) (xs : List A)
    → member k (map f xs) ≡ exists_row (λ x. k == f x) xs
unfolding member exists_row
member-map f k [] = refl
member-map f k (x ∷ xs) = ground (arith, member-map f k xs)
