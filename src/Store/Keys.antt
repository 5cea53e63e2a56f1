-- ===== src/Store/Keys.antt =====
-- Columns of keys and of references: what a new row, a changed row and a filter leave of them.
use tca.Base.{
  ℕ, ◌≡◌, refl, sym, ap, ◌∙◌, inl, inr, Bool, true, false, not, ◌&&◌, ◌||◌, List, [], ◌∷◌, ◌++◌,
  map, arith, ◌==◌, keep, exists_row, exists_row-append, exists_row-map, exists_row-keep,
  exists_row_ext, exists_row_single, exists_row-keep_const, exists_row_mono, member-map, Bool-cases,
}
use tca.Store.{next_id}
use tca.Store.Unique.{IsUnique, append-IsUnique, next_id-new}

map-append {ℓ} :
    {A : Type ℓ} (f : A → ℕ) (xs : List A) (x : A) → map f (xs ++ x ∷ []) ≡ map f xs ++ f x ∷ []
map-append f [] x = refl
map-append f (y ∷ ys) x = ap (λ (l : List ℕ). f y ∷ l) (map-append f ys x)

-- A column that stays distinct with a new row.
pub new-IsUnique {ℓ} :
    {A : Type ℓ} (f : A → ℕ) (xs : List A) (x : A)
    → exists_row (λ y. f x == f y) xs ≡ false
    → IsUnique (map f xs)
    → IsUnique (map f (xs ++ x ∷ []))
new-IsUnique f xs x h u =
    rw (map-append f xs x) (append-IsUnique (map f xs) (f x) (member-map f (f x) xs ∙ h) u)

pub exists_row-snoc {ℓ} :
    {A : Type ℓ} (p : A → Bool) (xs : List A) (x : A)
    → exists_row p (xs ++ x ∷ []) ≡ (exists_row p xs || p x)
exists_row-snoc p xs x =
    exists_row-append p xs (x ∷ []) ∙ ap (λ b. exists_row p xs || b) (exists_row_single p x)

pub exists_row-keep_le {ℓ} :
    {A : Type ℓ} (p q : A → Bool) (xs : List A)
    → exists_row p (keep q xs) ≡ true
    → exists_row p xs ≡ true
exists_row-keep_le p q xs h =
    exists_row_mono (λ x. p x && q x) p xs (λ x. ground arith) (sym (exists_row-keep p q xs) ∙ h)

-- The references from a column, with a new row.
pub new_reference {ℓ} :
    {A : Type ℓ} (f : A → ℕ) (there : ℕ → Bool) (xs : List A) (x : A)
    → ((k : ℕ) → exists_row (λ y. k == f y) xs ≡ true → there k ≡ true)
    → there (f x) ≡ true
    → (k : ℕ) → exists_row (λ y. k == f y) (xs ++ x ∷ []) ≡ true
    → there k ≡ true
new_reference f there xs x old new k h = elim (Bool-cases (k == f x)) [
  | inl here ↦ let e : k ≡ f x = ground arith in rw e new
  | inr other ↦ old k (ground (arith, exists_row-snoc (λ y. k == f y) xs x))
]

-- The rows with the key `k`, when those with the key `i` are gone.
pub without_key {ℓ} :
    {A : Type ℓ} (f : A → ℕ) (i k : ℕ) (xs : List A)
    → exists_row (λ x. k == f x) (keep (λ x. not (i == f x)) xs)
      ≡ (exists_row (λ x. k == f x) xs && not (i == k))
without_key f i k xs =
    exists_row-keep_const (λ x. k == f x) (λ x. not (i == f x)) (not (i == k)) xs
      (λ x h. let e : k ≡ f x = ground arith in rw e refl)

pub fresh_key {ℓ} :
    {A : Type ℓ} (f : A → ℕ) (xs : List A) → exists_row (λ x. next_id (map f xs) == f x) xs ≡ false
fresh_key f xs = sym (member-map f (next_id (map f xs)) xs) ∙ next_id-new (map f xs)

-- A row that is changed but keeps its key.
pub kept_key {ℓ} :
    {A : Type ℓ} (key : A → ℕ) (f : A → A) (xs : List A)
    → ((a : A) → key (f a) ≡ key a)
    → (k : ℕ) → exists_row (λ x. k == key x) (map f xs) ≡ exists_row (λ x. k == key x) xs
kept_key key f xs e k =
    exists_row-map (λ x. k == key x) f xs
    ∙ exists_row_ext (λ x. k == key (f x)) (λ x. k == key x) xs (λ x. ap (λ j. k == j) (e x))
