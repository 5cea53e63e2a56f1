-- ===== src/Store/Unique.antt =====
-- Columns with distinct values: PRIMARY KEY and UNIQUE.
use tca.Base.{
  ℕ, ◌<◌, ◌≡◌, refl, ◌∙◌, inl, inr, Bool, true, false, List, [], ◌∷◌, ◌++◌, map, arith, Option,
  none, some, if◌then◌else◌, find_row, ◌==◌, Bool-cases, keep, member,
}
use tca.Base.Sort.{insert, sort, member-insert, member-sort}
use tca.Store.{next_id}

-- No number twice.
abbrev pub IsUnique : List ℕ → Type 0
IsUnique [] = Unit
IsUnique (x ∷ xs) = (member x xs ≡ false) × IsUnique xs

insert-IsUnique : (a : ℕ) (xs : List ℕ) → member a xs ≡ false → IsUnique xs → IsUnique (insert a xs)
unfolding insert member
insert-IsUnique a [] h u = (refl, tt)
insert-IsUnique a (x ∷ xs) h u = ground (arith, insert-IsUnique a xs, member-insert x a xs)

pub sort-IsUnique : (xs : List ℕ) → IsUnique xs → IsUnique (sort xs)
unfolding sort
sort-IsUnique [] u = tt
sort-IsUnique (x ∷ xs) u =
    insert-IsUnique x (sort xs) (member-sort x xs ∙ u.0) (sort-IsUnique xs u.1)

-- A new value at the end.
pub append-IsUnique :
    (xs : List ℕ) (a : ℕ) → member a xs ≡ false → IsUnique xs → IsUnique (xs ++ a ∷ [])
unfolding member
append-IsUnique [] a h u = (refl, tt)
append-IsUnique (x ∷ xs) a h u =
    (ground (arith, member-snoc x xs), append-IsUnique xs a (ground arith) u.1)
  where
    member-snoc :
        (k : ℕ) (ys : List ℕ) → member k (ys ++ a ∷ []) ≡ true → (member k ys ≡ false) → k ≡ a
    member-snoc k [] m n = ground arith
    member-snoc k (y ∷ ys) m n = ground (arith, member-snoc k ys)

member-next_id : (k : ℕ) (xs : List ℕ) → member k xs ≡ true → k < next_id xs
unfolding member next_id
member-next_id k [] h = cc
member-next_id k (x ∷ xs) h = ground (arith, member-next_id k xs)

-- A key that SQLite gives is new.
pub next_id-new : (xs : List ℕ) → member (next_id xs) xs ≡ false
next_id-new xs = elim (Bool-cases (member (next_id xs) xs)) [
  | inl e ↦ absurd (omega (arith, member-next_id (next_id xs) xs e))
  | inr e ↦ e
]

module _ {ℓ} {A : Type ℓ} (key : A → ℕ) where
  member-map-keep :
      (p : A → Bool) (c : ℕ) (rows : List A)
      → member c (map key rows) ≡ false
      → member c (map key (keep p rows)) ≡ false
  unfolding keep member
  member-map-keep p c [] h = refl
  member-map-keep p c (r ∷ rs) h = ground (arith, member-map-keep p c rs)

  pub keep-IsUnique :
      (p : A → Bool) (rows : List A) → IsUnique (map key rows) → IsUnique (map key (keep p rows))
  unfolding keep
  keep-IsUnique p [] u = tt
  keep-IsUnique p (r ∷ rs) u = elim (Bool-cases (p r)) [
    | inl e ↦ rw e (member-map-keep p (key r) rs u.0, keep-IsUnique p rs u.1)
    | inr e ↦ rw e (keep-IsUnique p rs u.1)
  ]

  -- An update that keeps the keys.
  pub map-map_key :
      (f : A → A) (rows : List A)
      → ((a : A) → key (f a) ≡ key a)
      → map key (map f rows) ≡ map key rows
  map-map_key f [] h = refl
  map-map_key f (r ∷ rs) h = rw (h r, map-map_key f rs h) refl

-- What a filter leaves of a row that was found.
abbrev pub kept {ℓ} : {A : Type ℓ} → (A → Bool) → Option A → Option A
kept p none = none
kept p (some x) = if p x then some x else none

module _ {ℓ} {A : Type ℓ} (key : A → ℕ) where
  abbrev pub at_key : ℕ → A → Bool
  at_key k x = k == key x

  find_row-none :
      (k : ℕ) (xs : List A) → member k (map key xs) ≡ false → find_row (at_key k) xs ≡ none
  unfolding find_row member
  find_row-none k [] h = refl
  find_row-none k (x ∷ xs) h = ground (arith, find_row-none k xs)

  -- A filter keeps or drops the row with a key, when the keys are distinct.
  pub find_row-keep_unique :
      (p : A → Bool) (k : ℕ) (xs : List A)
      → IsUnique (map key xs)
      → find_row (at_key k) (keep p xs) ≡ kept p (find_row (at_key k) xs)
  unfolding find_row keep
  find_row-keep_unique p k [] u = refl
  find_row-keep_unique p k (x ∷ xs) u = elim (Bool-cases (k == key x)) [
    | inl here ↦
        let eq : k ≡ key x = ground arith in
        let gone = find_row-none k (keep p xs) (member-map-keep key p k xs (rw eq u.0)) in
        elim (Bool-cases (p x)) [
          | inl e ↦ rw (e, here, e) refl
          | inr e ↦ rw (e, here, e, gone) refl
        ]
    | inr other ↦ elim (Bool-cases (p x)) [
      | inl e ↦ rw (e, other) (find_row-keep_unique p k xs u.1)
      | inr e ↦ rw (e, other) (find_row-keep_unique p k xs u.1)
    ]
  ]
