-- ===== src/Candidates/Order.antt =====
-- The first rows in the order of their ids.
use tca.Base.{
  ℕ, zero, suc, ◌≤◌, ◌≡◌, refl, sym, ap, ◌∙◌, ◌⊎◌, inl, inr, Bool, true, false, ◌&&◌, List, [], ◌∷◌,
  map, arith, leb, ◌==◌, keep, take, length, All, exists_row, order_rows, insert_row, member,
  Bool-cases,
}
use tca.Base.Sort.{insert, sort}
use tca.Candidates.{ItemRow}

-- In increasing order.
abbrev pub IsAscending : List ℕ → Type 0
IsAscending [] = Unit
IsAscending (x ∷ xs) = All (λ y. x ≤ y) xs × IsAscending xs

All-insert : (m a : ℕ) (xs : List ℕ) → m ≤ a → All (λ y. m ≤ y) xs → All (λ y. m ≤ y) (insert a xs)
unfolding insert
All-insert m a [] h all = (h, tt)
All-insert m a (x ∷ xs) h all = elim (Bool-cases (leb a x)) [
  | inl e ↦ rw e (h, all)
  | inr e ↦ rw e (all.0, All-insert m a xs h all.1)
]

All-le_trans : (a b : ℕ) (xs : List ℕ) → a ≤ b → All (λ y. b ≤ y) xs → All (λ y. a ≤ y) xs
All-le_trans a b [] h all = tt
All-le_trans a b (x ∷ xs) h all = (omega arith, All-le_trans a b xs h all.1)

insert-IsAscending : (a : ℕ) (xs : List ℕ) → IsAscending xs → IsAscending (insert a xs)
unfolding insert
insert-IsAscending a [] h = (tt, tt)
insert-IsAscending a (x ∷ xs) h = elim (Bool-cases (leb a x)) [
  | inl e ↦ rw e ((ground arith, All-le_trans a x xs (ground arith) h.0), h)
  | inr e ↦ rw e (All-insert x a xs (ground arith) h.0, insert-IsAscending a xs h.1)
]

pub sort-IsAscending : (xs : List ℕ) → IsAscending (sort xs)
unfolding sort
sort-IsAscending [] = tt
sort-IsAscending (x ∷ xs) = insert-IsAscending x (sort xs) (sort-IsAscending xs)

All-take : (m n : ℕ) (xs : List ℕ) → All (λ y. m ≤ y) xs → All (λ y. m ≤ y) (take n xs)
All-take m zero xs h = tt
All-take m (suc n) [] h = tt
All-take m (suc n) (x ∷ xs) h = (h.0, All-take m n xs h.1)

pub take-IsAscending : (n : ℕ) (xs : List ℕ) → IsAscending xs → IsAscending (take n xs)
take-IsAscending zero xs h = tt
take-IsAscending (suc n) [] h = tt
take-IsAscending (suc n) (x ∷ xs) h = (All-take x n xs h.0, take-IsAscending n xs h.1)

All-member : (m k : ℕ) (xs : List ℕ) → All (λ y. m ≤ y) xs → member k xs ≡ true → m ≤ k
unfolding member
All-member m k [] all h = cc
All-member m k (x ∷ xs) all h = elim (Bool-cases (k == x)) [
  | inl e ↦ ground (arith, all.0)
  | inr e ↦ All-member m k xs all.1 (sym (rw e refl) ∙ h)
]

-- Whether a key is among the first ones of a list, or why it is not.
abbrev pub IsPlaced : ℕ → ℕ → Bool → List ℕ → Type 0
IsPlaced n k there ids =
    ((member k ids ≡ true) × (there ≡ true))
    ⊎ ((member k ids ≡ false) × ((there ≡ false) ⊎ ((length ids ≡ n) × All (λ i. i ≤ k) ids)))

pub take-IsPlaced :
    (n k : ℕ) (xs : List ℕ) → IsAscending xs → IsPlaced n k (member k xs) (take n xs)
unfolding member
take-IsPlaced zero k xs h = inr (refl, inr (refl, tt))
take-IsPlaced (suc n) k [] h = inr (refl, inl refl)
take-IsPlaced (suc n) k (x ∷ xs) h = elim (Bool-cases (k == x)) [
  | inl e ↦ rw e (inl (refl, refl))
  | inr e ↦ rw e (elim (take-IsPlaced n k xs h.1) [
    | inl there ↦ inl there
    | inr (out, inl absent) ↦ inr (out, inl absent)
    | inr (out, inr (full, all)) ↦ elim (Bool-cases (member k xs)) [
      | inl m ↦ inr (out, inr (ap suc full, (All-member x k xs h.0 m, all)))
      | inr m ↦ inr (out, inl m)
    ]
  ])
]

map-insert_row :
    (r : ItemRow) (rs : List ItemRow)
    → map (λ (s : ItemRow). s.id) (insert_row (λ s. s.id) r rs)
      ≡ insert r.id (map (λ (s : ItemRow). s.id) rs)
unfolding insert_row insert
map-insert_row r [] = refl
map-insert_row r (s ∷ rs) = elim (Bool-cases (leb r.id s.id)) [
  | inl e ↦ rw e refl
  | inr e ↦ rw e (ap (λ (l : List ℕ). s.id ∷ l) (map-insert_row r rs))
]

pub map-order_rows :
    (rs : List ItemRow)
    → map (λ (s : ItemRow). s.id) (order_rows (λ s. s.id) rs)
      ≡ sort (map (λ (s : ItemRow). s.id) rs)
unfolding order_rows sort
map-order_rows [] = refl
map-order_rows (r ∷ rs) =
    map-insert_row r (order_rows (λ s. s.id) rs) ∙ ap (insert r.id) (map-order_rows rs)

pub map-take :
    (n : ℕ) (rs : List ItemRow)
    → map (λ (s : ItemRow). s.id) (take n rs) ≡ take n (map (λ (s : ItemRow). s.id) rs)
map-take zero rs = refl
map-take (suc n) [] = refl
map-take (suc n) (r ∷ rs) = ap (λ (l : List ℕ). r.id ∷ l) (map-take n rs)

pub member-keep :
    (k : ℕ) (p q : ItemRow → Bool) (rs : List ItemRow)
    → ((r : ItemRow) → p r ≡ q r)
    → member k (map (λ (s : ItemRow). s.id) (keep p rs)) ≡ exists_row (λ r. k == r.id && q r) rs
unfolding member keep exists_row
member-keep k p q [] h = refl
member-keep k p q (r ∷ rs) h = elim (Bool-cases (p r)) [
  | inl e ↦ rw (e, sym (h r)) (rw e (ground (arith, member-keep k p q rs h)))
  | inr e ↦ rw (e, sym (h r)) (rw e (ground (arith, member-keep k p q rs h)))
]
