-- ===== src/Candidates/Members.antt =====
-- The rows of a table and of what a query makes of it.
use tca.Base.{
  zero, suc, ◌≡◌, refl, sym, ap, ◌∙◌, inl, inr, Bool, true, false, List, [], ◌∷◌, ℕ, arith, leb,
  keep, take, IsIn, exists_row, insert_row, order_rows, if◌then◌else◌, Bool-cases,
}
use tca.Candidates.{ItemRow}

pub exists_row-IsIn :
    {A : Type 0} (p : A → Bool) (xs : List A)
    → exists_row p xs ≡ true
    → (a : A) × IsIn a xs × (p a ≡ true)
unfolding exists_row
exists_row-IsIn p [] h = cc
exists_row-IsIn p (x ∷ xs) h = elim (Bool-cases (p x)) [
  | inl e ↦ (x, inl refl, e)
  | inr e ↦ let (a, i, t) = exists_row-IsIn p xs (sym (rw e refl) ∙ h) in (a, inr i, t)
]

pub IsIn-exists_row :
    {A : Type 0} (p : A → Bool) (a : A) (xs : List A)
    → IsIn a xs
    → p a ≡ true
    → exists_row p xs ≡ true
unfolding exists_row
IsIn-exists_row p a [] i h = absurd i
IsIn-exists_row p a (x ∷ xs) (inl e) h = rw (sym e, h) refl
IsIn-exists_row p a (x ∷ xs) (inr i) h = ground (arith, IsIn-exists_row p a xs i h)

pub IsIn-take : (n : ℕ) (r : ItemRow) (rs : List ItemRow) → IsIn r (take n rs) → IsIn r rs
IsIn-take zero r rs h = absurd h
IsIn-take (suc n) r [] h = h
IsIn-take (suc n) r (s ∷ rs) (inl e) = inl e
IsIn-take (suc n) r (s ∷ rs) (inr h) = inr (IsIn-take n r rs h)

IsIn-insert_row :
    (r s : ItemRow) (rs : List ItemRow) → IsIn r (insert_row (λ x. x.id) s rs) → IsIn r (s ∷ rs)
unfolding insert_row
IsIn-insert_row r s [] h = h
IsIn-insert_row r s (t ∷ rs) h = placed (IsIn-insert_row r s rs) (leb s.id t.id) h
  where
    placed :
        (IsIn r (insert_row (λ x. x.id) s rs) → IsIn r (s ∷ rs))
        → (b : Bool) → IsIn r (if b then s ∷ t ∷ rs else t ∷ insert_row (λ x. x.id) s rs)
        → IsIn r (s ∷ t ∷ rs)
    placed later true i = i
    placed later false (inl e) = inr (inl e)
    placed later false (inr i) = elim (later i) [ inl e ↦ inl e | inr j ↦ inr (inr j) ]

pub IsIn-order_rows :
    (r : ItemRow) (rs : List ItemRow) → IsIn r (order_rows (λ x. x.id) rs) → IsIn r rs
unfolding order_rows
IsIn-order_rows r [] h = h
IsIn-order_rows r (s ∷ rs) h = elim (IsIn-insert_row r s (order_rows (λ x. x.id) rs) h) [
  | inl e ↦ inl e
  | inr i ↦ inr (IsIn-order_rows r rs i)
]

pub IsIn-keep :
    (p : ItemRow → Bool) (r : ItemRow) (rs : List ItemRow)
    → IsIn r (keep p rs)
    → IsIn r rs × (p r ≡ true)
unfolding keep
IsIn-keep p r [] h = absurd h
IsIn-keep p r (s ∷ rs) h = kept_ (IsIn-keep p r rs) (p s) refl h
  where
    kept_ :
        (IsIn r (keep p rs) → IsIn r rs × (p r ≡ true))
        → (b : Bool) → p s ≡ b
        → IsIn r (if b then s ∷ keep p rs else keep p rs)
        → IsIn r (s ∷ rs) × (p r ≡ true)
    kept_ later true e (inl f) = (inl f, ap p f ∙ e)
    kept_ later true e (inr i) = let (j, t) = later i in (inr j, t)
    kept_ later false e i = let (j, t) = later i in (inr j, t)
