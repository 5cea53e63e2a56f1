-- ===== src/Vault/Sealed.antt =====
-- What a stored session changes in the rows of the accounts.
use tca.Base.{
  ℕ, ◌≡◌, refl, ap, ◌∙◌, inl, inr, Bool, true, false, Option, none, some, List, [], ◌∷◌, ◌++◌, map,
  arith, ◌==◌, ==_refl, if◌then◌else◌, is_some, keep, keep-map, keep_ext, exists_row, Bool-cases,
  find_row, Text, some_inj,
}
use tca.Vault.{
  StoredAccount, is_phone, no_row, one_row, one_or_none, account_id, id_of_rows, is_account_id,
  set_session, loaded,
}

-- What `load_session` reads of an account.
abbrev pub sealed_of : Option StoredAccount → Option (Option Text)
sealed_of none = none
sealed_of (some a) = some a.session_encrypted

pub loaded-sealed :
    (decrypt : Text → Text → Option Text) (key : Text) (o o' : Option StoredAccount)
    → sealed_of o ≡ sealed_of o'
    → loaded decrypt key o ≡ loaded decrypt key o'
loaded-sealed decrypt key none none h = refl
loaded-sealed decrypt key none (some b) h = cc
loaded-sealed decrypt key (some a) none h = cc
loaded-sealed decrypt key (some a) (some b) h = rw (some_inj h) refl

pub keep-map_same :
    (p : StoredAccount → Bool) (f : StoredAccount → StoredAccount) (xs : List StoredAccount)
    → ((a : StoredAccount) → p (f a) ≡ p a)
    → keep p (map f xs) ≡ map f (keep p xs)
keep-map_same p f xs h = keep-map p f xs ∙ ap (map f) (keep_ext (λ a. p (f a)) p xs h)

pub keep-snoc :
    (p : StoredAccount → Bool) (xs : List StoredAccount) (a : StoredAccount)
    → keep p (xs ++ a ∷ []) ≡ keep p xs ++ keep p (a ∷ [])
unfolding keep
keep-snoc p [] a = refl
keep-snoc p (x ∷ xs) a = elim (Bool-cases (p x)) [
  | inl e ↦ rw e (ap (λ (l : List StoredAccount). x ∷ l) (keep-snoc p xs a))
  | inr e ↦ rw e (keep-snoc p xs a)
]

module _ (i : ℕ) (sealed : Text) where
  pub sealed-set_session :
      (j : ℕ) (accounts : List StoredAccount)
      → sealed_of (find_row (is_account_id j) (map (set_session i sealed) accounts)) ≡ (
          if i == j
          then (if exists_row (is_account_id j) accounts then some (some sealed) else none)
          else sealed_of (find_row (is_account_id j) accounts))
  unfolding find_row exists_row
  sealed-set_session j [] = ground arith
  sealed-set_session j (a ∷ rest) = ground (arith, sealed-set_session j rest)

  pub there-set_session :
      (j : ℕ) (accounts : List StoredAccount)
      → is_some (find_row (is_account_id j) (map (set_session i sealed) accounts))
        ≡ exists_row (is_account_id j) accounts
  unfolding find_row exists_row
  there-set_session j [] = refl
  there-set_session j (a ∷ rest) = ground (arith, there-set_session j rest)

  pub phone-set_session :
      (p : Text) (a : StoredAccount) → is_phone p (set_session i sealed a) ≡ is_phone p a
  phone-set_session p a = elim (Bool-cases (i == a.id)) [ inl e ↦ rw e refl | inr e ↦ rw e refl ]

  id-set_session : (a : StoredAccount) → (set_session i sealed a).id ≡ a.id
  id-set_session a = ground arith

  pub ids-set_session :
      (rows : List StoredAccount)
      → id_of_rows (one_or_none (map (set_session i sealed) rows)) ≡ id_of_rows (one_or_none rows)
  ids-set_session [] = refl
  ids-set_session (a ∷ []) = ap account_id (id-set_session a)
  ids-set_session (a ∷ b ∷ rest) = refl

pub nil_of_no_row : (xs : List StoredAccount) → one_or_none xs ≡ no_row → xs ≡ []
nil_of_no_row [] h = refl
nil_of_no_row (x ∷ []) h = cc
nil_of_no_row (x ∷ y ∷ rest) h = cc

pub one_listed :
    (xs : List StoredAccount) (a : StoredAccount)
    → one_or_none xs ≡ one_row a
    → exists_row (is_account_id a.id) xs ≡ true
unfolding exists_row
one_listed [] a h = cc
one_listed (x ∷ []) a h = let e : x ≡ a = cc in rw e (ground (arith, ==_refl a.id))
one_listed (x ∷ y ∷ rest) a h = cc

pub find_row-snoc_other :
    (p : StoredAccount → Bool) (xs : List StoredAccount) (a : StoredAccount)
    → p a ≡ false
    → find_row p (xs ++ a ∷ []) ≡ find_row p xs
unfolding find_row
find_row-snoc_other p [] a h = ground arith
find_row-snoc_other p (x ∷ xs) a h = ground (arith, find_row-snoc_other p xs a h)
