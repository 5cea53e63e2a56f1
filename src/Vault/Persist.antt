-- ===== src/Vault/Persist.antt =====
-- A login that is persisted is found by its phone number and loaded again.
use tca.Base.{
  ℕ, ◌≡◌, refl, ap, ◌∙◌, inl, inr, Bool, true, false, ◌||◌, Option, none, some, List, [], ◌∷◌, ◌++◌,
  map, arith, ◌==◌, ==_refl, keep, exists_row, exists_row-map, exists_row_ext, Bool-cases, find_row,
  Text, same_refl, some_inj,
}
use tca.Store.Keys.{exists_row-keep_le, exists_row-snoc}
use tca.Vault.{
  StoredAccount, is_phone, Rows, no_row, multiple_rows, one_row, one_or_none, Stored, stored,
  ambiguous, account_id, ambiguous_phone, id_of_rows, get_account_id_by_phone_number, is_account_id,
  set_session, set_credentials, new_account, upsert_rows, upsert_account, persist_session, session,
  loaded, load_session,
}
use tca.Vault.Sealed.{
  sealed_of, loaded-sealed, keep-map_same, keep-snoc, sealed-set_session, there-set_session,
  phone-set_session, ids-set_session, nil_of_no_row, one_listed, find_row-snoc_other,
}

-- The phone number's account, and what is loaded, after the columns of credentials were written.
module _ (encrypt : Text → Text → Text) (api : ℕ) (api_hash p key : Text) where
  abbrev credentials : StoredAccount → StoredAccount
  credentials = set_credentials encrypt api api_hash p key

  keeps_others :
      (a : StoredAccount)
      → ((credentials a).id ≡ a.id)
        × ((credentials a).session_encrypted ≡ a.session_encrypted)
        × (is_phone p (credentials a) ≡ is_phone p a)
  keeps_others a = elim (Bool-cases (is_phone p a)) [
    | inl e ↦ rw e (refl, refl, e)
    | inr e ↦ rw e (refl, refl, e)
  ]

  sealed-credentials :
      (j : ℕ) (accounts : List StoredAccount)
      → sealed_of (find_row (is_account_id j) (map credentials accounts))
        ≡ sealed_of (find_row (is_account_id j) accounts)
  unfolding find_row
  sealed-credentials j [] = refl
  sealed-credentials j (a ∷ rest) = ground (arith, sealed-credentials j rest, keeps_others a)

  ids-credentials :
      (rows : List StoredAccount)
      → id_of_rows (one_or_none (map credentials rows)) ≡ id_of_rows (one_or_none rows)
  ids-credentials [] = refl
  ids-credentials (a ∷ []) = let (e, _, _) = keeps_others a in ap account_id e
  ids-credentials (a ∷ b ∷ rest) = refl

  exists-credentials :
      (j : ℕ) (accounts : List StoredAccount)
      → exists_row (is_account_id j) (map credentials accounts)
        ≡ exists_row (is_account_id j) accounts
  exists-credentials j accounts =
      exists_row-map (is_account_id j) credentials accounts
      ∙ exists_row_ext (λ a. is_account_id j (credentials a)) (is_account_id j) accounts
          (λ a. let (e, _, _) = keeps_others a in ap (λ k. j == k) e)

  abbrev fresh : List StoredAccount → StoredAccount
  fresh accounts = new_account encrypt api api_hash (some p) key accounts

  -- After an upsert that names an account, the account is there, is the phone number's only one, and the
  -- sessions of the others are as before.
  abbrev Upserted : List StoredAccount → Stored × List StoredAccount → Type 0
  Upserted accounts (ambiguous, accounts') =
      (get_account_id_by_phone_number p accounts ≡ ambiguous_phone) × (accounts' ≡ accounts)
  Upserted accounts (stored i, accounts') =
      (get_account_id_by_phone_number p accounts' ≡ account_id i)
      × (exists_row (is_account_id i) accounts' ≡ true)
      × ((j : ℕ)
          → (i == j) ≡ false
          → sealed_of (find_row (is_account_id j) accounts')
            ≡ sealed_of (find_row (is_account_id j) accounts))

  upsert_rows_lem :
      (accounts : List StoredAccount) (o : Rows)
      → one_or_none (keep (is_phone p) accounts) ≡ o
      → Upserted accounts (upsert_rows encrypt api api_hash p key accounts o)
  unfolding get_account_id_by_phone_number
  upsert_rows_lem accounts multiple_rows e = (rw e refl, refl)
  upsert_rows_lem accounts (one_row a) e = (
    ap (λ l. id_of_rows (one_or_none l))
          (keep-map_same (is_phone p) credentials accounts
            (λ x. let (_, _, same_phone) = keeps_others x in same_phone))
        ∙ ids-credentials (keep (is_phone p) accounts)
        ∙ ap id_of_rows e,
    exists-credentials a.id accounts
        ∙ exists_row-keep_le (is_account_id a.id) (is_phone p) accounts
            (one_listed (keep (is_phone p) accounts) a e),
    λ j h. sealed-credentials j accounts,
  )
  upsert_rows_lem accounts no_row e = (
    ap (λ l. id_of_rows (one_or_none l))
          (keep-snoc (is_phone p) accounts (fresh accounts)
            ∙ ap (λ l. l ++ keep (is_phone p) (fresh accounts ∷ []))
                (nil_of_no_row (keep (is_phone p) accounts) e))
        ∙ only_new,
    exists_row-snoc (is_account_id (fresh accounts).id) accounts (fresh accounts)
        ∙ or_true (exists_row (is_account_id (fresh accounts).id) accounts)
            (==_refl (fresh accounts).id),
    λ j h. ap sealed_of (
        find_row-snoc_other (is_account_id j) accounts (fresh accounts)
          (other_way (fresh accounts).id j h)),
  )
    where
      or_true : (a : Bool) {b : Bool} → b ≡ true → (a || b) ≡ true
      or_true a h = ground arith

      other_way : (i j : ℕ) → (i == j) ≡ false → (j == i) ≡ false
      other_way i j h = ground arith

      only_new :
          id_of_rows (one_or_none (keep (is_phone p) (fresh accounts ∷ [])))
          ≡ account_id (fresh accounts).id
      only_new = unfold keep in rw (same_refl p) refl

-- What a login leaves after its account was stored and its session `t` persisted under the same key.
abbrev pub PersistOutcome :
    (Text → Text → Text)
    → (Text → Text → Option Text)
    → Text
    → Text
    → Text
    → List StoredAccount
    → Stored × List StoredAccount
    → Type 0
PersistOutcome encrypt decrypt p t key before (ambiguous, accounts) =
    (get_account_id_by_phone_number p before ≡ ambiguous_phone) × (accounts ≡ before)
PersistOutcome encrypt decrypt p t key before (stored i, accounts) =
    let (there, accounts') = persist_session encrypt i t key accounts in
    (there ≡ true)
    × (get_account_id_by_phone_number p accounts' ≡ account_id i)
    × (load_session decrypt i key accounts' ≡ session t)
    × ((j : ℕ) (other : Text)
        → (i == j) ≡ false
        → load_session decrypt j other accounts' ≡ load_session decrypt j other before)

module _ (encrypt : Text → Text → Text) (decrypt : Text → Text → Option Text)
    (opens : (key t : Text) → decrypt key (encrypt key t) ≡ some t) where
  loaded_of :
      (key t : Text) (o : Option StoredAccount)
      → sealed_of o ≡ some (some (encrypt key t))
      → loaded decrypt key o ≡ session t
  loaded_of key t none h = cc
  loaded_of key t (some a) h = rw (some_inj h) (rw (opens key t) refl)

  persisted :
      (api : ℕ) (api_hash p t key : Text) (before : List StoredAccount)
      (r : Stored × List StoredAccount)
      → Upserted encrypt api api_hash p key before r
      → PersistOutcome encrypt decrypt p t key before r
  unfolding persist_session load_session get_account_id_by_phone_number
  persisted api api_hash p t key before (ambiguous, accounts) h = h
  persisted api api_hash p t key before (stored i, accounts) (phone, there, others) = (
    there-set_session i sealed i accounts ∙ there,
    ap (λ l. id_of_rows (one_or_none l))
          (keep-map_same (is_phone p) (set_session i sealed) accounts
            (phone-set_session i sealed p))
        ∙ ids-set_session i sealed (keep (is_phone p) accounts)
        ∙ phone,
    loaded_of key t (find_row (is_account_id i) (map (set_session i sealed) accounts))
        (sealed-set_session i sealed i accounts ∙ rw (==_refl i, there) refl),
    λ j other h.
        loaded-sealed decrypt other _ _
          (sealed-set_session i sealed j accounts ∙ rw h (others j h)),
  )
    where
      sealed : Text
      sealed = encrypt key t

  -- When decryption under a key opens what was encrypted under it, storing the account of a phone
  -- number and then its session fails and changes nothing if several accounts have the number;
  -- else the number's only account is the one whose id is returned, loading its session under the
  -- same key gives the session back, and what loading any other account gives, under any key, is
  -- as before.
  pub persist_login :
      (api : ℕ) (api_hash p t key : Text) (accounts : List StoredAccount)
      → PersistOutcome encrypt decrypt p t key accounts
          (upsert_account encrypt api api_hash (some p) key accounts)
  unfolding upsert_account
  persist_login api api_hash p t key accounts =
      persisted api api_hash p t key accounts
        (upsert_rows encrypt api api_hash p key accounts (one_or_none (keep (is_phone p) accounts)))
        (upsert_rows_lem encrypt api api_hash p key accounts
          (one_or_none (keep (is_phone p) accounts)) refl)
