-- ===== src/Vault/Tests.antt =====
-- Logins on a table with two accounts.
use tca.Base.{ℕ, ◌≡◌, refl, Option, none, some, List, [], ◌∷◌, Text, codes}
use tca.Vault.{StoredAccount, stored, upsert_account, persist_session, no_session, load_session}
use tca.Vault.Persist.{PersistOutcome, persist_login}

-- An encryption that hides nothing, under one key.
abbrev encrypt : Text → Text → Text
encrypt key t = 1 ∷ t

abbrev decrypt : Text → Text → Option Text
decrypt key [] = none
decrypt key (c ∷ cs) = some cs

abbrev opens : (key t : Text) → decrypt key (encrypt key t) ≡ some t
opens key t = refl

abbrev account : ℕ → Text → StoredAccount
account i p = record {
  id = i;
  api_id = 7;
  api_hash_encrypted = encrypt (codes "key") (codes "hash");
  phone_number = some p;
  session_encrypted = none;
}

abbrev accounts : List StoredAccount
accounts = account 1 (codes "+41") ∷ account 4 (codes "+42") ∷ []

persist_login_example :
    PersistOutcome encrypt decrypt
      (codes "+42")
      (codes "session")
      (codes "key")
      accounts
      (upsert_account encrypt 8 (codes "other") (some (codes "+42")) (codes "key") accounts)
persist_login_example =
    persist_login encrypt decrypt opens 8 (codes "other") (codes "+42") (codes "session")
      (codes "key") accounts

-- A login with a known number updates its account, one with another number has a new one.
known :
    (upsert_account encrypt 8 (codes "other") (some (codes "+42")) (codes "key") accounts).0
    ≡ stored 4
unfolding upsert_account
known = refl

new :
    (upsert_account encrypt 8 (codes "other") (some (codes "+43")) (codes "key") accounts).0
    ≡ stored 5
unfolding upsert_account
new = refl

-- The account that did not log in has no session.
untouched :
    load_session decrypt 1
      (codes "key")
      (persist_session encrypt 4 (codes "session") (codes "key") accounts).1
    ≡ no_session
unfolding load_session persist_session
untouched = refl
