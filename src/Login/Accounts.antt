-- ===== src/Login/Accounts.antt =====
-- What the end of both verifications leaves of the accounts.
use tca.Base.{
  ℕ, ◌≡◌, refl, sym, ap, ◌∙◌, ◌⊎◌, inl, inr, Bool, true, false, Option, none, some, List, [], ◌∷◌,
  Text, same,
}
use tca.AuthSessions.{
  authenticated, AuthSessionState, Lookup, found, missing, expired, update_status,
}
use tca.Vault.{
  StoredAccount, Stored, stored, ambiguous, account_id, AccountId, no_account, ambiguous_phone,
  get_account_id_by_phone_number, upsert_account, persist_session, session, load_session, Keyring,
  key_from, resolve_key_encryption_key, salt_of,
}
use tca.Vault.Persist.{PersistOutcome, persist_login}
use tca.Login.{
  PhoneError, LoginState, noted, record_auth_failure, breach_for, breach_of_phone, failure_answer,
}
use tca.Login.Verify.{
  Credentials, updated_answer, persist_account, authenticate_with, authenticate_text,
}

-- The key of an unlocked process, and of a locked one.
module _ (derive : Text → Text → Text) (new : Text) (ring : Keyring) where
  resolve-unlocked :
      (secret : Text)
      → ring.unlock.unlock_secret ≡ some secret
      → resolve_key_encryption_key derive new ring ≡ (
        some (derive secret (salt_of new ring.salt)),
        record ring { salt = some (salt_of new ring.salt) },
      )
  unfolding resolve_key_encryption_key
  resolve-unlocked secret h = ap (key_from derive new ring) h

  resolve-locked :
      ring.unlock.unlock_secret ≡ none → resolve_key_encryption_key derive new ring ≡ (none, ring)
  unfolding resolve_key_encryption_key
  resolve-locked h = ap (key_from derive new ring) h

module _ (encrypt : Text → Text → Text) (decrypt : Text → Text → Option Text)
    (opens : (key t : Text) → decrypt key (encrypt key t) ≡ some t)
    (derive : Text → Text → Text) where
  -- The account of the phone number was stored with the login's session, which the process's key opens.
  abbrev pub IsStored : Credentials → Text → Text → Text → LoginState → LoginState → Type 0
  IsStored c phone salt secret s s' =
      (s.keyring.unlock.unlock_secret ≡ some secret)
      × (same c.session_string [] ≡ false)
      × ((i : ℕ) × (get_account_id_by_phone_number phone s'.accounts ≡ account_id i)
          × (load_session decrypt i (derive secret (salt_of salt s.keyring.salt)) s'.accounts
              ≡ session c.session_string))

  abbrev pub AccountsOutcome : Credentials → Text → Text → LoginState → LoginState → Type 0
  AccountsOutcome c phone salt s s' =
      (s'.accounts ≡ s.accounts) ⊎ ((secret : Text) × IsStored c phone salt secret s s')

  pub updated-accounts :
      (s : LoginState) (r : Lookup × List AuthSessionState)
      → (updated_answer s r).1.accounts ≡ s.accounts
  updated-accounts s (found row, rows) = refl
  updated-accounts s (missing, rows) = refl
  updated-accounts s (expired, rows) = refl

  module _ (c : Credentials) (phone salt : Text) (telegram : Option (Option Text)) (now : ℕ)
      (s : LoginState) where
    stored_accounts :
        (key secret : Text) (ring : Keyring)
        → s.keyring.unlock.unlock_secret ≡ some secret
        → key ≡ derive secret (salt_of salt s.keyring.salt)
        → same c.session_string [] ≡ false
        → (r : Stored × List StoredAccount)
        → PersistOutcome encrypt decrypt phone c.session_string key s.accounts r
        → AccountsOutcome c phone salt s
            (authenticate_with encrypt derive c.session_id telegram now (
              persist_account encrypt derive c.session_string key
                (record s { keyring = ring })
                r)).1
    stored_accounts key secret ring open_ e nonempty (ambiguous, accounts) h = inl refl
    stored_accounts key secret ring open_ e nonempty (stored i, accounts)
          (there, phone_found, loads, others) =
        let s' = record s {
          keyring = ring;
          accounts = (persist_session encrypt i c.session_string key accounts).1;
        } in
        let untouched =
          updated-accounts s' (update_status c.session_id authenticated telegram now s.sessions) in
        inr (
          secret,
          (
            open_,
            nonempty,
            (
              i,
              ap (get_account_id_by_phone_number phone) untouched ∙ phone_found,
              ap (load_session decrypt i (derive secret (salt_of salt s.keyring.salt))) untouched
                  ∙ rw (sym e) loads,
            ),
          ),
        )

  -- The end of both handlers.
  module _ (c : Credentials) (phone salt : Text) (telegram : Option (Option Text)) (now : ℕ)
      (s : LoginState) where
    pub text_accounts :
        (t : Text) (o : Option Text)
        → c.session_string ≡ t
        → s.keyring.unlock.unlock_secret ≡ o
        → AccountsOutcome c phone salt s
            (authenticate_text encrypt derive t c phone salt telegram now s).1
    text_accounts [] o e h = inl refl
    text_accounts (x ∷ xs) none e h = rw (resolve-locked derive salt s.keyring h) (inl refl)
    text_accounts (x ∷ xs) (some secret) e h =
        rw (resolve-unlocked derive salt s.keyring secret h) (
          stored_accounts c phone salt telegram now s key secret
            (record s.keyring { salt = some (salt_of salt s.keyring.salt) }) h refl
            (rw e (unfold same in refl))
            (upsert_account encrypt c.api_id c.api_hash (some phone) key s.accounts)
            (persist_login encrypt decrypt opens c.api_id c.api_hash phone c.session_string key
              s.accounts))
      where
        key : Text
        key = derive secret (salt_of salt s.keyring.salt)

  failed-accounts :
      (e : PhoneError) (s : LoginState) (r : Bool × LoginState)
      → r.1.accounts ≡ s.accounts
      → (failure_answer e r).1.accounts ≡ s.accounts
  failed-accounts e s (true, s') h = h
  failed-accounts e s (false, s') h = h

  breach-accounts :
      (now : ℕ) (s : LoginState) (a : AccountId) → (breach_for now s a).1.accounts ≡ s.accounts
  breach-accounts now s no_account = refl
  breach-accounts now s ambiguous_phone = refl
  breach-accounts now s (account_id i) = refl

  pub failure-accounts :
      (e : PhoneError) (phone : Text) (now : ℕ) (s : LoginState)
      → (record_auth_failure e phone now s).1.accounts ≡ s.accounts
  unfolding record_auth_failure
  failure-accounts e [] now s = failed-accounts e s (breach_of_phone [] now (noted e s)) refl
  failure-accounts e (x ∷ xs) now s =
      failed-accounts e s (breach_of_phone (x ∷ xs) now (noted e s))
        (breach-accounts now (noted e s) (get_account_id_by_phone_number (x ∷ xs) s.accounts))
