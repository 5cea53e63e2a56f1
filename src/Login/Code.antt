-- ===== src/Login/Code.antt =====
-- When the verification of a code stores an account.
use tca.Base.{ℕ, ◌≡◌, refl, ◌⊎◌, inl, inr, false, Option, none, some, List, [], ◌∷◌, find_row, Text}
use tca.Secrets.{get_sensitive_operation_secret}
use tca.AuthSessions.{
  AuthStatus, code_sent, password_required, authenticated, AuthSessionState, has_id, is_expired,
  Lookup, found, missing, expired, get_session,
}
use tca.AuthSessions.Expiry.{get_session-found}
use tca.Login.{LoginState}
use tca.Login.Verify.{
  Credentials, SignIn, signed_in, password_needed, code_invalid, code_expired, wrong_api_id,
  refused_phone, authenticate, password_wanted, code_signed, code_unlocked, code_status, code_found,
  verify_telegram_code,
}
use tca.Login.Accounts.{IsStored, text_accounts, failure-accounts, updated-accounts}

module _ (encrypt : Text → Text → Text) (decrypt : Text → Text → Option Text)
    (opens : (key t : Text) → decrypt key (encrypt key t) ≡ some t)
    (derive : Text → Text → Text) where
  -- What a verification of a code does to the accounts: nothing, or it stores one, of a session that was
  -- waiting for a code and had not expired, when the code was right and the process unlocked.
  abbrev pub CodeOutcome :
      SignIn → Credentials → Text → ℕ → List AuthSessionState → LoginState → LoginState → Type 0
  CodeOutcome outcome c salt read_at seen s s' =
      (s'.accounts ≡ s.accounts)
      ⊎ ((row : AuthSessionState) × (secret : Text) × (find_row (has_id c.session_id) seen
            ≡ some row)
          × (row.status ≡ code_sent)
          × (is_expired read_at row ≡ false)
          × (outcome ≡ signed_in)
          × IsStored encrypt decrypt opens derive c row.phone_number salt secret s s')

  module _ (c : Credentials) (salt : Text) (now : ℕ) (s : LoginState) (row : AuthSessionState) where
    abbrev Signed : SignIn → LoginState → Type 0
    Signed outcome s' =
        (s'.accounts ≡ s.accounts)
        ⊎ ((outcome ≡ signed_in)
            × ((secret : Text) × IsStored encrypt decrypt opens derive c row.phone_number salt
                  secret s s'))

    wanted-accounts :
        (t : Text) → (password_wanted encrypt derive t c.session_id now s).1.accounts ≡ s.accounts
    wanted-accounts [] = refl
    wanted-accounts (x ∷ xs) = updated-accounts encrypt decrypt opens derive s _

    code_signed_lem :
        (outcome : SignIn) → Signed outcome (code_signed encrypt derive outcome c salt row now s).1
    unfolding authenticate
    code_signed_lem signed_in =
        elim (text_accounts encrypt decrypt opens derive c row.phone_number salt none now s
          c.session_string s.keyring.unlock.unlock_secret refl refl) [
            | inl same_ ↦ inl same_
            | inr stored_ ↦ inr (refl, stored_)
          ]
    code_signed_lem password_needed = inl (wanted-accounts c.session_string)
    code_signed_lem code_invalid = inl refl
    code_signed_lem code_expired = inl refl
    code_signed_lem (refused_phone e) =
        inl (failure-accounts encrypt decrypt opens derive e row.phone_number now s)
    code_signed_lem wrong_api_id = inl refl

    code_unlocked_lem :
        (outcome : SignIn) (o : Option Text)
        → Signed outcome (code_unlocked encrypt derive outcome c salt row now s o).1
    code_unlocked_lem outcome none = inl refl
    code_unlocked_lem outcome (some secret) = code_signed_lem outcome

  module _ (outcome : SignIn) (c : Credentials) (salt : Text) (read_at now : ℕ)
      (seen : List AuthSessionState) (s : LoginState) where
    code_status_lem :
        (row : AuthSessionState) (status : AuthStatus)
        → row.status ≡ status
        → (find_row (has_id c.session_id) seen ≡ some row) × (is_expired read_at row ≡ false)
        → CodeOutcome outcome c salt read_at seen s
            (code_status encrypt derive status outcome c salt row now s).1
    code_status_lem row code_sent e (there, live) =
        elim (code_unlocked_lem c salt now s row outcome
          (get_sensitive_operation_secret s.keyring.unlock)) [
            | inl same_ ↦ inl same_
            | inr (ok, (secret, stored_)) ↦ inr (row, secret, there, e, live, ok, stored_)
          ]
    code_status_lem row password_required e h = inl refl
    code_status_lem row authenticated e h = inl refl

    code_found_lem :
        (r : Lookup)
        → (get_session c.session_id read_at seen).0 ≡ r
        → CodeOutcome outcome c salt read_at seen s
            (code_found encrypt derive outcome c salt now s r).1
    code_found_lem missing e = inl refl
    code_found_lem expired e = inl refl
    code_found_lem (found row) e =
        let (there, live, _) = get_session-found c.session_id read_at seen row e in
        code_status_lem row row.status refl (there, live)

    -- When decryption under a key opens what was encrypted under it, the verification of a code,
    -- whatever sessions it read and whatever the state is at its writes, either leaves the stored
    -- accounts as they are, or: a session of this id was read, it was waiting for a code and had
    -- not expired, Telegram accepted the code, the process was unlocked at the writes, the client
    -- had a session to save, and the account of the session's phone number then holds it, opened
    -- by the key that is derived from the unlock secret and the stored salt, or the new one if
    -- none was stored.
    pub verify_telegram_code_outcome :
        CodeOutcome outcome c salt read_at seen s
          (verify_telegram_code encrypt derive outcome c salt read_at now seen s).1
    unfolding verify_telegram_code
    verify_telegram_code_outcome = code_found_lem (get_session c.session_id read_at seen).0 refl
