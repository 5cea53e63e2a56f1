-- ===== src/Login/Password.antt =====
-- When the verification of a password stores an account.
use tca.Base.{ℕ, ◌≡◌, refl, ◌⊎◌, inl, inr, false, Option, none, some, List, [], ◌∷◌, find_row, Text}
use tca.Secrets.{get_sensitive_operation_secret}
use tca.AuthSessions.{
  AuthStatus, code_sent, password_required, authenticated, AuthSessionState, has_id, is_expired,
  Lookup, found, missing, expired, get_session,
}
use tca.AuthSessions.Expiry.{get_session-found}
use tca.Login.{LoginState}
use tca.Login.Verify.{
  Credentials, PasswordSignIn, accepted, password_invalid, wrong_api, refused_number, authenticate,
  password_signed, password_unlocked, password_session, password_status, password_found,
  verify_telegram_password,
}
use tca.Login.Accounts.{IsStored, text_accounts, failure-accounts}

module _ (encrypt : Text → Text → Text) (decrypt : Text → Text → Option Text)
    (opens : (key t : Text) → decrypt key (encrypt key t) ≡ some t)
    (derive : Text → Text → Text) where
  -- What a verification of a password does to the accounts, in the same way.
  abbrev pub PasswordOutcome :
      PasswordSignIn
      → Credentials
      → Text
      → ℕ
      → List AuthSessionState
      → LoginState
      → LoginState
      → Type 0
  PasswordOutcome outcome c salt read_at seen s s' =
      (s'.accounts ≡ s.accounts)
      ⊎ ((row : AuthSessionState) × (secret : Text) × (find_row (has_id c.session_id) seen
            ≡ some row)
          × (row.status ≡ password_required)
          × (is_expired read_at row ≡ false)
          × (outcome ≡ accepted)
          × IsStored encrypt decrypt opens derive c row.phone_number salt secret s s')

  module _ (c : Credentials) (salt : Text) (now : ℕ) (s : LoginState) (row : AuthSessionState) where
    abbrev Signed : PasswordSignIn → LoginState → Type 0
    Signed outcome s' =
        (s'.accounts ≡ s.accounts)
        ⊎ ((outcome ≡ accepted)
            × ((secret : Text) × IsStored encrypt decrypt opens derive c row.phone_number salt
                  secret s s'))

    password_signed_lem :
        (outcome : PasswordSignIn)
        → Signed outcome (password_signed encrypt derive outcome c salt row now s).1
    unfolding authenticate
    password_signed_lem accepted =
        elim (text_accounts encrypt decrypt opens derive c row.phone_number salt (some none) now s
          c.session_string s.keyring.unlock.unlock_secret refl refl) [
            | inl same_ ↦ inl same_
            | inr stored_ ↦ inr (refl, stored_)
          ]
    password_signed_lem password_invalid = inl refl
    password_signed_lem (refused_number e) =
        inl (failure-accounts encrypt decrypt opens derive e row.phone_number now s)
    password_signed_lem wrong_api = inl refl

    password_unlocked_lem :
        (outcome : PasswordSignIn) (o : Option Text)
        → Signed outcome (password_unlocked encrypt derive outcome c salt row now s o).1
    password_unlocked_lem outcome none = inl refl
    password_unlocked_lem outcome (some secret) = password_signed_lem outcome

    session_lem :
        (outcome : PasswordSignIn) (o : Option Text)
        → Signed outcome (password_session encrypt derive outcome c salt row now s o).1
    session_lem outcome none = inl refl
    session_lem outcome (some []) = inl refl
    session_lem outcome (some (x ∷ xs)) =
        password_unlocked_lem outcome (get_sensitive_operation_secret s.keyring.unlock)

  module _ (outcome : PasswordSignIn) (c : Credentials) (salt : Text) (read_at now : ℕ)
      (seen : List AuthSessionState) (s : LoginState) where
    password_status_lem :
        (row : AuthSessionState) (status : AuthStatus)
        → row.status ≡ status
        → (find_row (has_id c.session_id) seen ≡ some row) × (is_expired read_at row ≡ false)
        → PasswordOutcome outcome c salt read_at seen s
            (password_status encrypt derive status outcome c salt row now s).1
    password_status_lem row password_required e (there, live) =
        elim (session_lem c salt now s row outcome row.telegram_session) [
          | inl same_ ↦ inl same_
          | inr (ok, (secret, stored_)) ↦ inr (row, secret, there, e, live, ok, stored_)
        ]
    password_status_lem row code_sent e h = inl refl
    password_status_lem row authenticated e h = inl refl

    password_found_lem :
        (r : Lookup)
        → (get_session c.session_id read_at seen).0 ≡ r
        → PasswordOutcome outcome c salt read_at seen s
            (password_found encrypt derive outcome c salt now s r).1
    password_found_lem missing e = inl refl
    password_found_lem expired e = inl refl
    password_found_lem (found row) e =
        let (there, live, _) = get_session-found c.session_id read_at seen row e in
        password_status_lem row row.status refl (there, live)

    -- When decryption under a key opens what was encrypted under it, the verification of a
    -- password, whatever sessions it read and whatever the state is at its writes, either leaves
    -- the stored accounts as they are, or: a session of this id was read, it was waiting for a
    -- password and had not expired, Telegram accepted the password, the process was unlocked at
    -- the writes, the client had a session to save, and the account of the session's phone number
    -- then holds it, opened by the key that is derived from the unlock secret and the stored
    -- salt, or the new one if none was stored.
    pub verify_telegram_password_outcome :
        PasswordOutcome outcome c salt read_at seen s
          (verify_telegram_password encrypt derive outcome c salt read_at now seen s).1
    unfolding verify_telegram_password
    verify_telegram_password_outcome =
        password_found_lem (get_session c.session_id read_at seen).0 refl
