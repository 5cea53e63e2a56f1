-- ===== src/Login/Verify.antt =====
-- tca/api/routes/telegram_auth.py: the verification of a code and of a password. What signing in with
-- Telegram's client comes to is an argument. Between the read of the session and the writes the code
-- awaits Telegram, and other requests may run: a handler takes the sessions as it read them, and the
-- state at its writes.
use tca.Base.{ℕ, Option, none, some, List, [], ◌∷◌, Text}
use tca.Secrets.{get_sensitive_operation_secret}
use tca.AuthSessions.{
  AuthStatus, code_sent, password_required, authenticated, AuthSessionState, delete_session, Lookup,
  found, missing, expired, get_session, update_status,
}
use tca.Vault.{
  StoredAccount, Stored, stored, ambiguous, upsert_account, persist_session, Keyring,
  resolve_key_encryption_key,
}
use tca.Login.{
  Answer, LoginError, LoginState, PhoneError, capture_failed, expired_login_code,
  invalid_api_credentials, invalid_login_code, invalid_password, locked, missing_password_session,
  password_status_conflict, record_auth_failure, refused, server_error, session_expired,
  session_not_found, status_conflict, verified,
}

-- What signing in with a code, or with a password, comes to.
pub data SignIn : Type 0 where
  signed_in password_needed code_invalid code_expired wrong_api_id : SignIn
  refused_phone : PhoneError → SignIn

pub data PasswordSignIn : Type 0 where
  accepted password_invalid wrong_api : PasswordSignIn
  refused_number : PhoneError → PasswordSignIn

-- The payload of a verification, and what the client's session saves as (`_extract_session_string`).
pub record Credentials : Type 0 where
  pub session_id : Text
  pub api_id : ℕ
  pub api_hash : Text
  pub session_string : Text

-- `_update_auth_session_status`.
abbrev pub updated_answer : LoginState → Lookup × List AuthSessionState → Answer × LoginState
updated_answer s (found row, rows) =
    (verified row.session_id row.status, record s { sessions = rows })
updated_answer s (missing, rows) = (refused session_not_found, record s { sessions = rows })
updated_answer s (expired, rows) = (refused session_expired, record s { sessions = rows })

-- What `_persist_authenticated_session` comes to: a stored account, or an error.
pub data Persisted : Type 0 where
  persisted : LoginState → Persisted
  not_persisted : LoginError → LoginState → Persisted

module _ (encrypt : Text → Text → Text) (derive : Text → Text → Text) where
  abbrev pub persist_account : Text → Text → LoginState → Stored × List StoredAccount → Persisted
  persist_account session key s (ambiguous, accounts) = not_persisted server_error s
  persist_account session key s (stored i, accounts) =
      persisted (record s { accounts = (persist_session encrypt i session key accounts).1 })

  abbrev pub persist_with : Credentials → Text → Option Text × Keyring → LoginState → Persisted
  persist_with c phone (none, ring) s = not_persisted locked (record s { keyring = ring })
  persist_with c phone (some key, ring) s =
      persist_account c.session_string key (record s { keyring = ring })
        (upsert_account encrypt c.api_id c.api_hash (some phone) key s.accounts)

  -- The session's new status, at the time `now`, once the account is stored.
  abbrev pub authenticate_with : Text → Option (Option Text) → ℕ → Persisted → Answer × LoginState
  authenticate_with i telegram now (not_persisted e s) = (refused e, s)
  authenticate_with i telegram now (persisted s) =
      updated_answer s (update_status i authenticated telegram now s.sessions)

  abbrev pub authenticate_text :
      Text → Credentials → Text → Text → Option (Option Text) → ℕ → LoginState → Answer × LoginState
  authenticate_text [] c phone salt telegram now s = (refused capture_failed, s)
  authenticate_text (x ∷ xs) c phone salt telegram now s =
      authenticate_with c.session_id telegram now
        (persist_with c phone (resolve_key_encryption_key derive salt s.keyring) s)

  -- The end of both handlers, with the salt that a first login stores.
  unfoldable pub authenticate :
      Credentials → Text → Text → Option (Option Text) → ℕ → LoginState → Answer × LoginState
  unfolding resolve_key_encryption_key upsert_account persist_session update_status
  authenticate c phone salt telegram now s =
      authenticate_text c.session_string c phone salt telegram now s

  -- A client that wants a password leaves a session to resume.
  abbrev pub password_wanted : Text → Text → ℕ → LoginState → Answer × LoginState
  password_wanted [] i now s = (refused capture_failed, s)
  password_wanted (x ∷ xs) i now s =
      updated_answer s (update_status i password_required (some (some (x ∷ xs))) now s.sessions)

  -- `verify_telegram_code` after the session was found: `now` is the time of the writes.
  abbrev pub code_signed :
      SignIn → Credentials → Text → AuthSessionState → ℕ → LoginState → Answer × LoginState
  code_signed signed_in c salt row now s = authenticate c row.phone_number salt none now s
  code_signed password_needed c salt row now s = password_wanted c.session_string c.session_id now s
  code_signed code_invalid c salt row now s = (refused invalid_login_code, s)
  code_signed code_expired c salt row now s = (
    refused expired_login_code,
    record s { sessions = (delete_session c.session_id s.sessions).1 },
  )
  code_signed (refused_phone e) c salt row now s = record_auth_failure e row.phone_number now s
  code_signed wrong_api_id c salt row now s = (refused invalid_api_credentials, s)

  abbrev pub code_unlocked :
      SignIn
      → Credentials
      → Text
      → AuthSessionState
      → ℕ
      → LoginState
      → Option Text
      → Answer × LoginState
  code_unlocked outcome c salt row now s none = (refused locked, s)
  code_unlocked outcome c salt row now s (some secret) = code_signed outcome c salt row now s

  abbrev pub code_status :
      AuthStatus
      → SignIn
      → Credentials
      → Text
      → AuthSessionState
      → ℕ
      → LoginState
      → Answer × LoginState
  code_status code_sent outcome c salt row now s =
      code_unlocked outcome c salt row now s (get_sensitive_operation_secret s.keyring.unlock)
  code_status password_required outcome c salt row now s =
      (refused (status_conflict password_required), s)
  code_status authenticated outcome c salt row now s = (refused (status_conflict authenticated), s)

  abbrev pub code_found :
      SignIn → Credentials → Text → ℕ → LoginState → Lookup → Answer × LoginState
  code_found outcome c salt now s missing = (refused session_not_found, s)
  code_found outcome c salt now s expired =
      (refused session_expired, record s { sessions = (delete_session c.session_id s.sessions).1 })
  code_found outcome c salt now s (found row) = code_status row.status outcome c salt row now s

  -- `verify_telegram_code`: the session is read at the time `read_at` among `seen`, and an expired one is
  -- deleted from the sessions of `s`.
  unfoldable pub verify_telegram_code :
      SignIn → Credentials → Text → ℕ → ℕ → List AuthSessionState → LoginState → Answer × LoginState
  unfolding get_session delete_session authenticate record_auth_failure update_status
  verify_telegram_code outcome c salt read_at now seen s =
      code_found outcome c salt now s (get_session c.session_id read_at seen).0

  abbrev pub password_signed :
      PasswordSignIn → Credentials → Text → AuthSessionState → ℕ → LoginState → Answer × LoginState
  password_signed accepted c salt row now s = authenticate c row.phone_number salt (some none) now s
  password_signed password_invalid c salt row now s = (refused invalid_password, s)
  password_signed (refused_number e) c salt row now s = record_auth_failure e row.phone_number now s
  password_signed wrong_api c salt row now s = (refused invalid_api_credentials, s)

  abbrev pub password_unlocked :
      PasswordSignIn
      → Credentials
      → Text
      → AuthSessionState
      → ℕ
      → LoginState
      → Option Text
      → Answer × LoginState
  password_unlocked outcome c salt row now s none = (refused locked, s)
  password_unlocked outcome c salt row now s (some secret) =
      password_signed outcome c salt row now s

  abbrev pub password_session :
      PasswordSignIn
      → Credentials
      → Text
      → AuthSessionState
      → ℕ
      → LoginState
      → Option Text
      → Answer × LoginState
  password_session outcome c salt row now s none = (refused missing_password_session, s)
  password_session outcome c salt row now s (some []) = (refused missing_password_session, s)
  password_session outcome c salt row now s (some (x ∷ xs)) =
      password_unlocked outcome c salt row now s (get_sensitive_operation_secret s.keyring.unlock)

  abbrev pub password_status :
      AuthStatus
      → PasswordSignIn
      → Credentials
      → Text
      → AuthSessionState
      → ℕ
      → LoginState
      → Answer × LoginState
  password_status code_sent outcome c salt row now s =
      (refused (password_status_conflict code_sent), s)
  password_status authenticated outcome c salt row now s =
      (refused (password_status_conflict authenticated), s)
  password_status password_required outcome c salt row now s =
      password_session outcome c salt row now s row.telegram_session

  abbrev pub password_found :
      PasswordSignIn → Credentials → Text → ℕ → LoginState → Lookup → Answer × LoginState
  password_found outcome c salt now s missing = (refused session_not_found, s)
  password_found outcome c salt now s expired =
      (refused session_expired, record s { sessions = (delete_session c.session_id s.sessions).1 })
  password_found outcome c salt now s (found row) =
      password_status row.status outcome c salt row now s

  -- `verify_telegram_password`, in the same way.
  unfoldable pub verify_telegram_password :
      PasswordSignIn
      → Credentials
      → Text
      → ℕ
      → ℕ
      → List AuthSessionState
      → LoginState
      → Answer × LoginState
  unfolding get_session delete_session authenticate record_auth_failure update_status
  verify_telegram_password outcome c salt read_at now seen s =
      password_found outcome c salt now s (get_session c.session_id read_at seen).0
