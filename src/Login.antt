-- ===== src/Login.antt =====
-- tca/api/routes/telegram_auth.py: the state of the Telegram login, its failures and its start. What
-- Telegram's client does in a call is an argument of the handler.
pub mod Verify
pub mod Accounts
pub mod Code
pub mod Password
pub mod Progress
mod Tests
use Prim.Native.String.{String}
use tca.Base.{ℕ, Bool, true, false, Option, none, some, List, [], ◌∷◌, ◌++◌, Text}
use tca.FloodWait.{Seconds, extract_wait_seconds}
use tca.AccountRisk.{Risk, record_account_risk_breach}
use tca.Secrets.{get_sensitive_operation_secret}
use tca.AuthSessions.{
  AuthStatus, code_sent, password_required, authenticated, AuthSessionState, Creation, opened,
  invalid_expiry, taken, create_session, delete_session, Lookup, found, missing, expired,
  get_session, update_status,
}
use tca.Vault.{
  StoredAccount, Stored, stored, ambiguous, AccountId, no_account, ambiguous_phone, account_id,
  get_account_id_by_phone_number, upsert_account, persist_session, Keyring,
  resolve_key_encryption_key,
}

-- Telethon's errors about the phone number, with the attribute `seconds`.
pub data PhoneErrorKind : Type 0 where
  banned flood invalid unoccupied : PhoneErrorKind

pub record PhoneError : Type 0 where
  pub kind : PhoneErrorKind
  pub seconds : Seconds

pub data NotificationType : Type 0 where
  registration_blocked login_failed : NotificationType

-- The notification's type, the error's name and the retry time; severity and hint go with the type.
pub record AuthNotification : Type 0 where
  pub notification_type : NotificationType
  pub error_type : PhoneErrorKind
  pub retry_after_seconds : ℕ

-- `_map_auth_error_notification`.
abbrev pub notification_type_of : PhoneErrorKind → NotificationType
notification_type_of banned = registration_blocked
notification_type_of flood = registration_blocked
notification_type_of invalid = login_failed
notification_type_of unoccupied = login_failed

-- `_extract_retry_after_seconds`, with the default of an hour.
abbrev pub retry_after : Option ℕ → ℕ
retry_after none = 3600
retry_after (some s) = s

-- The HTTP errors; `server_error` is an exception that the handler does not catch.
pub data LoginError : Type 0 where
  invalid_api_credentials otp_request_failed session_not_found session_expired : LoginError
  status_conflict password_status_conflict : AuthStatus → LoginError
  missing_password_session locked invalid_login_code expired_login_code : LoginError
  invalid_password capture_failed blocked failed_login server_error : LoginError

pub data Answer : Type 0 where
  session_started : Text → Answer
  verified : Text → AuthStatus → Answer
  refused : LoginError → Answer

pub record LoginState : Type 0 where
  pub sessions : List AuthSessionState
  pub accounts : List StoredAccount
  pub keyring : Keyring
  pub notifications : List AuthNotification
  pub risk : Risk

-- `_auth_failure_http_error`.
abbrev pub failure_error : NotificationType → LoginError
failure_error registration_blocked = blocked
failure_error login_failed = failed_login

-- `_record_auth_failure_risk_breach`, at the time `now`. Whether it succeeds: the lookup of the account can
-- raise, an error of the breach is dropped.
abbrev pub breach_for : ℕ → LoginState → AccountId → Bool × LoginState
breach_for now s no_account = (true, s)
breach_for now s ambiguous_phone = (false, s)
breach_for now s (account_id i) =
    (true, record s { risk = (record_account_risk_breach i "auth-failure" now s.risk).1 })

abbrev pub breach_of_phone : Text → ℕ → LoginState → Bool × LoginState
breach_of_phone [] now s = (true, s)
breach_of_phone (c ∷ cs) now s =
    breach_for now s (get_account_id_by_phone_number (c ∷ cs) s.accounts)

abbrev pub failure_answer : PhoneError → Bool × LoginState → Answer × LoginState
failure_answer e (true, s) = (refused (failure_error (notification_type_of e.kind)), s)
failure_answer e (false, s) = (refused server_error, s)

-- The notification of a failure.
abbrev pub noted : PhoneError → LoginState → LoginState
noted e s = record s {
  notifications =
      s.notifications
      ++ record {
        notification_type = notification_type_of e.kind;
        error_type = e.kind;
        retry_after_seconds = retry_after (extract_wait_seconds e.seconds);
      }
        ∷ [];
}

-- `_record_auth_failure_notification`, and the error that is raised after it.
unfoldable pub record_auth_failure : PhoneError → Text → ℕ → LoginState → Answer × LoginState
unfolding get_account_id_by_phone_number
record_auth_failure e phone now s = failure_answer e (breach_of_phone phone now (noted e s))

-- What the request for a code comes to.
pub data CodeRequest : Type 0 where
  sent not_sent api_id_invalid : CodeRequest
  phone_refused : PhoneError → CodeRequest

abbrev pub started_answer : LoginState → Creation × List AuthSessionState → Answer × LoginState
started_answer s (opened row, rows) = (session_started row.session_id, record s { sessions = rows })
started_answer s (invalid_expiry, rows) = (refused server_error, record s { sessions = rows })
started_answer s (taken, rows) = (refused server_error, record s { sessions = rows })

-- `start_telegram_auth`, with the random id of a new session.
unfoldable pub start_telegram_auth :
    Text → Text → CodeRequest → ℕ → LoginState → Answer × LoginState
unfolding record_auth_failure create_session
start_telegram_auth phone i (phone_refused e) now s = record_auth_failure e phone now s
start_telegram_auth phone i api_id_invalid now s = (refused invalid_api_credentials, s)
start_telegram_auth phone i not_sent now s = (refused otp_request_failed, s)
start_telegram_auth phone i sent now s =
    started_answer s (create_session i phone code_sent none none none now s.sessions)
