-- ===== src/Secrets.antt =====
-- What guards the sensitive operations and the HTTP API: tca/auth/unlock_modes.py, and the bootstrap
-- token of tca/auth/bootstrap_token.py with the check of tca/api/bearer_auth.py.
pub mod Token
pub mod Starting
mod Tests
use tca.Base.{
  Bool, true, false, not, ◌&&◌, Option, none, some, List, [], ◌∷◌, if◌then◌else◌, is_some, Text,
  codes, same, strip,
}
use tca.Settings.{SettingRecord, create, get_by_key, delete_if_value_matches}

-- A setting's value, as far as it matters here: a string, or the text of another JSON value.
pub data Value : Type 0 where
  string other : Text → Value

abbrev pub Settings : Type 0
Settings = List (SettingRecord Value)

-- `BOOTSTRAP_BEARER_TOKEN_DIGEST_KEY`.
abbrev pub digest_key : Text
digest_key = codes "auth.bootstrap_bearer_token_sha256"

-- How the creation of the token ends: it was there already, it is new, or its file could not be written
-- (OSError).
pub data Ensured : Type 0 where
  present created write_failed : Ensured

module _ (encode : Value → Text) (digest : Text → Text) where
  abbrev pub token_created :
      Text → Bool → Option (SettingRecord Value) × Settings → Ensured × Settings
  token_created token written (none, rows) = (present, rows)
  token_created token written (some r, rows) = if written then (created, rows) else (
    write_failed,
    (delete_if_value_matches encode digest_key (string (digest token)) rows).1,
  )

  abbrev pub token_absent :
      Text → Bool → Settings → Option (SettingRecord Value) → Ensured × Settings
  token_absent token written rows (some r) = (present, rows)
  token_absent token written rows none =
      token_created token written (create digest_key (string (digest token)) rows)

  -- `ensure_bootstrap_bearer_token` with the random token: it looks into the table `seen`, and writes to
  -- `rows`, which another process may have changed in between. `written` is whether the token's file
  -- could be written.
  unfoldable pub ensure_bootstrap_bearer_token :
      Text → Bool → Settings → Settings → Ensured × Settings
  unfolding get_by_key create delete_if_value_matches
  ensure_bootstrap_bearer_token token written seen rows =
      token_absent token written rows (get_by_key digest_key seen)

  abbrev pub accepts : Text → Option (SettingRecord Value) → Bool
  accepts t none = false
  accepts t (some r) = elim r.value [ string stored ↦ same stored (digest t) | other v ↦ false ]

  -- `require_bearer_auth`: whether a request with these credentials is let through. The digests are
  -- ASCII, on which `compare_digest` is equality.
  unfoldable pub require_bearer_auth : Option Text → Settings → Bool
  unfolding get_by_key
  require_bearer_auth none rows = false
  require_bearer_auth (some []) rows = false
  require_bearer_auth (some (c ∷ cs)) rows = accepts (c ∷ cs) (get_by_key digest_key rows)

pub data Mode : Type 0 where
  secure_interactive auto_unlock unsupported : Mode

-- `UnlockState`.
pub record UnlockState : Type 0 where
  pub mode : Mode
  pub unlock_secret : Option Text

abbrev pub is_unlocked : UnlockState → Bool
is_unlocked s = is_some s.unlock_secret

abbrev pub lock : Mode → UnlockState → UnlockState
lock mode s = record { mode = mode; unlock_secret = none }

-- `unlock_with_passphrase`: whether it succeeds; an empty passphrase raises ValueError.
unfoldable pub unlock_with_passphrase : Text → UnlockState → Bool × UnlockState
unlock_with_passphrase [] s = (false, s)
unlock_with_passphrase (c ∷ cs) s = (true, record s { unlock_secret = some (c ∷ cs) })

-- `get_sensitive_operation_secret`, and `require_unlocked` before it: `none` stands for
-- SensitiveOperationLockedError.
abbrev pub get_sensitive_operation_secret : UnlockState → Option Text
get_sensitive_operation_secret s = s.unlock_secret

-- The configured secret file: not set, not there, not readable, or its text.
pub data SecretFile : Type 0 where
  not_set missing unreadable : SecretFile
  contents : Text → SecretFile

pub data Startup : Type 0 where
  started unsupported_mode missing_setting missing_file unreadable_file empty_file : Startup
  bootstrap_failed : Startup

abbrev pub unlocked_with : Text → UnlockState → Startup × UnlockState
unlocked_with [] s = (empty_file, s)
unlocked_with (c ∷ cs) s = (started, (unlock_with_passphrase (c ∷ cs) s).1)

-- `_read_auto_unlock_secret_file`, and the unlocking after it.
abbrev pub auto_unlocked : SecretFile → UnlockState → Startup × UnlockState
auto_unlocked not_set s = (missing_setting, s)
auto_unlocked missing s = (missing_file, s)
auto_unlocked unreadable s = (unreadable_file, s)
auto_unlocked (contents t) s = unlocked_with (strip t) s

-- `initialize_startup_unlock_mode`.
unfoldable pub initialize_startup_unlock_mode :
    Mode → SecretFile → UnlockState → Startup × UnlockState
unfolding strip unlock_with_passphrase
initialize_startup_unlock_mode secure_interactive file s = (started, lock secure_interactive s)
initialize_startup_unlock_mode unsupported file s = (unsupported_mode, lock unsupported s)
initialize_startup_unlock_mode auto_unlock file s = auto_unlocked file (lock auto_unlock s)

-- What the bootstrap hook does after the unlocking; an error locks again.
abbrev pub bootstrap_after : Bool → Startup × UnlockState → Startup × UnlockState
bootstrap_after ok (started, s) = if ok then (started, s) else (bootstrap_failed, lock s.mode s)
bootstrap_after ok (other_end, s) = (other_end, s)

-- `AuthStartupDependency.startup`, with whether the bootstrap hook ends without an error.
unfoldable pub startup : Mode → SecretFile → Bool → UnlockState → Startup × UnlockState
unfolding initialize_startup_unlock_mode
startup mode file ok s = bootstrap_after ok (initialize_startup_unlock_mode mode file s)

-- `AuthStartupDependency.shutdown`.
abbrev pub shutdown : UnlockState → UnlockState
shutdown s = lock s.mode s
