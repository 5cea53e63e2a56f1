-- ===== src/Secrets/Tests.antt =====
-- First starts, and the theorems at them.
use tca.Base.{◌≡◌, refl, true, false, none, some, [], ◌∷◌, ◌++◌, Text, codes, exists_row, is_space}
use tca.Secrets.{
  Value, string, other, Settings, digest_key, created, write_failed, ensure_bootstrap_bearer_token,
  auto_unlock, contents, UnlockState, startup, secure_interactive,
}
use tca.Secrets.Token.{TokenOutcome, ensure_bootstrap_bearer_token_outcome}
use tca.Secrets.Starting.{StartOutcome, startup_outcome}

-- An injective stand-in for the digest, and one for json.dumps.
abbrev digest : Text → Text
digest t = 36 ∷ t

abbrev encode : Value → Text
encode (string t) = 34 ∷ t ++ 34 ∷ []
encode (other t) = t

abbrev settings : Settings
settings = record { key = codes "backup.hour"; value = other (51 ∷ []) } ∷ []

abbrev token : Text
token = codes "secret"

abbrev filled : Settings
filled = settings ++ record { key = digest_key; value = string (digest token) } ∷ []

ensure_bootstrap_bearer_token_outcome_example :
    TokenOutcome encode digest token true settings settings
      (ensure_bootstrap_bearer_token encode digest token true settings settings)
unfolding exists_row
ensure_bootstrap_bearer_token_outcome_example =
    ensure_bootstrap_bearer_token_outcome encode digest token settings settings (refl, tt) true

first_start :
    ensure_bootstrap_bearer_token encode digest token true settings settings ≡ (created, filled)
unfolding ensure_bootstrap_bearer_token
first_start = refl

-- A start whose file cannot be written leaves the settings as they were.
failed_start :
    ensure_bootstrap_bearer_token encode digest token false settings settings
    ≡ (write_failed, settings)
unfolding ensure_bootstrap_bearer_token
failed_start = refl

abbrev fresh : UnlockState
fresh = record { mode = secure_interactive; unlock_secret = none }

startup_outcome_example :
    StartOutcome auto_unlock
      (contents (codes " key "))
      true
      (startup auto_unlock (contents (codes " key ")) true fresh)
startup_outcome_example = startup_outcome auto_unlock (contents (codes " key ")) true fresh

unlocked :
    (startup auto_unlock (contents (codes " key ")) true fresh).1.unlock_secret ≡ some (codes "key")
unfolding startup is_space
unlocked = refl
