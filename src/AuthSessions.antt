-- ===== src/AuthSessions.antt =====
-- tca/auth/auth_session_state.py: the temporary sessions of the login, which expire. Times are seconds.
pub mod Expiry
pub mod Changes
mod Tests
use tca.Base.{
  ℕ, ◌+◌, Bool, true, false, not, Option, none, some, List, [], ◌∷◌, ◌++◌, map, leb, if◌then◌else◌,
  keep, exists_row, find_row, Text, same,
}

-- The values of `status`.
pub data AuthStatus : Type 0 where
  code_sent password_required authenticated : AuthStatus

-- `AuthSessionState`, a row of `auth_session_state`.
pub record AuthSessionState : Type 0 where
  pub session_id : Text
  pub phone_number : Text
  pub status : AuthStatus
  pub expires_at : ℕ
  pub telegram_session : Option Text

-- `AUTH_SESSION_TTL_SECONDS`.
abbrev pub ttl_seconds : ℕ
ttl_seconds = 900

abbrev pub has_id : Text → AuthSessionState → Bool
has_id i s = same i s.session_id

-- `_is_expired`.
abbrev pub is_expired : ℕ → AuthSessionState → Bool
is_expired now s = leb s.expires_at now

-- What `create_session` comes to: the row, AuthSessionStateConfigError, or IntegrityError for an id that
-- is taken.
pub data Creation : Type 0 where
  opened : AuthSessionState → Creation
  invalid_expiry taken : Creation

-- The time at which a new session expires, from the two arguments that say when.
abbrev pub expiry : Option ℕ → Option ℕ → ℕ → Option ℕ
expiry none none now = some (now + ttl_seconds)
expiry none (some ttl) now = some (now + ttl)
expiry (some at) none now = some at
expiry (some at) (some ttl) now = none

abbrev pub insert_session :
    Text
    → Text
    → AuthStatus
    → Option Text
    → List AuthSessionState
    → Option ℕ
    → Creation × List AuthSessionState
insert_session i phone status telegram rows none = (invalid_expiry, rows)
insert_session i phone status telegram rows (some at) =
    if exists_row (has_id i) rows then (taken, rows) else (opened row, rows ++ row ∷ [])
  where
    row : AuthSessionState
    row = record {
      session_id = i;
      phone_number = phone;
      status = status;
      expires_at = at;
      telegram_session = telegram;
    }

-- `create_session`.
unfoldable pub create_session :
    Text
    → Text
    → AuthStatus
    → Option Text
    → Option ℕ
    → Option ℕ
    → ℕ
    → List AuthSessionState
    → Creation × List AuthSessionState
unfolding exists_row same
create_session i phone status telegram expires_at ttl now rows =
    insert_session i phone status telegram rows (expiry expires_at ttl now)

-- `delete_session`: whether there was one.
unfoldable pub delete_session : Text → List AuthSessionState → Bool × List AuthSessionState
unfolding exists_row keep same
delete_session i rows = (exists_row (has_id i) rows, keep (λ s. not (has_id i s)) rows)

-- A session, AuthSessionStateNotFoundError, or AuthSessionExpiredError.
pub data Lookup : Type 0 where
  found : AuthSessionState → Lookup
  missing expired : Lookup

abbrev pub unless_expired :
    Text → ℕ → Option AuthSessionState → List AuthSessionState → Lookup × List AuthSessionState
unless_expired i now none rows = (missing, rows)
unless_expired i now (some s) rows =
    if is_expired now s then (expired, (delete_session i rows).1) else (found s, rows)

-- `get_session`: an expired session is deleted.
unfoldable pub get_session : Text → ℕ → List AuthSessionState → Lookup × List AuthSessionState
unfolding find_row same delete_session
get_session i now rows = unless_expired i now (find_row (has_id i) rows) rows

-- The columns that `update_status` sets: with `update_session`, also the Telegram session.
abbrev pub with_status :
    Text → AuthStatus → Option (Option Text) → AuthSessionState → AuthSessionState
with_status i status none s = if has_id i s then record s { status = status } else s
with_status i status (some telegram) s =
    if has_id i s then record s { status = status; telegram_session = telegram } else s

-- `update_status`, at the time `now`; `telegram` is `none` without `update_session`.
unfoldable pub update_status :
    Text
    → AuthStatus
    → Option (Option Text)
    → ℕ
    → List AuthSessionState
    → Lookup × List AuthSessionState
unfolding find_row same delete_session
update_status i status telegram now rows =
    let rows' = map (with_status i status telegram) rows in
    unless_expired i now (find_row (has_id i) rows') rows'
