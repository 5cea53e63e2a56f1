-- ===== src/AccountRisk.antt =====
-- tca/ingest/account_risk.py, with the pauses of tca/storage/account_pause_repo.py. Times are
-- microseconds.
pub mod Pauses
mod Tests
use Prim.Native.String.{String}
use tca.Base.{
  ℕ, suc, ◌+◌, Bool, true, false, Option, none, some, List, [], ◌∷◌, ◌++◌, map, ◌==◌, ltb, leb,
  if◌then◌else◌, is_some, keep, length,
}

-- The columns of `telegram_accounts` that a pause concerns.
pub record PausableAccount : Type 0 where
  pub id : ℕ
  pub paused_at : Option ℕ
  pub pause_reason : Option String

-- What a notification is about: the account, the number of breaches and the reason of the last.
pub record RiskNotification : Type 0 where
  pub account_id : ℕ
  pub breach_count : ℕ
  pub breach_reason : String

-- The accounts, the stored breaches of each account (the settings have one key for each), and the
-- notifications.
pub record Risk : Type 0 where
  pub accounts : List PausableAccount
  pub breaches : ℕ → List ℕ
  pub notifications : List RiskNotification

-- One hour.
abbrev pub window : ℕ
window = 3600000000

-- `get_pause_state`.
unfoldable pub get_pause_state : ℕ → List PausableAccount → Option PausableAccount
get_pause_state i [] = none
get_pause_state i (a ∷ rest) = if i == a.id then some a else get_pause_state i rest

abbrev pub set_pause : ℕ → Option ℕ → Option String → PausableAccount → PausableAccount
set_pause i at reason a =
    if i == a.id then record { id = a.id; paused_at = at; pause_reason = reason } else a

-- `pause_account`.
unfoldable pub pause_account :
    ℕ → String → ℕ → List PausableAccount → Option PausableAccount × List PausableAccount
unfolding get_pause_state
pause_account i reason now accounts =
    let accounts' = map (set_pause i (some now) (some reason)) accounts in
    (get_pause_state i accounts', accounts')

-- `resume_account`.
unfoldable pub resume_account :
    ℕ → List PausableAccount → Option PausableAccount × List PausableAccount
unfolding get_pause_state
resume_account i accounts =
    let accounts' = map (set_pause i none none) accounts in (get_pause_state i accounts', accounts')

-- `breach >= now - window`.
abbrev pub is_recent : ℕ → ℕ → Bool
is_recent now breach = leb now (breach + window)

-- `_upsert_state`.
abbrev pub store_breaches : ℕ → List ℕ → (ℕ → List ℕ) → ℕ → List ℕ
store_breaches i value breaches j = if j == i then value else breaches j

abbrev pub escalated :
    ℕ
    → String
    → List ℕ
    → Risk
    → Option PausableAccount × List PausableAccount
    → Option PausableAccount × Risk
escalated i reason counted s (none, accounts) =
    (none, record s { accounts = accounts; breaches = store_breaches i [] s.breaches })
escalated i reason counted s (some a, accounts) = (
  some a,
  record {
    accounts = accounts;
    breaches = store_breaches i [] s.breaches;
    notifications =
        s.notifications
        ++ record { account_id = i; breach_count = length counted; breach_reason = reason } ∷ [];
  },
)

abbrev pub breach_counted : ℕ → String → ℕ → Risk → List ℕ → Option PausableAccount × Risk
breach_counted i reason now s counted =
    if ltb (length counted) 3
    then (none, record s { breaches = store_breaches i counted s.breaches })
    else escalated i reason counted s (pause_account i "account-risk" now s.accounts)

abbrev pub breach_of :
    ℕ → String → ℕ → Risk → Option PausableAccount → Option PausableAccount × Risk
breach_of i reason now s none = (none, s)
breach_of i reason now s (some a) =
    if is_some a.paused_at
    then (some a, s)
    else breach_counted i reason now s (keep (is_recent now) (s.breaches i) ++ now ∷ [])

-- `record_account_risk_breach`.
unfoldable pub record_account_risk_breach : ℕ → String → ℕ → Risk → Option PausableAccount × Risk
unfolding get_pause_state pause_account keep
record_account_risk_breach i reason now s = breach_of i reason now s (get_pause_state i s.accounts)
