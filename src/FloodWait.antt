-- ===== src/FloodWait.antt =====
-- tca/ingest/flood_wait.py: a flood wait pauses the channel, and counts as a breach of the account.
pub mod Pauses
mod Tests
use tca.Base.{
  ℕ, suc, zero, ◌+◌, ◌*◌, Bool, true, false, Option, none, some, List, [], ◌∷◌, ◌++◌, map, ◌==◌,
  leb, if◌then◌else◌, exists_row,
}
use tca.Base.Int.{ℤ, pos, negsuc}
use tca.Scheduler.{Channel, ChannelState, Tables}
use tca.AccountRisk.{Risk, record_account_risk_breach}

-- The attribute `seconds` of the error.
pub data Seconds : Type 0 where
  no_integer : Seconds
  integer_seconds : ℤ → Seconds

-- The scheduler's tables, the account risk, and the notifications: the channel and the wait.
pub record Polling : Type 0 where
  pub tables : Tables
  pub risk : Risk
  pub flood_notices : List (ℕ × ℕ)

pub data FloodResult : Type 0 where
  no_wait_seconds missing_channel : FloodResult
  paused_until : ℕ → FloodResult

-- `_extract_wait_seconds`.
abbrev pub extract_wait_seconds : Seconds → Option ℕ
extract_wait_seconds no_integer = none
extract_wait_seconds (integer_seconds (negsuc n)) = none
extract_wait_seconds (integer_seconds (pos zero)) = none
extract_wait_seconds (integer_seconds (pos (suc n))) = some (suc n)

abbrev pub pause_state : ℕ → ℕ → ChannelState → ChannelState
pause_state c until s = if c == s.channel_id then record s { paused_until = some until } else s

-- `update_pause`, on a channel that is there.
unfoldable pub update_pause : ℕ → ℕ → List ChannelState → List ChannelState
unfolding exists_row
update_pause c until states =
    if exists_row (λ (s : ChannelState). c == s.channel_id) states
    then map (pause_state c until) states
    else states ++ record { channel_id = c; paused_until = some until; last_success_at = none } ∷ []

abbrev pub has_channel : ℕ → Tables → Bool
has_channel c t = exists_row (λ (r : Channel). c == r.id) t.channels

-- `should_notify`.
abbrev pub notices : ℕ → ℕ → List (ℕ × ℕ)
notices c wait = if leb 300 wait then (c, wait) ∷ [] else []

abbrev pub breach : Option ℕ → ℕ → Risk → Risk
breach none later r = r
breach (some account) later r = (record_account_risk_breach account "flood-wait" later r).1

abbrev pub resume_at : ℕ → ℕ → ℕ
resume_at now wait = now + wait * 1000000

-- `_persist`, and the breach after it.
abbrev pub flood_pause : ℕ → ℕ → ℕ → Option ℕ → ℕ → Polling → Polling
flood_pause now wait c account later p = record {
  tables = record p.tables { states = update_pause c (resume_at now wait) p.tables.states };
  risk = breach account later p.risk;
  flood_notices = p.flood_notices ++ notices c wait;
}

abbrev pub flood_with : Option ℕ → ℕ → Option ℕ → ℕ → ℕ → Polling → FloodResult × Polling
flood_with none c account now later p = (no_wait_seconds, p)
flood_with (some wait) c account now later p =
    if has_channel c p.tables
    then (paused_until (resume_at now wait), flood_pause now wait c account later p)
    else (missing_channel, p)

-- `handle_flood_wait` for a channel and perhaps an account, at `now`; the breach reads the clock again,
-- at `later`.
unfoldable pub handle_flood_wait : Seconds → ℕ → Option ℕ → ℕ → ℕ → Polling → FloodResult × Polling
unfolding update_pause
handle_flood_wait seconds c account now later p =
    flood_with (extract_wait_seconds seconds) c account now later p
