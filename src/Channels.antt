-- ===== src/Channels.antt =====
-- tca/storage/channels_repo.py, and `upsert_state` of tca/storage/channel_state_repo.py.
pub mod Api
pub mod Purge
use Prim.Native.String.{String}
use tca.Base.{
  ℕ, Bool, true, false, not, ◌&&◌, ◌||◌, Option, none, some, List, [], ◌∷◌, ◌++◌, map, ◌==◌,
  if◌then◌else◌, keep, exists_row, member, find_row, order_rows,
}
use tca.Store.{next_id}
use tca.Scheduler.{ChannelState}
use tca.Catalog.{ChannelRecord, Catalog, integrity_error, Response, ok, error, is_channel}

-- `create_channel`: enabled, with the account there and the Telegram id new.
unfoldable pub create_channel :
    ℕ → ℕ → String → Option String → Catalog → Response ChannelRecord × Catalog
unfolding next_id member exists_row
create_channel account telegram name username c =
    if member account c.accounts
      && not (exists_row (λ (r : ChannelRecord). telegram == r.telegram_channel_id) c.channels)
    then (ok row, record c { channels = c.channels ++ row ∷ [] })
    else (error integrity_error, c)
  where
    row : ChannelRecord
    row = record {
      id = next_id (map (λ (r : ChannelRecord). r.id) c.channels);
      account_id = account;
      telegram_channel_id = telegram;
      name = name;
      username = username;
      is_enabled = true;
    }

-- `get_channel_by_id`.
unfoldable pub get_channel_by_id : ℕ → Catalog → Option ChannelRecord
unfolding find_row
get_channel_by_id i c = find_row (is_channel i) c.channels

abbrev pub set_channel : ℕ → String → Option String → Bool → ChannelRecord → ChannelRecord
set_channel i name username enabled r =
    if i == r.id then record r { name = name; username = username; is_enabled = enabled } else r

-- `update_channel`.
unfoldable pub update_channel :
    ℕ → String → Option String → Bool → Catalog → Option ChannelRecord × Catalog
unfolding get_channel_by_id
update_channel i name username enabled c =
    let c' = record c { channels = map (set_channel i name username enabled) c.channels } in
    (get_channel_by_id i c', c')

abbrev pub set_enabled : ℕ → Bool → ChannelRecord → ChannelRecord
set_enabled i enabled r = if i == r.id then record r { is_enabled = enabled } else r

-- `_set_enabled_state`.
unfoldable pub set_enabled_state : ℕ → Bool → Catalog → Option ChannelRecord × Catalog
unfolding get_channel_by_id
set_enabled_state i enabled c =
    let c' = record c { channels = map (set_enabled i enabled) c.channels } in
    (get_channel_by_id i c', c')

abbrev pub disable_channel : ℕ → Catalog → Option ChannelRecord × Catalog
disable_channel i = set_enabled_state i false

abbrev pub enable_channel : ℕ → Catalog → Option ChannelRecord × Catalog
enable_channel i = set_enabled_state i true

abbrev pub is_active : Option ℕ → ChannelRecord → Bool
is_active none r = r.is_enabled
is_active (some account) r = r.is_enabled && account == r.account_id

-- `list_active_channels`, of all accounts or of one.
unfoldable pub list_active_channels : Option ℕ → Catalog → List ChannelRecord
unfolding order_rows keep
list_active_channels account c =
    order_rows (λ (r : ChannelRecord). r.id) (keep (is_active account) c.channels)

abbrev pub is_state_of : ℕ → ChannelState → Bool
is_state_of i s = i == s.channel_id

abbrev pub replace_state : ChannelState → ChannelState → ChannelState
replace_state new s = if new.channel_id == s.channel_id then new else s

-- `upsert_state`.
unfoldable pub upsert_state : ℕ → Option ℕ → Option ℕ → Catalog → ChannelState × Catalog
unfolding exists_row
upsert_state i paused_until last_success_at c = (
  row,
  record c {
    states =
        if exists_row (is_state_of i) c.states
        then map (replace_state row) c.states
        else c.states ++ row ∷ [];
  },
)
  where
    row : ChannelState
    row = record { channel_id = i; paused_until = paused_until; last_success_at = last_success_at }
