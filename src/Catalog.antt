-- ===== src/Catalog.antt =====
-- The tables of alembic/versions/70bbc5b6d2f1 that describe what is polled: the accounts' keys, the
-- channels, their groups, their polling state; and the answers of the HTTP handlers that change them.
use Prim.Native.String.{String}
use tca.Base.{ℕ, Bool, Option, none, some, List, ◌==◌, exists_row}
use tca.Base.Int.{ℤ}
use tca.Scheduler.{ChannelState}

-- A row of `telegram_channels`, `ChannelRecord`.
pub record ChannelRecord : Type 0 where
  pub id : ℕ
  pub account_id : ℕ
  pub telegram_channel_id : ℕ
  pub name : String
  pub username : Option String
  pub is_enabled : Bool

-- A row of `channel_groups`.
pub record ChannelGroupRecord : Type 0 where
  pub id : ℕ
  pub name : String
  pub description : Option String
  pub dedupe_horizon_minutes_override : Option ℤ

-- A row of `channel_group_members`.
pub record ChannelGroupMembershipRecord : Type 0 where
  pub group_id : ℕ
  pub channel_id : ℕ

pub record Catalog : Type 0 where
  pub accounts : List ℕ
  pub channels : List ChannelRecord
  pub groups : List ChannelGroupRecord
  pub memberships : List ChannelGroupMembershipRecord
  pub states : List ChannelState

-- The errors that a handler raises: not found (404), conflict (409) with the group that the channel is
-- in, a field that cannot be null (400), and a constraint of the database.
pub data HttpError : Type 0 where
  channel_not_found group_not_found : ℕ → HttpError
  channel_assignment_conflict : ℕ → ℕ → HttpError
  null_name null_is_enabled : HttpError
  integrity_error : HttpError

pub data Response {ℓ} (A : Type ℓ) : Type ℓ where
  ok : A → Response A
  error : HttpError → Response A

-- A field of a PATCH payload: not in `model_fields_set`, null, or set.
pub data Field {ℓ} (A : Type ℓ) : Type ℓ where
  unset null : Field A
  set : A → Field A

-- `payload.x if "x" in fields_set else old`, for a field that may be null.
abbrev pub patched {ℓ} : {A : Type ℓ} → Field A → Option A → Option A
patched unset old = old
patched null old = none
patched (set a) old = some a

abbrev pub is_channel : ℕ → ChannelRecord → Bool
is_channel i c = i == c.id

abbrev pub is_group : ℕ → ChannelGroupRecord → Bool
is_group i g = i == g.id

abbrev pub is_of_channel : ℕ → ChannelGroupMembershipRecord → Bool
is_of_channel i m = i == m.channel_id

abbrev pub has_channel : ℕ → Catalog → Bool
has_channel i c = exists_row (is_channel i) c.channels

abbrev pub has_group : ℕ → Catalog → Bool
has_group i c = exists_row (is_group i) c.groups

abbrev pub is_assigned : ℕ → Catalog → Bool
is_assigned i c = exists_row (is_of_channel i) c.memberships
