-- ===== src/Groups.antt =====
-- tca/storage/channel_groups_repo.py: groups of channels, and which channel is in which group.
pub mod Api
pub mod Plan
pub mod Put
pub mod Leave
use Prim.Native.String.{String}
use tca.Base.{
  ℕ, Bool, true, false, not, ◌&&◌, Option, none, some, List, [], ◌∷◌, ◌++◌, map, ◌==◌,
  if◌then◌else◌, keep, exists_row, find_row, order_rows,
}
use tca.Base.Int.{ℤ}
use tca.Store.{next_id}
use tca.Catalog.{
  ChannelGroupRecord, ChannelGroupMembershipRecord, Catalog, is_group, is_of_channel, has_channel,
  has_group, is_assigned,
}

-- `create_group`.
unfoldable pub create_group :
    String → Option String → Option ℤ → Catalog → ChannelGroupRecord × Catalog
unfolding next_id
create_group name description horizon c = (row, record c { groups = c.groups ++ row ∷ [] })
  where
    row : ChannelGroupRecord
    row = record {
      id = next_id (map (λ (g : ChannelGroupRecord). g.id) c.groups);
      name = name;
      description = description;
      dedupe_horizon_minutes_override = horizon;
    }

-- `get_group_by_id`.
unfoldable pub get_group_by_id : ℕ → Catalog → Option ChannelGroupRecord
unfolding find_row
get_group_by_id i c = find_row (is_group i) c.groups

-- `list_groups`.
unfoldable pub list_groups : Catalog → List ChannelGroupRecord
unfolding order_rows
list_groups c = order_rows (λ (g : ChannelGroupRecord). g.id) c.groups

abbrev pub set_group :
    ℕ → String → Option String → Option ℤ → ChannelGroupRecord → ChannelGroupRecord
set_group i name description horizon g =
    if i == g.id
    then record g {
      name = name;
      description = description;
      dedupe_horizon_minutes_override = horizon;
    }
    else g

-- `update_group`.
unfoldable pub update_group :
    ℕ → String → Option String → Option ℤ → Catalog → Option ChannelGroupRecord × Catalog
unfolding get_group_by_id
update_group i name description horizon c =
    let c' = record c { groups = map (set_group i name description horizon) c.groups } in
    (get_group_by_id i c', c')

-- `delete_group`, with the memberships that refer to the group (CASCADE).
unfoldable pub delete_group : ℕ → Catalog → Bool × Catalog
unfolding keep exists_row
delete_group i c = (
  has_group i c,
  record c {
    groups = keep (λ g. not (is_group i g)) c.groups;
    memberships = keep (λ (m : ChannelGroupMembershipRecord). not (i == m.group_id)) c.memberships;
  },
)

-- What an insert of a membership comes to: the row, `ChannelAlreadyAssignedToGroupError` for the
-- uniqueness of the channel, and IntegrityError for a foreign key.
pub data Insertion : Type 0 where
  inserted : ChannelGroupMembershipRecord → Insertion
  already_assigned foreign_key : Insertion

-- `add_channel_membership`: SQLite checks uniqueness before the foreign keys, and an error writes
-- nothing.
unfoldable pub add_channel_membership : ℕ → ℕ → Catalog → Insertion × Catalog
unfolding exists_row
add_channel_membership group channel c =
    if is_assigned channel c
    then (already_assigned, c)
    else if has_group group c && has_channel channel c
    then (inserted row, record c { memberships = c.memberships ++ row ∷ [] })
    else (foreign_key, c)
  where
    row : ChannelGroupMembershipRecord
    row = record { group_id = group; channel_id = channel }

abbrev pub is_membership : ℕ → ℕ → ChannelGroupMembershipRecord → Bool
is_membership group channel m = group == m.group_id && channel == m.channel_id

-- `remove_channel_membership`.
unfoldable pub remove_channel_membership : ℕ → ℕ → Catalog → Bool × Catalog
unfolding keep exists_row
remove_channel_membership group channel c = (
  exists_row (is_membership group channel) c.memberships,
  record c { memberships = keep (λ m. not (is_membership group channel m)) c.memberships },
)

-- `get_membership_by_channel_id`.
unfoldable pub get_membership_by_channel_id : ℕ → Catalog → Option ChannelGroupMembershipRecord
unfolding find_row
get_membership_by_channel_id channel c = find_row (is_of_channel channel) c.memberships
