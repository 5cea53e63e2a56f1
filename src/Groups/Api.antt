-- ===== src/Groups/Api.antt =====
-- tca/api/routes/channel_groups.py: the handlers, each one job of the writer queue.
use Prim.Native.String.{String}
use tca.Base.{ℕ, Bool, true, false, Option, none, some, ◌==◌, if◌then◌else◌}
use tca.Base.Int.{ℤ}
use tca.Catalog.{
  ChannelRecord, ChannelGroupRecord, ChannelGroupMembershipRecord, Catalog, channel_not_found,
  group_not_found, channel_assignment_conflict, null_name, integrity_error, Response, ok, error,
  Field, unset, null, set, patched,
}
use tca.Channels.{get_channel_by_id}
use tca.Groups.{
  get_group_by_id, update_group, delete_group, Insertion, inserted, already_assigned, foreign_key,
  add_channel_membership, remove_channel_membership, get_membership_by_channel_id,
}

-- `ChannelGroupMembershipResponse`.
pub record MembershipResponse : Type 0 where
  pub group_id : ℕ
  pub channel_id : ℕ
  pub is_member : Bool

abbrev pub updated_group :
    ℕ → Option ChannelGroupRecord × Catalog → Response ChannelGroupRecord × Catalog
updated_group i (none, c) = (error (group_not_found i), c)
updated_group i (some g, c) = (ok g, c)

abbrev pub patch_found :
    ℕ
    → Field String
    → Field String
    → Field ℤ
    → Catalog
    → Option ChannelGroupRecord
    → Response ChannelGroupRecord × Catalog
patch_found i name description horizon c none = (error (group_not_found i), c)
patch_found i null description horizon c (some g) = (error null_name, c)
patch_found i unset description horizon c (some g) = updated_group i (
    update_group i g.name (patched description g.description)
      (patched horizon g.dedupe_horizon_minutes_override) c)
patch_found i (set name) description horizon c (some g) = updated_group i (
    update_group i name (patched description g.description)
      (patched horizon g.dedupe_horizon_minutes_override) c)

-- `patch_channel_group`.
unfoldable pub patch_channel_group :
    ℕ → Field String → Field String → Field ℤ → Catalog → Response ChannelGroupRecord × Catalog
unfolding get_group_by_id update_group
patch_channel_group i name description horizon c =
    patch_found i name description horizon c (get_group_by_id i c)

-- `delete_channel_group`: the deleted group's id.
unfoldable pub delete_channel_group : ℕ → Catalog → Response ℕ × Catalog
unfolding delete_group
delete_channel_group i c =
    let (deleted, c') = delete_group i c in
    (if deleted then ok i else error (group_not_found i), c')

-- The group that a conflict names, when the membership is read again after the error.
abbrev pub refreshed_group : ℕ → Option ChannelGroupMembershipRecord → ℕ
refreshed_group group none = group
refreshed_group group (some m) = m.group_id

abbrev pub added_membership : ℕ → ℕ → Insertion × Catalog → Response MembershipResponse × Catalog
added_membership group channel (inserted row, c) =
    (ok (record { group_id = group; channel_id = channel; is_member = true }), c)
added_membership group channel (already_assigned, c) = (
  error (
      channel_assignment_conflict channel
        (refreshed_group group (get_membership_by_channel_id channel c))),
  c,
)
added_membership group channel (foreign_key, c) = (error integrity_error, c)

abbrev pub put_with_membership :
    ℕ → ℕ → Catalog → Option ChannelGroupMembershipRecord → Response MembershipResponse × Catalog
put_with_membership group channel c (some m) =
    if m.group_id == group
    then (ok (record { group_id = group; channel_id = channel; is_member = true }), c)
    else (error (channel_assignment_conflict channel m.group_id), c)
put_with_membership group channel c none =
    added_membership group channel (add_channel_membership group channel c)

abbrev pub put_with :
    ℕ
    → ℕ
    → Catalog
    → Option ChannelGroupRecord
    → Option ChannelRecord
    → Response MembershipResponse × Catalog
put_with group channel c none h = (error (group_not_found group), c)
put_with group channel c (some g) none = (error (channel_not_found channel), c)
put_with group channel c (some g) (some h) =
    put_with_membership group channel c (get_membership_by_channel_id channel c)

-- `put_channel_group_membership`.
unfoldable pub put_channel_group_membership :
    ℕ → ℕ → Catalog → Response MembershipResponse × Catalog
unfolding get_group_by_id get_channel_by_id get_membership_by_channel_id add_channel_membership
put_channel_group_membership group channel c =
    put_with group channel c (get_group_by_id group c) (get_channel_by_id channel c)

abbrev pub no_longer : ℕ → ℕ → Response MembershipResponse
no_longer group channel = ok (record { group_id = group; channel_id = channel; is_member = false })

abbrev pub delete_with_membership :
    ℕ → ℕ → Catalog → Option ChannelGroupMembershipRecord → Response MembershipResponse × Catalog
delete_with_membership group channel c none = (no_longer group channel, c)
delete_with_membership group channel c (some m) =
    if m.group_id == group
    then (no_longer group channel, (remove_channel_membership group channel c).1)
    else (no_longer group channel, c)

abbrev pub delete_with :
    ℕ → ℕ → Catalog → Option ChannelGroupRecord → Response MembershipResponse × Catalog
delete_with group channel c none = (error (group_not_found group), c)
delete_with group channel c (some g) =
    delete_with_membership group channel c (get_membership_by_channel_id channel c)

-- `delete_channel_group_membership`.
unfoldable pub delete_channel_group_membership :
    ℕ → ℕ → Catalog → Response MembershipResponse × Catalog
unfolding get_group_by_id get_membership_by_channel_id remove_channel_membership
delete_channel_group_membership group channel c =
    delete_with group channel c (get_group_by_id group c)
