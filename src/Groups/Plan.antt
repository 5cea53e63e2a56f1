-- ===== src/Groups/Plan.antt =====
-- What the groups' handlers promise: a plan that says which groups and channels there are and which
-- group each channel is in.
use tca.Base.{ℕ, Bool, true, false, Option, none, some, map, ◌==◌, if◌then◌else◌}
use tca.Store.Unique.{IsUnique}
use tca.Catalog.{
  ChannelGroupMembershipRecord, Catalog, Response, ok, error, group_not_found, channel_not_found,
  channel_assignment_conflict,
}
use tca.Groups.{get_membership_by_channel_id}
use tca.Groups.Api.{MembershipResponse}

abbrev pub group_in : Option ChannelGroupMembershipRecord → Option ℕ
group_in none = none
group_in (some m) = some m.group_id

-- The group that a channel is in.
abbrev pub group_of : ℕ → Catalog → Option ℕ
group_of k c = group_in (get_membership_by_channel_id k c)

abbrev pub answer : ℕ → ℕ → Bool → Response MembershipResponse
answer g h is_member = ok (record { group_id = g; channel_id = h; is_member = is_member })

-- What a PUT of the channel `h` into the group `g` answers, from whether they are there and from the
-- group that the channel is in.
abbrev pub put_answer : ℕ → ℕ → Bool → Bool → Option ℕ → Response MembershipResponse
put_answer g h false there old = error (group_not_found g)
put_answer g h true false old = error (channel_not_found h)
put_answer g h true true none = answer g h true
put_answer g h true true (some k) =
    if k == g then answer g h true else error (channel_assignment_conflict h k)

abbrev pub joined : ℕ → Option ℕ → Option ℕ
joined g none = some g
joined g (some old) = some old

-- And the groups after it: those of before, with `h` in `g` if it was in none.
abbrev pub put_plan : ℕ → ℕ → Bool → Bool → (ℕ → Option ℕ) → ℕ → Option ℕ
put_plan g h true true plan k = if k == h then joined g (plan h) else plan k
put_plan g h true false plan k = plan k
put_plan g h false there plan k = plan k

-- What a DELETE of the channel `h` from the group `g` answers, and the groups after it.
abbrev pub delete_answer : ℕ → ℕ → Bool → Response MembershipResponse
delete_answer g h false = error (group_not_found g)
delete_answer g h true = answer g h false

-- The group `g` is no longer that of a channel.
abbrev pub without : ℕ → Option ℕ → Option ℕ
without g none = none
without g (some old) = if old == g then none else some old

abbrev pub delete_plan : ℕ → ℕ → Bool → (ℕ → Option ℕ) → ℕ → Option ℕ
delete_plan g h false plan k = plan k
delete_plan g h true plan k = if k == h then without g (plan k) else plan k

-- No channel is in two groups.
abbrev pub IsAssignedOnce : Catalog → Type 0
IsAssignedOnce c = IsUnique (map (λ (m : ChannelGroupMembershipRecord). m.channel_id) c.memberships)
