-- ===== src/Groups/Leave.antt =====
-- `delete_channel_group_membership` and `delete_channel_group` implement the plan.
use tca.Base.{
  ℕ, ◌≡◌, refl, inl, inr, Bool, true, false, not, Option, none, some, arith, ◌==◌, ==_refl,
  if◌then◌else◌, is_some, Bool-cases, find_row, find_row-holds, is_some-find_row,
}
use tca.Store.Unique.{kept, find_row-keep_unique}
use tca.Catalog.{
  ChannelGroupRecord, ChannelGroupMembershipRecord, Catalog, Response, is_of_channel, has_group,
  is_group,
}
use tca.Groups.{
  get_group_by_id, get_membership_by_channel_id, is_membership, remove_channel_membership,
  delete_group,
}
use tca.Groups.Api.{
  MembershipResponse, delete_channel_group_membership, delete_channel_group, delete_with,
  delete_with_membership,
}
use tca.Groups.Plan.{group_in, group_of, delete_answer, without, delete_plan, IsAssignedOnce}

module _ (g h : ℕ) (c : Catalog) (once : IsAssignedOnce c) where
  removed_plan :
      (k : ℕ)
      → group_of k (remove_channel_membership g h c).1 ≡ delete_plan g h true (λ j. group_of j c) k
  unfolding remove_channel_membership get_membership_by_channel_id
  removed_plan k =
      rw
        (find_row-keep_unique (λ (m : ChannelGroupMembershipRecord). m.channel_id)
          (λ m. not (is_membership g h m)) k c.memberships once)
        (left (find_row (is_of_channel k) c.memberships)
          (find_row-holds (is_of_channel k) c.memberships))
    where
      left :
          (o : Option ChannelGroupMembershipRecord)
          → ((m : ChannelGroupMembershipRecord) → o ≡ some m → is_of_channel k m ≡ true)
          → group_in (kept (λ m. not (is_membership g h m)) o)
            ≡ (if k == h then without g (group_in o) else group_in o)
      left none f = ground arith
      left (some m) f = ground (arith, f m refl)

  unchanged_plan :
      (k : ℕ)
      → without g (group_of h c) ≡ group_of h c
      → group_of k c ≡ delete_plan g h true (λ j. group_of j c) k
  unchanged_plan k e = elim (Bool-cases (k == h)) [
    | inl same ↦ let eq : k ≡ h = ground arith in rw (eq, e, ==_refl h) refl
    | inr other ↦ rw other refl
  ]

  abbrev pub DeleteOutcome : Bool → Response MembershipResponse × Catalog → Type 0
  DeleteOutcome there (r, c') =
      (r ≡ delete_answer g h there)
      × ((k : ℕ) → group_of k c' ≡ delete_plan g h there (λ j. group_of j c) k)

  delete_with_membership_lem :
      (o : Option ChannelGroupMembershipRecord)
      → get_membership_by_channel_id h c ≡ o
      → DeleteOutcome true (delete_with_membership g h c o)
  delete_with_membership_lem none e = (refl, λ k. unchanged_plan k (rw e refl))
  delete_with_membership_lem (some m) e = elim (Bool-cases (m.group_id == g)) [
    | inl same ↦ rw same (refl, removed_plan)
    | inr other ↦ rw other (refl, λ k. unchanged_plan k (rw e (rw other refl)))
  ]

  delete_with_lem :
      (og : Option ChannelGroupRecord) (hg : Bool)
      → is_some og ≡ hg
      → DeleteOutcome hg (delete_with g h c og)
  delete_with_lem none false a = (refl, λ k. refl)
  delete_with_lem none true a = cc
  delete_with_lem (some r) false a = cc
  delete_with_lem (some r) true a =
      delete_with_membership_lem (get_membership_by_channel_id h c) refl

  -- A DELETE of a channel from a group answers alike whether the channel was in it.
  pub delete_channel_group_membership_lem :
      DeleteOutcome (has_group g c) (delete_channel_group_membership g h c)
  unfolding delete_channel_group_membership get_group_by_id
  delete_channel_group_membership_lem =
      delete_with_lem (get_group_by_id g c) (has_group g c) (is_some-find_row (is_group g) c.groups)

-- A deleted group is the group of no channel, and the others stay.
pub delete_channel_group-plan :
    (g k : ℕ) (c : Catalog)
    → IsAssignedOnce c
    → group_of k (delete_channel_group g c).1 ≡ without g (group_of k c)
unfolding delete_channel_group delete_group get_membership_by_channel_id
delete_channel_group-plan g k c once =
    rw
      (find_row-keep_unique (λ (m : ChannelGroupMembershipRecord). m.channel_id)
        (λ m. not (g == m.group_id)) k c.memberships once)
      (left (find_row (is_of_channel k) c.memberships))
  where
    left :
        (o : Option ChannelGroupMembershipRecord)
        → group_in (kept (λ m. not (g == m.group_id)) o) ≡ without g (group_in o)
    left none = refl
    left (some m) = ground arith
