-- ===== src/Groups/Put.antt =====
-- `put_channel_group_membership` implements the plan.
use tca.Base.{
  ℕ, ◌≡◌, refl, sym, ap, ◌∙◌, inl, inr, Bool, true, false, Option, none, some, [], ◌∷◌, ◌++◌, arith,
  ◌==◌, ==_refl, if◌then◌else◌, is_some, Bool-cases, find_row, find_row-append, is_some-find_row,
}
use tca.Catalog.{
  ChannelRecord, ChannelGroupRecord, ChannelGroupMembershipRecord, Catalog, Response, is_of_channel,
  has_group, has_channel, is_assigned, is_channel, is_group,
}
use tca.Channels.{get_channel_by_id}
use tca.Groups.{get_group_by_id, get_membership_by_channel_id, add_channel_membership}
use tca.Groups.Api.{MembershipResponse, put_channel_group_membership, put_with, put_with_membership}
use tca.Groups.Plan.{group_in, group_of, put_answer, put_plan}

module _ (g h : ℕ) (c : Catalog) where
  -- What a handler's answer and tables are to be.
  abbrev pub PutOutcome : Bool → Bool → Response MembershipResponse × Catalog → Type 0
  PutOutcome there_g there_h (r, c') =
      (r ≡ put_answer g h there_g there_h (group_of h c))
      × ((k : ℕ) → group_of k c' ≡ put_plan g h there_g there_h (λ j. group_of j c) k)

  put_kept :
      (k : ℕ) (m : ChannelGroupMembershipRecord)
      → get_membership_by_channel_id h c ≡ some m
      → group_of k c ≡ put_plan g h true true (λ j. group_of j c) k
  put_kept k m e = elim (Bool-cases (k == h)) [
    | inl same ↦ let eq : k ≡ h = ground arith in rw (eq, e, ==_refl h) refl
    | inr other ↦ rw other refl
  ]

  abbrev row : ChannelGroupMembershipRecord
  row = record { group_id = g; channel_id = h }

  put_added :
      (k : ℕ)
      → get_membership_by_channel_id h c ≡ none
      → is_assigned h c ≡ false
      → group_of k (record c { memberships = c.memberships ++ row ∷ [] })
        ≡ put_plan g h true true (λ j. group_of j c) k
  unfolding get_membership_by_channel_id find_row
  put_added k e free = elim (Bool-cases (k == h)) [
    | inl same ↦
        let eq : k ≡ h = ground arith in
        rw (eq, find_row-append (is_of_channel h) c.memberships (row ∷ []), free, e, ==_refl h) refl
    | inr other ↦
        rw (find_row-append (is_of_channel k) c.memberships (row ∷ []), other)
          (only_first (find_row (is_of_channel k) c.memberships)
            (is_some-find_row (is_of_channel k) c.memberships))
  ]
    where
      only_first :
          (o : Option ChannelGroupMembershipRecord)
          → is_some o ≡ is_assigned k c
          → group_in (if is_assigned k c then o else none) ≡ group_in o
      only_first none a = rw (sym a) refl
      only_first (some m) a = rw (sym a) refl

  put_with_membership_lem :
      (o : Option ChannelGroupMembershipRecord)
      → get_membership_by_channel_id h c ≡ o
      → has_group g c ≡ true
      → has_channel h c ≡ true
      → PutOutcome true true (put_with_membership g h c o)
  unfolding add_channel_membership
  put_with_membership_lem (some m) e hg hh = elim (Bool-cases (m.group_id == g)) [
    | inl same ↦ rw same (rw (e, same) refl, λ k. put_kept k m e)
    | inr other ↦ rw other (rw (e, other) refl, λ k. put_kept k m e)
  ]
  put_with_membership_lem none e hg hh = rw (free, hg, hh) (rw e refl, λ k. put_added k e free)
    where
      free : is_assigned h c ≡ false
      free =
          unfold get_membership_by_channel_id in
          sym (is_some-find_row (is_of_channel h) c.memberships) ∙ ap is_some e

-- A PUT of a channel into a group answers from the tables before it: not found for a missing
-- group, else for a missing channel, a conflict that names the group that the channel is in when
-- that is another one, and else a membership; no error of the database occurs; and the channel is
-- then in the group exactly when it was, or when it was in none and both are there, all other
-- channels being where they were.
pub put_channel_group_membership_lem :
    (g h : ℕ) (c : Catalog)
    → PutOutcome g h c (has_group g c) (has_channel h c) (put_channel_group_membership g h c)
unfolding put_channel_group_membership get_group_by_id get_channel_by_id
put_channel_group_membership_lem g h c =
    put_with_lem (get_group_by_id g c) (get_channel_by_id h c) (has_group g c) (has_channel h c)
      refl refl (is_some-find_row (is_group g) c.groups)
      (is_some-find_row (is_channel h) c.channels)
  where
    put_with_lem :
        (og : Option ChannelGroupRecord) (oh : Option ChannelRecord) (hg hh : Bool)
        → has_group g c ≡ hg
        → has_channel h c ≡ hh
        → is_some og ≡ hg
        → is_some oh ≡ hh
        → PutOutcome g h c hg hh (put_with g h c og oh)
    put_with_lem none oh true hh e f a b = cc
    put_with_lem none oh false hh e f a b = (refl, λ k. refl)
    put_with_lem (some r) none false hh e f a b = cc
    put_with_lem (some r) none true true e f a b = cc
    put_with_lem (some r) none true false e f a b = (refl, λ k. refl)
    put_with_lem (some r) (some r') false hh e f a b = cc
    put_with_lem (some r) (some r') true false e f a b = cc
    put_with_lem (some r) (some r') true true e f a b =
        put_with_membership_lem g h c (get_membership_by_channel_id h c) refl e f
