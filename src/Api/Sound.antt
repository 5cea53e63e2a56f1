-- ===== src/Api/Sound.antt =====
-- A sound catalog: distinct keys, no channel in two groups, and no reference to a missing row; and the
-- changes that keep it so.
use tca.Base.{
  ℕ, ◌≡◌, sym, ap, ◌∙◌, inl, inr, Bool, true, false, not, Option, List, [], ◌∷◌, ◌++◌, map, arith,
  ◌==◌, keep, exists_row, exists_row-map, exists_row_ext, member, Bool-cases,
}
use tca.Store.Unique.{IsUnique, keep-IsUnique, map-map_key}
use tca.Store.Keys.{new-IsUnique, exists_row-snoc, exists_row-keep_le, new_reference, without_key}
use tca.Scheduler.{ChannelState}
use tca.Catalog.{
  ChannelRecord, ChannelGroupRecord, ChannelGroupMembershipRecord, Catalog, is_channel, is_group,
  is_of_channel, has_channel, has_group, is_assigned,
}
use tca.Channels.{is_state_of, replace_state, upsert_state}
use tca.Channels.Purge.{drop_channel}
use tca.Groups.{delete_group}

abbrev is_on_account : ℕ → ChannelRecord → Bool
is_on_account a r = a == r.account_id

abbrev is_in_group : ℕ → ChannelGroupMembershipRecord → Bool
is_in_group g m = g == m.group_id

pub record IsSound (c : Catalog) : Type 0 where
  pub channel_ids : IsUnique (map (λ (r : ChannelRecord). r.id) c.channels)
  pub telegram_ids : IsUnique (map (λ (r : ChannelRecord). r.telegram_channel_id) c.channels)
  pub group_ids : IsUnique (map (λ (g : ChannelGroupRecord). g.id) c.groups)
  pub assigned_once :
      IsUnique (map (λ (m : ChannelGroupMembershipRecord). m.channel_id) c.memberships)
  pub state_ids : IsUnique (map (λ (s : ChannelState). s.channel_id) c.states)
  pub channel_account :
      (a : ℕ) → exists_row (is_on_account a) c.channels ≡ true → member a c.accounts ≡ true
  pub membership_group :
      (g : ℕ) → exists_row (is_in_group g) c.memberships ≡ true → has_group g c ≡ true
  pub membership_channel : (h : ℕ) → is_assigned h c ≡ true → has_channel h c ≡ true
  pub state_channel : (h : ℕ) → exists_row (is_state_of h) c.states ≡ true → has_channel h c ≡ true

module _ (c : Catalog) (v : IsSound c) where
  -- Channels that change no key and no reference.
  pub channels-IsSound :
      (f : ChannelRecord → ChannelRecord)
      → ((r : ChannelRecord) → (f r).id ≡ r.id)
      → ((r : ChannelRecord) → (f r).telegram_channel_id ≡ r.telegram_channel_id)
      → ((r : ChannelRecord) → (f r).account_id ≡ r.account_id)
      → IsSound (record c { channels = map f c.channels })
  channels-IsSound f i t a = record {
    channel_ids = rw (map-map_key (λ (r : ChannelRecord). r.id) f c.channels i) v.channel_ids;
    telegram_ids =
        rw (map-map_key (λ (r : ChannelRecord). r.telegram_channel_id) f c.channels t)
          v.telegram_ids;
    group_ids = v.group_ids;
    assigned_once = v.assigned_once;
    state_ids = v.state_ids;
    channel_account =
        λ k h. v.channel_account k (same (is_on_account k) (λ r. ap (λ x. k == x) (a r)) ∙ h);
    membership_group = v.membership_group;
    membership_channel =
        λ k h. sym (same (is_channel k) (λ r. ap (λ x. k == x) (i r))) ∙ v.membership_channel k h;
    state_channel =
        λ k h. sym (same (is_channel k) (λ r. ap (λ x. k == x) (i r))) ∙ v.state_channel k h;
  }
    where
      same :
          (p : ChannelRecord → Bool)
          → ((r : ChannelRecord) → p (f r) ≡ p r)
          → exists_row p c.channels ≡ exists_row p (map f c.channels)
      same p e = sym (exists_row-map p f c.channels ∙ exists_row_ext (λ r. p (f r)) p c.channels e)

  -- A new channel.
  pub new_channel-IsSound :
      (r : ChannelRecord)
      → has_channel r.id c ≡ false
      → exists_row
          (λ (x : ChannelRecord). r.telegram_channel_id == x.telegram_channel_id)
          c.channels
        ≡ false
      → member r.account_id c.accounts ≡ true
      → IsSound (record c { channels = c.channels ++ r ∷ [] })
  new_channel-IsSound r fresh unused there = record {
    channel_ids = new-IsUnique (λ (x : ChannelRecord). x.id) c.channels r fresh v.channel_ids;
    telegram_ids =
        new-IsUnique (λ (x : ChannelRecord). x.telegram_channel_id) c.channels r unused
          v.telegram_ids;
    group_ids = v.group_ids;
    assigned_once = v.assigned_once;
    state_ids = v.state_ids;
    channel_account =
        new_reference (λ (x : ChannelRecord). x.account_id) (λ k. member k c.accounts) c.channels r
          v.channel_account there;
    membership_group = v.membership_group;
    membership_channel = λ k h. more k (v.membership_channel k h);
    state_channel = λ k h. more k (v.state_channel k h);
  }
    where
      more :
          (k : ℕ) → has_channel k c ≡ true → exists_row (is_channel k) (c.channels ++ r ∷ []) ≡ true
      more k h = ground (arith, exists_row-snoc (is_channel k) c.channels r)

  -- Groups that change no key.
  pub groups-IsSound :
      (f : ChannelGroupRecord → ChannelGroupRecord)
      → ((g : ChannelGroupRecord) → (f g).id ≡ g.id)
      → IsSound (record c { groups = map f c.groups })
  groups-IsSound f i = record {
    channel_ids = v.channel_ids;
    telegram_ids = v.telegram_ids;
    group_ids = rw (map-map_key (λ (g : ChannelGroupRecord). g.id) f c.groups i) v.group_ids;
    assigned_once = v.assigned_once;
    state_ids = v.state_ids;
    channel_account = v.channel_account;
    membership_group = λ k h.
        exists_row-map (is_group k) f c.groups
        ∙ exists_row_ext (λ g. is_group k (f g)) (is_group k) c.groups (λ g. ap (λ x. k == x) (i g))
        ∙ v.membership_group k h;
    membership_channel = v.membership_channel;
    state_channel = v.state_channel;
  }

  -- A new group.
  pub new_group-IsSound :
      (g : ChannelGroupRecord)
      → has_group g.id c ≡ false
      → IsSound (record c { groups = c.groups ++ g ∷ [] })
  new_group-IsSound g fresh = record {
    channel_ids = v.channel_ids;
    telegram_ids = v.telegram_ids;
    group_ids = new-IsUnique (λ (x : ChannelGroupRecord). x.id) c.groups g fresh v.group_ids;
    assigned_once = v.assigned_once;
    state_ids = v.state_ids;
    channel_account = v.channel_account;
    membership_group =
        λ k h. ground (arith, v.membership_group k h, exists_row-snoc (is_group k) c.groups g);
    membership_channel = v.membership_channel;
    state_channel = v.state_channel;
  }

  -- A new membership, of a channel that is in no group.
  pub new_membership-IsSound :
      (m : ChannelGroupMembershipRecord)
      → is_assigned m.channel_id c ≡ false
      → has_group m.group_id c ≡ true
      → has_channel m.channel_id c ≡ true
      → IsSound (record c { memberships = c.memberships ++ m ∷ [] })
  new_membership-IsSound m free hg hh = record {
    channel_ids = v.channel_ids;
    telegram_ids = v.telegram_ids;
    group_ids = v.group_ids;
    assigned_once =
        new-IsUnique (λ (x : ChannelGroupMembershipRecord). x.channel_id) c.memberships m free
          v.assigned_once;
    state_ids = v.state_ids;
    channel_account = v.channel_account;
    membership_group =
        new_reference (λ (x : ChannelGroupMembershipRecord). x.group_id) (λ k. has_group k c)
          c.memberships m v.membership_group hg;
    membership_channel =
        new_reference (λ (x : ChannelGroupMembershipRecord). x.channel_id) (λ k. has_channel k c)
          c.memberships m v.membership_channel hh;
    state_channel = v.state_channel;
  }

  -- Fewer memberships.
  pub fewer_memberships-IsSound :
      (p : ChannelGroupMembershipRecord → Bool)
      → IsSound (record c { memberships = keep p c.memberships })
  fewer_memberships-IsSound p = record {
    channel_ids = v.channel_ids;
    telegram_ids = v.telegram_ids;
    group_ids = v.group_ids;
    assigned_once =
        keep-IsUnique (λ (m : ChannelGroupMembershipRecord). m.channel_id) p c.memberships
          v.assigned_once;
    state_ids = v.state_ids;
    channel_account = v.channel_account;
    membership_group =
        λ k h. v.membership_group k (exists_row-keep_le (is_in_group k) p c.memberships h);
    membership_channel =
        λ k h. v.membership_channel k (exists_row-keep_le (is_of_channel k) p c.memberships h);
    state_channel = v.state_channel;
  }

  -- A group that goes with its memberships.
  pub delete_group-IsSound : (i : ℕ) → IsSound (delete_group i c).1
  unfolding delete_group
  delete_group-IsSound i = record {
    channel_ids = v.channel_ids;
    telegram_ids = v.telegram_ids;
    group_ids =
        keep-IsUnique (λ (g : ChannelGroupRecord). g.id) (λ g. not (is_group i g)) c.groups
          v.group_ids;
    assigned_once = fewer.assigned_once;
    state_ids = v.state_ids;
    channel_account = v.channel_account;
    membership_group = λ k h. ground (
      arith,
      v.membership_group k,
      without_key (λ (m : ChannelGroupMembershipRecord). m.group_id) i k c.memberships,
      without_key (λ (g : ChannelGroupRecord). g.id) i k c.groups,
    );
    membership_channel = fewer.membership_channel;
    state_channel = v.state_channel;
  }
    where
      fewer : IsSound (record c {
        memberships =
            keep (λ (m : ChannelGroupMembershipRecord). not (i == m.group_id)) c.memberships;
      })
      fewer = fewer_memberships-IsSound (λ m. not (i == m.group_id))

  -- A channel that goes with its memberships and its state.
  pub drop_channel-IsSound : (i : ℕ) → IsSound (drop_channel i c)
  unfolding drop_channel
  drop_channel-IsSound i = record {
    channel_ids =
        keep-IsUnique (λ (r : ChannelRecord). r.id) (λ r. not (is_channel i r)) c.channels
          v.channel_ids;
    telegram_ids =
        keep-IsUnique (λ (r : ChannelRecord). r.telegram_channel_id) (λ r. not (is_channel i r))
          c.channels v.telegram_ids;
    group_ids = v.group_ids;
    assigned_once = fewer.assigned_once;
    state_ids =
        keep-IsUnique (λ (s : ChannelState). s.channel_id) (λ s. not (is_state_of i s)) c.states
          v.state_ids;
    channel_account =
        λ k h. v.channel_account k (exists_row-keep_le (is_on_account k) _ c.channels h);
    membership_group = fewer.membership_group;
    membership_channel = λ k h. ground (
      arith,
      v.membership_channel k,
      without_key (λ (m : ChannelGroupMembershipRecord). m.channel_id) i k c.memberships,
      without_key (λ (r : ChannelRecord). r.id) i k c.channels,
    );
    state_channel = λ k h. ground (
      arith,
      v.state_channel k,
      without_key (λ (s : ChannelState). s.channel_id) i k c.states,
      without_key (λ (r : ChannelRecord). r.id) i k c.channels,
    );
  }
    where
      fewer : IsSound (record c {
        memberships =
            keep (λ (m : ChannelGroupMembershipRecord). not (i == m.channel_id)) c.memberships;
      })
      fewer = fewer_memberships-IsSound (λ m. not (i == m.channel_id))

  states-IsSound :
      (states : List ChannelState)
      → IsUnique (map (λ (s : ChannelState). s.channel_id) states)
      → ((k : ℕ) → exists_row (is_state_of k) states ≡ true → has_channel k c ≡ true)
      → IsSound (record c { states = states })
  states-IsSound states u h = record {
    channel_ids = v.channel_ids;
    telegram_ids = v.telegram_ids;
    group_ids = v.group_ids;
    assigned_once = v.assigned_once;
    state_ids = u;
    channel_account = v.channel_account;
    membership_group = v.membership_group;
    membership_channel = v.membership_channel;
    state_channel = h;
  }

  -- A state that is written for a channel that is there.
  pub upsert_state-IsSound :
      (i : ℕ) (paused_until last_success_at : Option ℕ)
      → has_channel i c ≡ true
      → IsSound (upsert_state i paused_until last_success_at c).1
  unfolding upsert_state
  upsert_state-IsSound i paused_until last_success_at there =
      elim (Bool-cases (exists_row (is_state_of i) c.states)) [
        | inl old ↦ rw old (
            states-IsSound (map (replace_state row) c.states)
              (rw
                (map-map_key (λ (s : ChannelState). s.channel_id) (replace_state row) c.states key)
                v.state_ids)
              (λ k h. v.state_channel k (
                sym (
                  exists_row-map (is_state_of k) (replace_state row) c.states
                  ∙ exists_row_ext (λ s. is_state_of k (replace_state row s)) (is_state_of k)
                      c.states (λ s. ap (λ x. k == x) (key s)))
                ∙ h)))
        | inr new ↦ rw new (
            states-IsSound (c.states ++ row ∷ [])
              (new-IsUnique (λ (s : ChannelState). s.channel_id) c.states row new v.state_ids)
              (new_reference (λ (s : ChannelState). s.channel_id) (λ k. has_channel k c) c.states
                row v.state_channel there))
      ]
    where
      row : ChannelState
      row = record {
        channel_id = i;
        paused_until = paused_until;
        last_success_at = last_success_at;
      }

      key : (s : ChannelState) → (replace_state row s).channel_id ≡ s.channel_id
      key s = ground arith
