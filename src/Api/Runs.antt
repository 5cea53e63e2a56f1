-- ===== src/Api/Runs.antt =====
-- Every request keeps the catalog sound.
use Prim.Native.String.{String}
use tca.Base.{
  ℕ, ◌≡◌, refl, sym, ap, ◌∙◌, inl, inr, Bool, true, false, not, ◌&&◌, ◌||◌, Option, none, some,
  List, [], ◌∷◌, map, arith, ◌==◌, is_some, exists_row, member, Bool-cases, Option-cases,
  find_row-holds, is_some-find_row,
}
use tca.Base.Int.{ℤ}
use tca.Store.Keys.{fresh_key}
use tca.Store.{next_id}
use tca.Catalog.{
  ChannelRecord, ChannelGroupRecord, ChannelGroupMembershipRecord, Catalog, Field, unset, null, set,
  patched, is_channel, has_channel, has_group, is_assigned,
}
use tca.Channels.{
  create_channel, get_channel_by_id, update_channel, disable_channel, set_channel, set_enabled,
  set_enabled_state,
}
use tca.Channels.Purge.{Archive, purge_channel, purge_found}
use tca.Channels.Api.{
  ChannelPatch, is_set, required, patch_channel, patch_state, patch_updated, patch_fields,
  delete_channel, disabled_response, purged_response,
}
use tca.Groups.{
  create_group, get_group_by_id, update_group, set_group, add_channel_membership,
  remove_channel_membership, get_membership_by_channel_id, is_membership,
}
use tca.Groups.Api.{
  updated_group, patch_found, patch_channel_group, delete_channel_group, put_with_membership,
  put_with, put_channel_group_membership, delete_with_membership, delete_with,
  delete_channel_group_membership,
}
use tca.Api.{
  Request, post_channel, patch_channel_request, delete_channel_request, post_group, patch_group,
  delete_group_request, put_membership, delete_membership, handle, handle_all,
}
use tca.Api.Sound.{
  IsSound, channels-IsSound, new_channel-IsSound, groups-IsSound, new_group-IsSound,
  new_membership-IsSound, fewer_memberships-IsSound, delete_group-IsSound, drop_channel-IsSound,
  upsert_state-IsSound,
}

module _ (c : Catalog) (v : IsSound c) where
  update_channel-IsSound :
      (i : ℕ) (name : String) (username : Option String) (enabled : Bool)
      → IsSound (update_channel i name username enabled c).1
  unfolding update_channel
  update_channel-IsSound i name username enabled =
      channels-IsSound c v (set_channel i name username enabled) (λ r. ground arith)
        (λ r. ground arith) (λ r. ground arith)

  patch_state-IsSound :
      (p : ChannelPatch) (r : ChannelRecord)
      → has_channel r.id c ≡ true
      → IsSound (patch_state p r c).1
  patch_state-IsSound p r there =
      elim (Bool-cases (is_set p.paused_until || is_set p.last_success_at)) [
        | inl e ↦ rw e (upsert_state-IsSound c v r.id _ _ there)
        | inr e ↦ rw e v
      ]

  patch_updated-IsSound :
      (i : ℕ) (p : ChannelPatch) (o : Option ChannelRecord)
      → ((r : ChannelRecord) → o ≡ some r → has_channel r.id c ≡ true)
      → IsSound (patch_updated i p (o, c)).1
  patch_updated-IsSound i p none h = v
  patch_updated-IsSound i p (some r) h = patch_state-IsSound p r (h r refl)

-- A channel that is found is there.
found_channel :
    (i : ℕ) (c : Catalog) (r : ChannelRecord)
    → get_channel_by_id i c ≡ some r
    → has_channel r.id c ≡ true
unfolding get_channel_by_id
found_channel i c r e =
    let same : i ≡ r.id = ground (arith, find_row-holds (is_channel i) c.channels r e) in
    rw (sym same) (sym (is_some-find_row (is_channel i) c.channels) ∙ ap (λ o. is_some o) e)

module _ (c : Catalog) (v : IsSound c) where
  patch_fields-IsSound :
      (i : ℕ) (p : ChannelPatch) (r : ChannelRecord) (name : Option String) (enabled : Option Bool)
      → IsSound (patch_fields i p c r name enabled).1
  unfolding update_channel
  patch_fields-IsSound i p r none enabled = v
  patch_fields-IsSound i p r (some name) none = v
  patch_fields-IsSound i p r (some name) (some enabled) =
      patch_updated-IsSound c'
        (update_channel-IsSound c v i name (patched p.username r.username) enabled) i p
        (get_channel_by_id i c') (found_channel i c')
    where
      c' : Catalog
      c' = (update_channel i name (patched p.username r.username) enabled c).1

  patch_channel-IsSound : (i : ℕ) (p : ChannelPatch) → IsSound (patch_channel i p c).1
  unfolding patch_channel
  patch_channel-IsSound i p = elim (Option-cases (get_channel_by_id i c)) [
    | inl e ↦ rw e v
    | inr (r, e) ↦
        rw e
          (patch_fields-IsSound i p r (required p.name r.name) (required p.is_enabled r.is_enabled))
  ]

  disable_channel-IsSound : (i : ℕ) → IsSound (disabled_response i (disable_channel i c)).1
  unfolding set_enabled_state
  disable_channel-IsSound i = answered (get_channel_by_id i disabled)
    where
      disabled : Catalog
      disabled = record c { channels = map (set_enabled i false) c.channels }

      answered : (o : Option ChannelRecord) → IsSound (disabled_response i (o, disabled)).1
      answered none =
          channels-IsSound c v (set_enabled i false) (λ r. ground arith) (λ r. ground arith)
            (λ r. ground arith)
      answered (some r) =
          channels-IsSound c v (set_enabled i false) (λ r. ground arith) (λ r. ground arith)
            (λ r. ground arith)

  create_channel-IsSound :
      (account telegram : ℕ) (name : String) (username : Option String)
      → IsSound (create_channel account telegram name username c).1
  unfolding create_channel
  create_channel-IsSound account telegram name username =
      elim (Bool-cases (member account c.accounts)) [
        | inr e ↦ rw e v
        | inl e ↦
            elim (Bool-cases
              (exists_row (λ (r : ChannelRecord). telegram == r.telegram_channel_id) c.channels)) [
                | inl used ↦ rw (e, used) v
                | inr unused ↦
                    rw (e, unused)
                      (new_channel-IsSound c v
                        (record {
                          id = next_id (map (λ (r : ChannelRecord). r.id) c.channels);
                          account_id = account;
                          telegram_channel_id = telegram;
                          name = name;
                          username = username;
                          is_enabled = true;
                        })
                        (fresh_key (λ (r : ChannelRecord). r.id) c.channels) unused e)
              ]
      ]

  create_group-IsSound :
      (name : String) (description : Option String) (horizon : Option ℤ)
      → IsSound (create_group name description horizon c).1
  unfolding create_group
  create_group-IsSound name description horizon =
      new_group-IsSound c v _ (fresh_key (λ (g : ChannelGroupRecord). g.id) c.groups)

  updated_group-IsSound :
      (i : ℕ) (o : Option ChannelGroupRecord) (c' : Catalog)
      → IsSound c'
      → IsSound (updated_group i (o, c')).1
  updated_group-IsSound i none c' w = w
  updated_group-IsSound i (some g) c' w = w

  update_group-IsSound :
      (i : ℕ) (name : String) (description : Option String) (horizon : Option ℤ)
      → IsSound (updated_group i (update_group i name description horizon c)).1
  unfolding update_group
  update_group-IsSound i name description horizon =
      updated_group-IsSound i _ _
        (groups-IsSound c v (set_group i name description horizon) (λ g. ground arith))

  patch_found-IsSound :
      (i : ℕ) (name description : Field String) (horizon : Field ℤ) (o : Option ChannelGroupRecord)
      → IsSound (patch_found i name description horizon c o).1
  patch_found-IsSound i name description horizon none = v
  patch_found-IsSound i null description horizon (some g) = v
  patch_found-IsSound i unset description horizon (some g) = update_group-IsSound i g.name _ _
  patch_found-IsSound i (set name) description horizon (some g) = update_group-IsSound i name _ _

  add_membership-IsSound :
      (g h : ℕ) (o : Option ChannelGroupMembershipRecord) → IsSound (put_with_membership g h c o).1
  unfolding add_channel_membership
  add_membership-IsSound g h (some m) = elim (Bool-cases (m.group_id == g)) [
    | inl e ↦ rw e v
    | inr e ↦ rw e v
  ]
  add_membership-IsSound g h none = elim (Bool-cases (is_assigned h c)) [
    | inl e ↦ rw e v
    | inr free ↦ elim (Bool-cases (has_group g c && has_channel h c)) [
      | inr e ↦ rw (free, e) v
      | inl e ↦
          rw (free, e)
            (new_membership-IsSound c v (record { group_id = g; channel_id = h }) free
              (ground arith) (ground arith))
    ]
  ]

  put_with-IsSound :
      (g h : ℕ) (og : Option ChannelGroupRecord) (oh : Option ChannelRecord)
      → IsSound (put_with g h c og oh).1
  put_with-IsSound g h none oh = v
  put_with-IsSound g h (some r) none = v
  put_with-IsSound g h (some r) (some r') =
      add_membership-IsSound g h (get_membership_by_channel_id h c)

  delete_with_membership-IsSound :
      (g h : ℕ) (o : Option ChannelGroupMembershipRecord)
      → IsSound (delete_with_membership g h c o).1
  unfolding remove_channel_membership
  delete_with_membership-IsSound g h none = v
  delete_with_membership-IsSound g h (some m) = elim (Bool-cases (m.group_id == g)) [
    | inl e ↦ rw e (fewer_memberships-IsSound c v (λ x. not (is_membership g h x)))
    | inr e ↦ rw e v
  ]

  delete_with-IsSound :
      (g h : ℕ) (og : Option ChannelGroupRecord) → IsSound (delete_with g h c og).1
  delete_with-IsSound g h none = v
  delete_with-IsSound g h (some r) =
      delete_with_membership-IsSound g h (get_membership_by_channel_id h c)

module _ (s : Archive) (v : IsSound s.catalog) where
  delete_channel-IsSound : (i : ℕ) (purge : Bool) → IsSound (delete_channel i purge s).1.catalog
  unfolding delete_channel purge_channel
  delete_channel-IsSound i false = disable_channel-IsSound s.catalog v i
  delete_channel-IsSound i true = purged (get_channel_by_id i s.catalog)
    where
      purged :
          (o : Option ChannelRecord) → IsSound (purged_response i (purge_found i s o)).1.catalog
      purged none = v
      purged (some r) = drop_channel-IsSound s.catalog v i

  pub handle-IsSound : (q : Request) → IsSound (handle q s).catalog
  unfolding handle patch_channel_group delete_channel_group put_channel_group_membership
      delete_channel_group_membership
  handle-IsSound (post_channel account telegram name username) =
      create_channel-IsSound s.catalog v account telegram name username
  handle-IsSound (patch_channel_request i p) = patch_channel-IsSound s.catalog v i p
  handle-IsSound (delete_channel_request i purge) = delete_channel-IsSound i purge
  handle-IsSound (post_group name description horizon) =
      create_group-IsSound s.catalog v name description horizon
  handle-IsSound (patch_group i name description horizon) =
      patch_found-IsSound s.catalog v i name description horizon (get_group_by_id i s.catalog)
  handle-IsSound (delete_group_request i) = delete_group-IsSound s.catalog v i
  handle-IsSound (put_membership g h) =
      put_with-IsSound s.catalog v g h (get_group_by_id g s.catalog) (get_channel_by_id h s.catalog)
  handle-IsSound (delete_membership g h) =
      delete_with-IsSound s.catalog v g h (get_group_by_id g s.catalog)

-- Any requests to the handlers of channels and groups, the purge of a channel included, keep a
-- catalog sound: the keys and the Telegram ids are distinct, no channel is in two groups, and
-- channels, memberships and states refer to rows that are there.
pub handle_all-IsSound :
    (qs : List Request) (s : Archive) → IsSound s.catalog → IsSound (handle_all qs s).catalog
unfolding handle_all
handle_all-IsSound [] s v = v
handle_all-IsSound (q ∷ qs) s v = handle_all-IsSound qs (handle q s) (handle-IsSound s v q)
