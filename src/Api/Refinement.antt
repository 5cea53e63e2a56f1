-- ===== src/Api/Refinement.antt =====
-- Each request makes a step of the plan.
use Prim.Native.String.{String}
use tca.Base.{
  ℕ, ◌≡◌, refl, ◌∙◌, inl, inr, Bool, true, false, not, ◌&&◌, ◌||◌, Option, none, some, List, [],
  ◌∷◌, map, arith, ◌==◌, exists_row, member, Bool-cases, Option-cases,
}
use tca.Base.Int.{ℤ}
use tca.Store.{next_id}
use tca.Catalog.{
  ChannelRecord, ChannelGroupRecord, ChannelGroupMembershipRecord, Catalog, Field, unset, null, set,
  patched, is_channel, is_group, has_channel, has_group, is_assigned,
}
use tca.Channels.{
  create_channel, get_channel_by_id, update_channel, disable_channel, set_channel, set_enabled,
  set_enabled_state, upsert_state,
}
use tca.Channels.Purge.{Archive}
use tca.Channels.Api.{
  ChannelPatch, is_set, required, patch_channel, patch_state, patch_updated, patch_fields,
  delete_channel, disabled_response,
}
use tca.Groups.{
  create_group, get_group_by_id, update_group, set_group, delete_group, add_channel_membership,
  remove_channel_membership, get_membership_by_channel_id,
}
use tca.Groups.Api.{
  updated_group, patch_found, patch_channel_group, delete_channel_group, put_with_membership,
  put_with, put_channel_group_membership, delete_with_membership, delete_with,
  delete_channel_group_membership,
}
use tca.Groups.Put.{put_channel_group_membership_lem}
use tca.Groups.Leave.{delete_channel_group_membership_lem, delete_channel_group-plan}
use tca.Api.{
  Request, post_channel, patch_channel_request, delete_channel_request, post_group, patch_group,
  delete_group_request, put_membership, delete_membership, handle, handle_all,
}
use tca.Store.Keys.{without_key, exists_row-snoc, fresh_key, kept_key}
use tca.Api.Plan.{Plan, view, Agrees, IsSame, PlanStep, PlanRun}
use tca.Api.Removal.{delete_channel-Purges}
use tca.Api.Sound.{IsSound}
use tca.Api.Runs.{handle-IsSound}

abbrev same : (p : Plan) → IsSame p p
same p = (λ k. refl, λ k. refl, λ k. refl)

module _ (c : Catalog) where
  patch_state-same :
      (p : ChannelPatch) (r : ChannelRecord) → IsSame (view c) (view (patch_state p r c).1)
  unfolding upsert_state get_membership_by_channel_id
  patch_state-same p r = elim (Bool-cases (is_set p.paused_until || is_set p.last_success_at)) [
    | inl e ↦ rw e (same (view c))
    | inr e ↦ rw e (same (view c))
  ]

  patch_updated-same :
      (i : ℕ) (p : ChannelPatch) (o : Option ChannelRecord)
      → IsSame (view c) (view (patch_updated i p (o, c)).1)
  patch_updated-same i p none = same (view c)
  patch_updated-same i p (some r) = patch_state-same p r

IsSame-trans : (p q r : Plan) → IsSame p q → IsSame q r → IsSame p r
IsSame-trans p q r (a, b, d) (x, y, z) = (λ k. x k ∙ a k, λ k. y k ∙ b k, λ k. z k ∙ d k)

module _ (c : Catalog) where
  channels-same :
      (f : ChannelRecord → ChannelRecord)
      → ((r : ChannelRecord) → (f r).id ≡ r.id)
      → IsSame (view c) (view (record c { channels = map f c.channels }))
  unfolding get_membership_by_channel_id
  channels-same f e = (kept_key (λ (r : ChannelRecord). r.id) f c.channels e, λ k. refl, λ k. refl)

  patch_fields-same :
      (i : ℕ) (p : ChannelPatch) (r : ChannelRecord) (name : Option String) (enabled : Option Bool)
      → IsSame (view c) (view (patch_fields i p c r name enabled).1)
  unfolding update_channel
  patch_fields-same i p r none enabled = same (view c)
  patch_fields-same i p r (some name) none = same (view c)
  patch_fields-same i p r (some name) (some enabled) =
      IsSame-trans (view c) (view c') _
        (channels-same (set_channel i name (patched p.username r.username) enabled)
          (λ x. ground arith))
        (patch_updated-same c' i p (get_channel_by_id i c'))
    where
      c' : Catalog
      c' = (update_channel i name (patched p.username r.username) enabled c).1

  patch_channel-same : (i : ℕ) (p : ChannelPatch) → IsSame (view c) (view (patch_channel i p c).1)
  unfolding patch_channel
  patch_channel-same i p = elim (Option-cases (get_channel_by_id i c)) [
    | inl e ↦ rw e (same (view c))
    | inr (r, e) ↦
        rw e (patch_fields-same i p r (required p.name r.name) (required p.is_enabled r.is_enabled))
  ]

  disable_channel-same :
      (i : ℕ) → IsSame (view c) (view (disabled_response i (disable_channel i c)).1)
  unfolding set_enabled_state
  disable_channel-same i = answered (get_channel_by_id i disabled)
    where
      disabled : Catalog
      disabled = record c { channels = map (set_enabled i false) c.channels }

      answered :
          (o : Option ChannelRecord) → IsSame (view c) (view (disabled_response i (o, disabled)).1)
      answered none = channels-same (set_enabled i false) (λ r. ground arith)
      answered (some r) = channels-same (set_enabled i false) (λ r. ground arith)

  updated_group-same :
      (i : ℕ) (o : Option ChannelGroupRecord) (c' : Catalog)
      → IsSame (view c) (view c')
      → IsSame (view c) (view (updated_group i (o, c')).1)
  updated_group-same i none c' w = w
  updated_group-same i (some g) c' w = w

  update_group-same :
      (i : ℕ) (name : String) (description : Option String) (horizon : Option ℤ)
      → IsSame (view c) (view (updated_group i (update_group i name description horizon c)).1)
  unfolding update_group get_membership_by_channel_id
  update_group-same i name description horizon = updated_group-same i _ _ (
    λ k. refl,
    kept_key (λ (g : ChannelGroupRecord). g.id) (set_group i name description horizon) c.groups
        (λ g. ground arith),
    λ k. refl,
  )

  patch_group-same :
      (i : ℕ) (name description : Field String) (horizon : Field ℤ) (o : Option ChannelGroupRecord)
      → IsSame (view c) (view (patch_found i name description horizon c o).1)
  patch_group-same i name description horizon none = same (view c)
  patch_group-same i null description horizon (some g) = same (view c)
  patch_group-same i unset description horizon (some g) = update_group-same i g.name _ _
  patch_group-same i (set name) description horizon (some g) = update_group-same i name _ _

  create_channel-step :
      (account telegram : ℕ) (name : String) (username : Option String)
      → PlanStep
          (post_channel account telegram name username)
          (view c)
          (view (create_channel account telegram name username c).1)
  unfolding create_channel get_membership_by_channel_id
  create_channel-step account telegram name username =
      elim (Bool-cases (
        member account c.accounts
        && not
            (exists_row (λ (r : ChannelRecord). telegram == r.telegram_channel_id) c.channels))) [
              | inr e ↦ rw e (inl (same (view c)))
              | inl e ↦ rw e (
                  inr (
                    next_id (map (λ (r : ChannelRecord). r.id) c.channels),
                    fresh_key (λ (r : ChannelRecord). r.id) c.channels,
                    λ k. exists_row-snoc (is_channel k) c.channels _,
                    λ k. refl,
                    λ k. refl,
                  ))
            ]

  create_group-step :
      (name : String) (description : Option String) (horizon : Option ℤ)
      → PlanStep
          (post_group name description horizon)
          (view c)
          (view (create_group name description horizon c).1)
  unfolding create_group get_membership_by_channel_id
  create_group-step name description horizon = (
    next_id (map (λ (g : ChannelGroupRecord). g.id) c.groups),
    fresh_key (λ (g : ChannelGroupRecord). g.id) c.groups,
    λ k. refl,
    λ k. exists_row-snoc (is_group k) c.groups _,
    λ k. refl,
  )

  -- The handlers of memberships change neither table of keys.
  abbrev KeepsKeys : Catalog → Type 0
  KeepsKeys c' =
      Agrees (view c').channels (view c).channels × Agrees (view c').groups (view c).groups

  put_membership-keys :
      (g h : ℕ) (o : Option ChannelGroupMembershipRecord)
      → KeepsKeys (put_with_membership g h c o).1
  unfolding add_channel_membership
  put_membership-keys g h (some m) = elim (Bool-cases (m.group_id == g)) [
    | inl e ↦ rw e (λ k. refl, λ k. refl)
    | inr e ↦ rw e (λ k. refl, λ k. refl)
  ]
  put_membership-keys g h none = elim (Bool-cases (is_assigned h c)) [
    | inl e ↦ rw e (λ k. refl, λ k. refl)
    | inr free ↦ elim (Bool-cases (has_group g c && has_channel h c)) [
      | inl e ↦ rw (free, e) (λ k. refl, λ k. refl)
      | inr e ↦ rw (free, e) (λ k. refl, λ k. refl)
    ]
  ]

  put_with-keys :
      (g h : ℕ) (og : Option ChannelGroupRecord) (oh : Option ChannelRecord)
      → KeepsKeys (put_with g h c og oh).1
  put_with-keys g h none oh = (λ k. refl, λ k. refl)
  put_with-keys g h (some r) none = (λ k. refl, λ k. refl)
  put_with-keys g h (some r) (some r') = put_membership-keys g h (get_membership_by_channel_id h c)

  delete_membership-keys :
      (g h : ℕ) (o : Option ChannelGroupMembershipRecord)
      → KeepsKeys (delete_with_membership g h c o).1
  unfolding remove_channel_membership
  delete_membership-keys g h none = (λ k. refl, λ k. refl)
  delete_membership-keys g h (some m) = elim (Bool-cases (m.group_id == g)) [
    | inl e ↦ rw e (λ k. refl, λ k. refl)
    | inr e ↦ rw e (λ k. refl, λ k. refl)
  ]

  delete_with-keys : (g h : ℕ) (og : Option ChannelGroupRecord) → KeepsKeys (delete_with g h c og).1
  delete_with-keys g h none = (λ k. refl, λ k. refl)
  delete_with-keys g h (some r) = delete_membership-keys g h (get_membership_by_channel_id h c)

  delete_group-keys :
      (i : ℕ)
      → Agrees (view (delete_channel_group i c).1).channels (view c).channels
        × Agrees (view (delete_channel_group i c).1).groups (λ k. has_group k c && not (i == k))
  unfolding delete_channel_group delete_group
  delete_group-keys i =
      (λ k. refl, λ k. without_key (λ (g : ChannelGroupRecord). g.id) i k c.groups)

module _ (s : Archive) (v : IsSound s.catalog) where
  delete_channel-PlanStep :
      (i : ℕ) (purge : Bool)
      → PlanStep
          (delete_channel_request i purge)
          (view s.catalog)
          (view (delete_channel i purge s).1.catalog)
  unfolding delete_channel
  delete_channel-PlanStep i true = delete_channel-Purges i s v
  delete_channel-PlanStep i false = disable_channel-same s.catalog i

  handle-PlanStep : (q : Request) → PlanStep q (view s.catalog) (view (handle q s).catalog)
  unfolding handle patch_channel_group put_channel_group_membership delete_channel_group_membership
  handle-PlanStep (post_channel account telegram name username) =
      create_channel-step s.catalog account telegram name username
  handle-PlanStep (patch_channel_request i p) = patch_channel-same s.catalog i p
  handle-PlanStep (delete_channel_request i true) = delete_channel-PlanStep i true
  handle-PlanStep (delete_channel_request i false) = delete_channel-PlanStep i false
  handle-PlanStep (post_group name description horizon) =
      create_group-step s.catalog name description horizon
  handle-PlanStep (patch_group i name description horizon) =
      patch_group-same s.catalog i name description horizon (get_group_by_id i s.catalog)
  handle-PlanStep (delete_group_request i) =
      let (a, b) = delete_group-keys s.catalog i in
      (a, b, λ k. delete_channel_group-plan i k s.catalog v.assigned_once)
  handle-PlanStep (put_membership g h) =
      let (a, b) =
        put_with-keys s.catalog g h (get_group_by_id g s.catalog) (get_channel_by_id h s.catalog) in
      (a, b, (put_channel_group_membership_lem g h s.catalog).1)
  handle-PlanStep (delete_membership g h) =
      let (a, b) = delete_with-keys s.catalog g h (get_group_by_id g s.catalog) in
      (a, b, (delete_channel_group_membership_lem g h s.catalog v.assigned_once).1)

-- Any requests to the handlers of channels and groups, made one after another on a sound catalog,
-- the purge of a channel included, are a run of the abstract plan: which channels and groups
-- there are, and the group of each channel. A new row has a new key, a purged channel is gone and
-- in no group, a deleted group is the group of no channel, a PUT puts a channel that is in no
-- group into the group, if both are there, and changes nothing else, a DELETE takes it out of
-- that group only.
pub handle_all-PlanRun :
    (qs : List Request) (s : Archive)
    → IsSound s.catalog
    → PlanRun qs (view s.catalog) (view (handle_all qs s).catalog)
unfolding handle_all
handle_all-PlanRun [] s v = refl
handle_all-PlanRun (q ∷ qs) s v = (
  view (handle q s).catalog,
  handle-PlanStep s v q,
  handle_all-PlanRun qs (handle q s) (handle-IsSound s v q),
)
