-- ===== src/Channels/Api.antt =====
-- tca/api/routes/channels.py: the handlers that answer with a channel and its polling state.
use Prim.Native.String.{String}
use tca.Base.{ℕ, Bool, true, false, ◌||◌, Option, none, some, List, map, if◌then◌else◌}
use tca.Scheduler.{ChannelState, get_state, paused_until_of, last_success_of}
use tca.Catalog.{
  ChannelRecord, Catalog, channel_not_found, null_name, null_is_enabled, Response, ok, error, Field,
  unset, null, set, patched,
}
use tca.Channels
use tca.Channels.{
  get_channel_by_id, update_channel, disable_channel, list_active_channels, upsert_state,
}
use tca.Channels.Purge.{Archive, purge_channel}

-- `ChannelResponse`: the channel, and the two times of its state.
pub record ChannelResponse : Type 0 where
  pub channel : ChannelRecord
  pub paused_until : Option ℕ
  pub last_success_at : Option ℕ

-- `_to_channel_response`.
abbrev pub to_channel_response : ChannelRecord → Option ChannelState → ChannelResponse
to_channel_response channel state = record {
  channel = channel;
  paused_until = paused_until_of state;
  last_success_at = last_success_of state;
}

-- `list_channels`.
unfoldable pub list_channels : Catalog → List ChannelResponse
unfolding list_active_channels get_state
list_channels c =
    map (λ (r : ChannelRecord). to_channel_response r (get_state r.id c.states))
      (list_active_channels none c)

-- `ChannelPatchRequest`.
pub record ChannelPatch : Type 0 where
  pub name : Field String
  pub username : Field String
  pub is_enabled : Field Bool
  pub paused_until : Field ℕ
  pub last_success_at : Field ℕ

abbrev pub is_set {ℓ} : {A : Type ℓ} → Field A → Bool
is_set unset = false
is_set null = true
is_set (set a) = true

-- `payload.x if "x" in fields_set else old`, for a field that cannot be null.
abbrev pub required {ℓ} : {A : Type ℓ} → Field A → A → Option A
required unset old = some old
required null old = none
required (set a) old = some a

-- The state's part of the handler, after the channel was updated.
abbrev pub patch_state : ChannelPatch → ChannelRecord → Catalog → Response ChannelResponse × Catalog
patch_state p r c =
    if is_set p.paused_until || is_set p.last_success_at
    then (let old = get_state r.id c.states in
        let (s, c') =
          upsert_state r.id (patched p.paused_until (paused_until_of old))
            (patched p.last_success_at (last_success_of old)) c in
        (ok (to_channel_response r (some s)), c'))
    else (ok (to_channel_response r (get_state r.id c.states)), c)

abbrev pub patch_updated :
    ℕ → ChannelPatch → Option ChannelRecord × Catalog → Response ChannelResponse × Catalog
patch_updated i p (none, c) = (error (channel_not_found i), c)
patch_updated i p (some r, c) = patch_state p r c

abbrev pub patch_fields :
    ℕ
    → ChannelPatch
    → Catalog
    → ChannelRecord
    → Option String
    → Option Bool
    → Response ChannelResponse × Catalog
patch_fields i p c r none enabled = (error null_name, c)
patch_fields i p c r (some name) none = (error null_is_enabled, c)
patch_fields i p c r (some name) (some enabled) =
    patch_updated i p (update_channel i name (patched p.username r.username) enabled c)

abbrev pub patch_found :
    ℕ → ChannelPatch → Catalog → Option ChannelRecord → Response ChannelResponse × Catalog
patch_found i p c none = (error (channel_not_found i), c)
patch_found i p c (some r) =
    patch_fields i p c r (required p.name r.name) (required p.is_enabled r.is_enabled)

-- `patch_channel`.
unfoldable pub patch_channel : ℕ → ChannelPatch → Catalog → Response ChannelResponse × Catalog
unfolding get_channel_by_id update_channel get_state upsert_state
patch_channel i p c = patch_found i p c (get_channel_by_id i c)

abbrev pub disabled_response :
    ℕ → Option ChannelRecord × Catalog → Response ChannelResponse × Catalog
disabled_response i (none, c) = (error (channel_not_found i), c)
disabled_response i (some r, c) = (ok (to_channel_response r (get_state i c.states)), c)

abbrev pub purged_response : ℕ → Option ChannelRecord × Archive → Response ChannelResponse × Archive
purged_response i (none, s) = (error (channel_not_found i), s)
purged_response i (some r, s) = (ok (to_channel_response r none), s)

-- `delete_channel`, with `purge` as its second argument.
unfoldable pub delete_channel : ℕ → Bool → Archive → Response ChannelResponse × Archive
unfolding Channels.set_enabled_state get_state purge_channel
delete_channel i true s = purged_response i (purge_channel i s)
delete_channel i false s =
    let (answer, c) = disabled_response i (disable_channel i s.catalog) in
    (answer, record s { catalog = c })
