-- ===== src/Api/Tests.antt =====
-- One account, two channels and two groups, and the theorems at them.
use tca.Base.{◌≡◌, refl, true, false, none, some, List, [], ◌∷◌}
use tca.Base.Int.{pos}
use tca.Channels.Purge.{Archive}
use tca.Catalog.{has_channel, channel_assignment_conflict, error, unset, null, set}
use tca.Groups.Api.{put_channel_group_membership}
use tca.Groups.Plan.{group_of}
use tca.Groups.Put.{PutOutcome, put_channel_group_membership_lem}
use tca.Api.{
  Request, post_channel, patch_channel_request, delete_channel_request, post_group, patch_group,
  put_membership, handle_all,
}
use tca.Api.Sound.{IsSound}
use tca.Api.Runs.{handle_all-IsSound}
use tca.Api.Plan.{PlanRun, view}
use tca.Api.Refinement.{handle_all-PlanRun}

abbrev empty : Archive
empty = record {
  catalog = record { accounts = 1 ∷ []; channels = []; groups = []; memberships = []; states = [] };
  db = record {
    items = [];
    members = [];
    clusters = [];
    decisions = [];
    raw_messages = [];
    ingest_errors = [];
    deliveries = [];
  };
  item_channel = λ i. 0;
  raw_channel = λ i. 0;
  notices = [];
}

empty-IsSound : IsSound empty.catalog
unfolding handle_all
empty-IsSound = record {
  channel_ids = tt;
  telegram_ids = tt;
  group_ids = tt;
  assigned_once = tt;
  state_ids = tt;
  channel_account = λ a h. cc;
  membership_group = λ g h. cc;
  membership_channel = λ c h. cc;
  state_channel = λ c h. cc;
}

-- Two channels, two groups; the first channel goes into the second group, which is then renamed; then an
-- attempt to move it, and the purge of the other channel and of one that is not there.
abbrev requests : List Request
requests =
    post_channel 1 700 "news" none
    ∷ post_channel 1 701 "more news" (some "more")
    ∷ post_channel 1 700 "again" none
    ∷ post_channel 9 702 "no account" none
    ∷ post_group "first" none (some (pos 5))
    ∷ post_group "second" none none
    ∷ put_membership 2 1
    ∷ patch_group 2 (set "renamed") unset (set (pos 60))
    ∷ put_membership 1 1
    ∷ patch_channel_request 1 (record {
      name = unset;
      username = null;
      is_enabled = set false;
      paused_until = set 90;
      last_success_at = unset;
    })
    ∷ delete_channel_request 2 true
    ∷ delete_channel_request 3 true
    ∷ delete_channel_request 1 false
    ∷ []

abbrev filled : Archive
filled = handle_all requests empty

filled_groups : (group_of 1 filled.catalog ≡ some 2) × (group_of 2 filled.catalog ≡ none)
unfolding handle_all put_channel_group_membership
filled_groups = (refl, refl)

handle_all-IsSound_example : IsSound (handle_all requests empty).catalog
handle_all-IsSound_example = handle_all-IsSound requests empty empty-IsSound

handle_all-PlanRun_example : PlanRun requests (view empty.catalog) (view filled.catalog)
handle_all-PlanRun_example = handle_all-PlanRun requests empty empty-IsSound

put_channel_group_membership_lem_example :
    PutOutcome 1 1 filled.catalog true true (put_channel_group_membership 1 1 filled.catalog)
unfolding handle_all
put_channel_group_membership_lem_example = put_channel_group_membership_lem 1 1 filled.catalog

-- The attempt to move it names the group that it is in.
put_again :
    (put_channel_group_membership 1 1 filled.catalog).0 ≡ error (channel_assignment_conflict 1 2)
unfolding handle_all put_channel_group_membership
put_again = refl

-- The purged channel is gone, the other is disabled.
filled_channels : (has_channel 1 filled.catalog ≡ true) × (has_channel 2 filled.catalog ≡ false)
unfolding handle_all
filled_channels = (refl, refl)
