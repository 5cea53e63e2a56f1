-- ===== src/Channels/Purge/Tests.antt =====
-- A purge of one of two channels, and the theorem at it.
use tca.Base.{
  ℕ, ◌≡◌, refl, true, none, some, [], ◌∷◌, arith, exists_row, member, if◌then◌else◌, ◌==◌,
}
use tca.Store.{Item, Stamped}
use tca.Store.Integrity.{IsIntact}
use tca.Store.Rank.{representative}
use tca.Channels.Purge.{Archive, purge_channel}
use tca.Channels.Purge.Content.{PurgeOutcome, purge_channel_outcome}

abbrev post : ℕ → Item
post i = record {
  id = i;
  raw_message_id = some i;
  published_at = some i;
  title = some (65 ∷ []);
  body = none;
  canonical_url = none;
  created_at = i;
}

abbrev at : ℕ → Stamped
at i = record { id = i; created_at = i }

-- Items 1 and 3 are of channel 7, item 2 of channel 8; cluster 1 has items 1 and 2, cluster 2 item 3.
abbrev archive : Archive
archive = record {
  catalog = record {
    accounts = 1 ∷ [];
    channels =
        record {
          id = 7;
          account_id = 1;
          telegram_channel_id = 70;
          name = "gone";
          username = none;
          is_enabled = true;
        }
        ∷ record {
          id = 8;
          account_id = 1;
          telegram_channel_id = 80;
          name = "kept";
          username = none;
          is_enabled = true;
        }
        ∷ [];
    groups = [];
    memberships = [];
    states = [];
  };
  db = record {
    items = post 1 ∷ post 2 ∷ post 3 ∷ [];
    clusters =
        record { id = 1; representative_item_id = some 1 }
        ∷ record { id = 2; representative_item_id = some 3 }
        ∷ [];
    members =
        record { cluster_id = 1; item_id = 1 }
        ∷ record { cluster_id = 1; item_id = 2 }
        ∷ record { cluster_id = 2; item_id = 3 }
        ∷ [];
    decisions = [];
    raw_messages = at 1 ∷ at 2 ∷ at 3 ∷ [];
    ingest_errors = [];
    deliveries = [];
  };
  item_channel = λ i. if i == 2 then 8 else 7;
  raw_channel = λ i. if i == 2 then 8 else 7;
  notices = [];
}

archive-IsIntact : IsIntact archive.db
unfolding exists_row
archive-IsIntact = record {
  member_cluster = λ c i h. ground arith;
  member_item = λ c i h. ground arith;
  representative_member = λ c k h. ground arith;
  decision_item = λ i h. cc;
  decision_cluster = λ c h. cc;
  decision_candidate = λ i h. cc;
  delivery_cluster = λ c h. cc;
  item_raw_message = λ k h. ground arith;
}

purge_channel_outcome_example : PurgeOutcome 7 archive (purge_channel 7 archive)
purge_channel_outcome_example = purge_channel_outcome 7 archive archive-IsIntact

-- The first cluster keeps item 2, the second goes.
clusters_left :
    (purge_channel 7 archive).1.db.clusters
    ≡ record { id = 1; representative_item_id = some 2 } ∷ []
unfolding purge_channel member exists_row representative
clusters_left = refl
