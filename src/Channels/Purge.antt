-- ===== src/Channels/Purge.antt =====
-- `purge_channel` of tca/storage/channels_repo.py: a hard delete, with what the foreign keys take along,
-- and the repair of the clusters that lose an item.
pub mod Repair
pub mod Content
mod Tests
use Prim.Native.String.{String}
use tca.Base.{
  ℕ, Bool, true, false, not, ◌&&◌, Option, none, some, List, [], ◌∷◌, ◌++◌, map, ◌==◌, keep,
  exists_row, count_rows, length, if◌then◌else◌,
}
use tca.Store.{Item, Stamped, Member, Database}
use tca.Store.Delete.{delete_items, delete_raw_messages}
use tca.Store.Recompute.{recompute_representatives}
use tca.Scheduler.{ChannelState}
use tca.Catalog.{ChannelRecord, ChannelGroupMembershipRecord, Catalog, is_channel, is_of_channel}
use tca.Channels.{get_channel_by_id, is_state_of}
use tca.Prune.{add_affected, delete_empty_clusters}

-- The `channel_purged` notification.
pub record PurgeNotice : Type 0 where
  pub channel_id : ℕ
  pub channel_name : String
  pub deleted_items : ℕ
  pub deleted_raw_messages : ℕ
  pub affected_cluster_ids : List ℕ

-- The catalog and the content, with the columns `items.channel_id` and `raw_messages.channel_id` as
-- functions of the rows' keys.
pub record Archive : Type 0 where
  pub catalog : Catalog
  pub db : Database
  pub item_channel : ℕ → ℕ
  pub raw_channel : ℕ → ℕ
  pub notices : List PurgeNotice

-- The keys of the channel's items and of its raw messages.
abbrev pub items_of : ℕ → Archive → List ℕ
items_of ch s = map (λ (i : Item). i.id) (keep (λ (i : Item). ch == s.item_channel i.id) s.db.items)

abbrev pub raw_messages_of : ℕ → Archive → List ℕ
raw_messages_of ch s =
    map (λ (r : Stamped). r.id) (keep (λ (r : Stamped). ch == s.raw_channel r.id) s.db.raw_messages)

-- The clusters of the channel's items, each once; SQL leaves their order open.
unfoldable pub cluster_ids_of : ℕ → Archive → List ℕ
unfolding add_affected keep
cluster_ids_of ch s = add_affected (items_of ch s) s.db.members []

-- DELETE FROM telegram_channels WHERE id = ch, in the catalog,
unfoldable pub drop_channel : ℕ → Catalog → Catalog
unfolding keep
drop_channel ch c = record c {
  channels = keep (λ r. not (is_channel ch r)) c.channels;
  memberships = keep (λ m. not (is_of_channel ch m)) c.memberships;
  states = keep (λ s. not (is_state_of ch s)) c.states;
}

-- and in the content.
abbrev pub drop_content : ℕ → Archive → Database
drop_content ch s = delete_items (items_of ch s) (delete_raw_messages (raw_messages_of ch s) s.db)

-- `if cluster_ids:` recompute the representatives, then delete the clusters without members.
unfoldable pub repair : List ℕ → Database → Database
unfolding recompute_representatives delete_empty_clusters
repair [] db = db
repair (c ∷ cs) db = (delete_empty_clusters (c ∷ cs) (recompute_representatives (c ∷ cs) db)).1

abbrev pub purge_found : ℕ → Archive → Option ChannelRecord → Option ChannelRecord × Archive
purge_found ch s none = (none, s)
purge_found ch s (some r) = (
  some r,
  record s {
    catalog = drop_channel ch s.catalog;
    db = repair (cluster_ids_of ch s) (drop_content ch s);
    notices =
        s.notices
        ++ record {
          channel_id = ch;
          channel_name = r.name;
          deleted_items = count_rows (λ (i : Item). ch == s.item_channel i.id) s.db.items;
          deleted_raw_messages =
              count_rows (λ (m : Stamped). ch == s.raw_channel m.id) s.db.raw_messages;
          affected_cluster_ids = cluster_ids_of ch s;
        }
          ∷ [];
  },
)

-- `purge_channel`.
unfoldable pub purge_channel : ℕ → Archive → Option ChannelRecord × Archive
unfolding get_channel_by_id cluster_ids_of drop_channel delete_items delete_raw_messages repair
    count_rows
purge_channel ch s = purge_found ch s (get_channel_by_id ch s.catalog)
