-- ===== src/Channels/Purge/Content.antt =====
-- What is left after a channel was purged.
use tca.Base.{
  ℕ, ◌≡◌, refl, sym, ap, ◌∙◌, Bool, true, false, not, ◌&&◌, Option, none, some, List, [], ◌∷◌, ◌++◌,
  arith, ◌==◌, ==_refl, is_some, some_eq, keep, exists_row, exists_row-keep, exists_row_at,
  exists_row_witness, exists_row_mono, count_rows, member, member-map, Bool_ext, find_row-holds,
  is_some-find_row,
}
use tca.Store.{Item, Stamped, Member, Database, has_item, has_cluster, has_member, is_member_row}
use tca.Store.Rank.{representative}
use tca.Store.Delete.{
  delete_raw_messages, has_item-delete_items, has_cluster-delete_items, has_member-delete_items,
  has_item-delete_raw_messages,
}
use tca.Store.Integrity.{
  IsIntact, represents, has_raw_message, represents-delete_items,
  has_raw_message-delete_raw_messages, untouched_by_items,
}
use tca.Store.Cascade.{delete_items-IsIntact, delete_raw_messages-IsIntact}
use tca.Store.Keys.{without_key}
use tca.Catalog.{ChannelRecord, Catalog, has_channel, is_channel}
use tca.Channels.{get_channel_by_id}
use tca.Prune.{has_any_member}
use tca.Prune.Items.{member-add_affected}
use tca.Channels.Purge.{
  PurgeNotice, Archive, items_of, raw_messages_of, cluster_ids_of, drop_channel, drop_content,
  repair, purge_found, purge_channel,
}
use tca.Channels.Purge.Repair.{repair-Repaired}

-- The cluster has an item of the channel.
abbrev pub loses : ℕ → ℕ → Archive → Bool
loses ch c s =
    exists_row (λ (m : Member). c == m.cluster_id && ch == s.item_channel m.item_id) s.db.members

-- What a purge of a channel that is there leaves of an archive: all but the channel's items and raw
-- messages; the memberships of the items that are left; the clusters, less those that lost an item and
-- have none left; those that lost one represented by their best item, the others as before.
pub record Purged (ch : ℕ) (s s' : Archive) : Type 0 where
  pub intact : IsIntact s'.db
  pub channels : (k : ℕ) → has_channel k s'.catalog ≡ (has_channel k s.catalog && not (ch == k))
  pub items : (i : ℕ) → has_item i s'.db ≡ (has_item i s.db && not (ch == s.item_channel i))
  pub raw_messages :
      (k : ℕ) → has_raw_message k s'.db ≡ (has_raw_message k s.db && not (ch == s.raw_channel k))
  pub members :
      (c i : ℕ) → has_member c i s'.db ≡ (has_member c i s.db && not (ch == s.item_channel i))
  pub clusters :
      (c : ℕ)
      → has_cluster c s'.db
        ≡ (has_cluster c s.db && not (loses ch c s && not (has_any_member c s'.db)))
  pub represented :
      (c k : ℕ)
      → loses ch c s ≡ true
      → represents c k s'.db ≡ (has_cluster c s'.db && some_eq (representative c s'.db) k)
  pub others : (c k : ℕ) → loses ch c s ≡ false → represents c k s'.db ≡ represents c k s.db

module _ (ch : ℕ) (s : Archive) (v : IsIntact s.db) where
  member-items_of : (i : ℕ) → member i (items_of ch s) ≡ (has_item i s.db && ch == s.item_channel i)
  member-items_of i =
      member-map (λ (r : Item). r.id) i (keep (λ (r : Item). ch == s.item_channel r.id) s.db.items)
      ∙ exists_row-keep (λ (r : Item). i == r.id) (λ (r : Item). ch == s.item_channel r.id)
          s.db.items
      ∙ exists_row_at (λ (r : Item). r.id) (λ k. ch == s.item_channel k) i s.db.items

  member-raw_messages_of :
      (k : ℕ) → member k (raw_messages_of ch s) ≡ (has_raw_message k s.db && ch == s.raw_channel k)
  member-raw_messages_of k =
      member-map (λ (r : Stamped). r.id) k
        (keep (λ (r : Stamped). ch == s.raw_channel r.id) s.db.raw_messages)
      ∙ exists_row-keep (λ (r : Stamped). k == r.id) (λ (r : Stamped). ch == s.raw_channel r.id)
          s.db.raw_messages
      ∙ exists_row_at (λ (r : Stamped). r.id) (λ j. ch == s.raw_channel j) k s.db.raw_messages

  listed_of_loses :
      (c : ℕ)
      → loses ch c s ≡ true
      → exists_row
          (λ (m : Member). c == m.cluster_id && member m.item_id (items_of ch s))
          s.db.members
        ≡ true
  listed_of_loses c h =
      let (m, e, all) = exists_row_witness _ s.db.members h in
      let there : has_member m.cluster_id m.item_id s.db ≡ true =
        all (is_member_row m.cluster_id m.item_id)
          (ground (arith, ==_refl m.cluster_id, ==_refl m.item_id)) in
      all (λ (x : Member). c == x.cluster_id && member x.item_id (items_of ch s))
        (ground (arith, v.member_item m.cluster_id m.item_id there, member-items_of m.item_id))

  -- The clusters that the statement lists are those that lose an item.
  member-cluster_ids_of : (c : ℕ) → member c (cluster_ids_of ch s) ≡ loses ch c s
  unfolding cluster_ids_of member
  member-cluster_ids_of c =
      member-add_affected c (items_of ch s) s.db.members []
      ∙ Bool_ext _ _
          (exists_row_mono _ _ s.db.members (λ m h. ground (arith, member-items_of m.item_id)))
          (listed_of_loses c)

  abbrev without_raw : Database
  without_raw = delete_raw_messages (raw_messages_of ch s) s.db

  dropped-IsIntact : IsIntact (drop_content ch s)
  dropped-IsIntact =
      delete_items-IsIntact (items_of ch s) without_raw
        (delete_raw_messages-IsIntact (raw_messages_of ch s) s.db v)

  same_without_raw :
      ((c i : ℕ) → has_member c i without_raw ≡ has_member c i s.db)
      × ((c : ℕ) → has_cluster c without_raw ≡ has_cluster c s.db)
      × ((c k : ℕ) → represents c k without_raw ≡ represents c k s.db)
  unfolding delete_raw_messages
  same_without_raw = (λ c i. refl, λ c. refl, λ c k. refl)

  items-dropped :
      (i : ℕ) → has_item i (drop_content ch s) ≡ (has_item i s.db && not (ch == s.item_channel i))
  items-dropped i = ground (
    arith,
    has_item-delete_items (items_of ch s) without_raw i,
    has_item-delete_raw_messages (raw_messages_of ch s) s.db i,
    member-items_of i,
  )

  raw_messages-dropped :
      (k : ℕ)
      → has_raw_message k (drop_content ch s)
        ≡ (has_raw_message k s.db && not (ch == s.raw_channel k))
  raw_messages-dropped k = ground (
    arith,
    (untouched_by_items (items_of ch s) without_raw).1 k,
    has_raw_message-delete_raw_messages (raw_messages_of ch s) s.db k,
    member-raw_messages_of k,
  )

  members-dropped :
      (c i : ℕ)
      → has_member c i (drop_content ch s) ≡ (has_member c i s.db && not (ch == s.item_channel i))
  members-dropped c i =
      let (same, _, _) = same_without_raw in
      ground (
        arith,
        has_member-delete_items (items_of ch s) without_raw c i,
        same c i,
        member-items_of i,
        v.member_item c i,
      )

  clusters-dropped : (c : ℕ) → has_cluster c (drop_content ch s) ≡ has_cluster c s.db
  clusters-dropped c =
      let (_, same, _) = same_without_raw in
      has_cluster-delete_items (items_of ch s) without_raw c ∙ same c

  loses_of_member :
      (c k : ℕ) → has_member c k s.db ≡ true → (ch == s.item_channel k) ≡ true → loses ch c s ≡ true
  loses_of_member c k h e =
      exists_row_mono (is_member_row c k)
        (λ (m : Member). c == m.cluster_id && ch == s.item_channel m.item_id) s.db.members
        (λ m g. let same : k ≡ m.item_id = ground arith in rw (sym same) (ground arith)) h

  represents-dropped :
      (c k : ℕ) → loses ch c s ≡ false → represents c k (drop_content ch s) ≡ represents c k s.db
  represents-dropped c k h =
      let (_, _, same) = same_without_raw in
      ground (
        arith,
        represents-delete_items (items_of ch s) without_raw c k,
        same c k,
        member-items_of k,
        v.representative_member c k,
        loses_of_member c k,
      )

  purged :
      (c' : Catalog) (ns : List PurgeNotice)
      → ((k : ℕ) → has_channel k c' ≡ (has_channel k s.catalog && not (ch == k)))
      → Purged ch s (record s {
        catalog = c';
        db = repair (cluster_ids_of ch s) (drop_content ch s);
        notices = ns;
      })
  purged c' ns channels =
      let q = repair-Repaired (cluster_ids_of ch s) (drop_content ch s) dropped-IsIntact in
      record {
        intact = q.intact;
        channels = channels;
        items = λ i. ap (exists_row (λ (r : Item). i == r.id)) q.items ∙ items-dropped i;
        raw_messages = λ k.
            ap (exists_row (λ (r : Stamped). k == r.id)) q.raw_messages ∙ raw_messages-dropped k;
        members = λ c i. q.members c i ∙ members-dropped c i;
        clusters = λ c. ground (arith, q.clusters c, clusters-dropped c, member-cluster_ids_of c);
        represented = λ c k h. q.listed c k (member-cluster_ids_of c ∙ h);
        others = λ c k h. q.others c k (member-cluster_ids_of c ∙ h) ∙ represents-dropped c k h;
      }

abbrev pub PurgeOutcome : ℕ → Archive → Option ChannelRecord × Archive → Type 0
PurgeOutcome ch s (none, s') = (has_channel ch s.catalog ≡ false) × (s' ≡ s)
PurgeOutcome ch s (some r, s') =
    (r.id ≡ ch)
    × (has_channel ch s.catalog ≡ true)
    × Purged ch s s'
    × (s'.notices
        ≡ s.notices
          ++ record {
            channel_id = ch;
            channel_name = r.name;
            deleted_items = count_rows (λ (i : Item). ch == s.item_channel i.id) s.db.items;
            deleted_raw_messages =
                count_rows (λ (m : Stamped). ch == s.raw_channel m.id) s.db.raw_messages;
            affected_cluster_ids = cluster_ids_of ch s;
          }
            ∷ [])

-- On an intact database, `purge_channel` returns None and changes nothing when the channel is
-- missing. Else it returns the channel and leaves an intact database: the channel is gone, with
-- its items and its raw messages and no others; memberships go exactly with their items; a
-- cluster goes exactly when it lost an item and has none left; a cluster that lost one and stays
-- is represented by its best item, and the others as before; and one notification has the exact
-- counts and the affected clusters.
pub purge_channel_outcome :
    (ch : ℕ) (s : Archive) → IsIntact s.db → PurgeOutcome ch s (purge_channel ch s)
unfolding purge_channel get_channel_by_id drop_channel
purge_channel_outcome ch s v =
    found_or_not (get_channel_by_id ch s.catalog) refl
      (is_some-find_row (is_channel ch) s.catalog.channels)
  where
    found_or_not :
        (o : Option ChannelRecord)
        → get_channel_by_id ch s.catalog ≡ o
        → is_some (get_channel_by_id ch s.catalog) ≡ has_channel ch s.catalog
        → PurgeOutcome ch s (purge_found ch s o)
    found_or_not none e there = (sym there ∙ ap is_some e, refl)
    found_or_not (some r) e there = (
      sym (ground (arith, find_row-holds (is_channel ch) s.catalog.channels r e)),
      sym there ∙ ap is_some e,
      purged ch s v (drop_channel ch s.catalog) _
          (λ k. without_key (λ (r : ChannelRecord). r.id) ch k s.catalog.channels),
      refl,
    )
