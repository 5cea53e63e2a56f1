-- ===== src/Store/Delete.antt =====
-- DELETE on the tables that others refer to, with the foreign-key actions of the migrations, and
-- what each leaves of the questions `has_item`, `has_cluster`, `has_member`.
use tca.Base.{
  ℕ, ◌≡◌, refl, true, not, ◌&&◌, List, map, ◌==◌, keep, exists_row-keep_const, exists_row-map,
  member, arith,
}
use tca.Store.{
  Item, Cluster, Member, Decision, Stamped, Delivery, Database, has_item, has_cluster, has_member,
  is_member_row, set_null,
}

-- DELETE FROM items WHERE id IN ids: the memberships and the decisions on the items go, the
-- references from clusters and from candidates become NULL.
unfoldable pub delete_items : List ℕ → Database → Database
unfolding set_null keep
delete_items ids db = record db {
  items = keep (λ (r : Item). not (member r.id ids)) db.items;
  clusters =
      map
        (λ (r : Cluster). record r {
          representative_item_id = set_null ids r.representative_item_id;
        })
        db.clusters;
  members = keep (λ (m : Member). not (member m.item_id ids)) db.members;
  decisions =
      map (λ (d : Decision). record d { candidate_item_id = set_null ids d.candidate_item_id })
        (keep (λ (d : Decision). not (member d.item_id ids)) db.decisions);
}

-- DELETE FROM dedupe_clusters WHERE id IN ids: the memberships and the deliveries go, the
-- decisions lose the reference.
unfoldable pub delete_clusters : List ℕ → Database → Database
unfolding set_null keep
delete_clusters ids db = record db {
  clusters = keep (λ (r : Cluster). not (member r.id ids)) db.clusters;
  members = keep (λ (m : Member). not (member m.cluster_id ids)) db.members;
  decisions =
      map (λ (d : Decision). record d { cluster_id = set_null ids d.cluster_id }) db.decisions;
  deliveries = keep (λ (d : Delivery). not (member d.cluster_id ids)) db.deliveries;
}

-- DELETE FROM raw_messages WHERE id IN ids: the items stay, without their raw message.
unfoldable pub delete_raw_messages : List ℕ → Database → Database
unfolding set_null keep
delete_raw_messages ids db = record db {
  raw_messages = keep (λ (r : Stamped). not (member r.id ids)) db.raw_messages;
  items = map (λ (r : Item). record r { raw_message_id = set_null ids r.raw_message_id }) db.items;
}

-- Equal keys have equal answers.
pub not-member_of_eq :
    (k j : ℕ) (ids : List ℕ) → (k == j) ≡ true → not (member j ids) ≡ not (member k ids)
not-member_of_eq k j ids h = let e : k ≡ j = ground arith in ground arith

module _ (ids : List ℕ) (db : Database) where
  pub has_item-delete_items :
      (i : ℕ) → has_item i (delete_items ids db) ≡ (has_item i db && not (member i ids))
  unfolding delete_items
  has_item-delete_items i =
      exists_row-keep_const (λ (r : Item). i == r.id) (λ r. not (member r.id ids))
        (not (member i ids)) db.items (λ r. not-member_of_eq i r.id ids)

  pub has_cluster-delete_items : (c : ℕ) → has_cluster c (delete_items ids db) ≡ has_cluster c db
  unfolding delete_items
  has_cluster-delete_items c = exists_row-map (λ (r : Cluster). c == r.id) _ db.clusters

  pub has_member-delete_items :
      (c i : ℕ) → has_member c i (delete_items ids db) ≡ (has_member c i db && not (member i ids))
  unfolding delete_items
  has_member-delete_items c i =
      exists_row-keep_const (is_member_row c i) (λ (m : Member). not (member m.item_id ids))
        (not (member i ids)) db.members (λ m h. not-member_of_eq i m.item_id ids (ground arith))

  pub has_item-delete_clusters : (i : ℕ) → has_item i (delete_clusters ids db) ≡ has_item i db
  unfolding delete_clusters
  has_item-delete_clusters i = refl

  pub has_cluster-delete_clusters :
      (c : ℕ) → has_cluster c (delete_clusters ids db) ≡ (has_cluster c db && not (member c ids))
  unfolding delete_clusters
  has_cluster-delete_clusters c =
      exists_row-keep_const (λ (r : Cluster). c == r.id) (λ r. not (member r.id ids))
        (not (member c ids)) db.clusters (λ r. not-member_of_eq c r.id ids)

  pub has_member-delete_clusters :
      (c i : ℕ)
      → has_member c i (delete_clusters ids db) ≡ (has_member c i db && not (member c ids))
  unfolding delete_clusters
  has_member-delete_clusters c i =
      exists_row-keep_const (is_member_row c i) (λ (m : Member). not (member m.cluster_id ids))
        (not (member c ids)) db.members (λ m h. not-member_of_eq c m.cluster_id ids (ground arith))

  pub has_item-delete_raw_messages :
      (i : ℕ) → has_item i (delete_raw_messages ids db) ≡ has_item i db
  unfolding delete_raw_messages
  has_item-delete_raw_messages i = exists_row-map (λ (r : Item). i == r.id) _ db.items
