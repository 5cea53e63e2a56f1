-- ===== src/Store/Cascade.antt =====
-- Deleting rows, with what the foreign keys do, keeps a database intact.
use tca.Base.{ℕ, ◌∙◌, List, arith}
use tca.Store.Delete.{
  delete_items, delete_clusters, delete_raw_messages, has_item-delete_items,
  has_cluster-delete_items, has_member-delete_items, has_item-delete_clusters,
  has_cluster-delete_clusters, has_member-delete_clusters, has_item-delete_raw_messages,
}
use tca.Store.{Database}
use tca.Store.Integrity.{
  decides-delete_clusters, IsIntact, represents-delete_items, decides-delete_items,
  decides_cluster-delete_items, decides_candidate-delete_items, stems_from-delete_items,
  represents-delete_clusters, decides_cluster-delete_clusters, decides_candidate-delete_clusters,
  delivers-delete_clusters, stems_from-delete_raw_messages, has_raw_message-delete_raw_messages,
  untouched_by_items, untouched_by_clusters,
}

module _ (ids : List ℕ) (db : Database) where
  -- Deleting items leaves no row that refers to a missing one.
  pub delete_items-IsIntact : IsIntact db → IsIntact (delete_items ids db)
  delete_items-IsIntact v = record {
    member_cluster = λ c i h. ground (
      arith,
      v.member_cluster c i,
      has_member-delete_items ids db c i,
      has_cluster-delete_items ids db c,
    );
    member_item = λ c i h. ground (
      arith,
      v.member_item c i,
      has_member-delete_items ids db c i,
      has_item-delete_items ids db i,
    );
    representative_member = λ c k h. ground (
      arith,
      v.representative_member c k,
      represents-delete_items ids db c k,
      has_member-delete_items ids db c k,
    );
    decision_item = λ i h.
        ground
          (arith, v.decision_item i, decides-delete_items ids db i, has_item-delete_items ids db i);
    decision_cluster = λ c h. ground (
      arith,
      v.decision_cluster c,
      decides_cluster-delete_items ids db c h,
      has_cluster-delete_items ids db c,
    );
    decision_candidate = λ i h. ground (
      arith,
      v.decision_candidate i,
      decides_candidate-delete_items ids db i h,
      has_item-delete_items ids db i,
    );
    delivery_cluster = λ c h. ground (
      arith,
      v.delivery_cluster c,
      (untouched_by_items ids db).0 c,
      has_cluster-delete_items ids db c,
    );
    item_raw_message = λ k h. ground (
      arith,
      v.item_raw_message k,
      stems_from-delete_items ids db k h,
      (untouched_by_items ids db).1 k,
    );
  }

  -- So does deleting clusters.
  pub delete_clusters-IsIntact : IsIntact db → IsIntact (delete_clusters ids db)
  delete_clusters-IsIntact v = record {
    member_cluster = λ c i h. ground (
      arith,
      v.member_cluster c i,
      has_member-delete_clusters ids db c i,
      has_cluster-delete_clusters ids db c,
    );
    member_item = λ c i h. ground (
      arith,
      v.member_item c i,
      has_member-delete_clusters ids db c i,
      has_item-delete_clusters ids db i,
    );
    representative_member = λ c k h. ground (
      arith,
      v.representative_member c k,
      represents-delete_clusters ids db c k,
      has_member-delete_clusters ids db c k,
    );
    decision_item = λ i h. ground (
      arith,
      v.decision_item i,
      decides-delete_clusters ids db i,
      has_item-delete_clusters ids db i,
    );
    decision_cluster = λ c h. ground (
      arith,
      v.decision_cluster c,
      decides_cluster-delete_clusters ids db c,
      has_cluster-delete_clusters ids db c,
    );
    decision_candidate = λ i h. ground (
      arith,
      v.decision_candidate i,
      decides_candidate-delete_clusters ids db i,
      has_item-delete_clusters ids db i,
    );
    delivery_cluster = λ c h. ground (
      arith,
      v.delivery_cluster c,
      delivers-delete_clusters ids db c,
      has_cluster-delete_clusters ids db c,
    );
    item_raw_message = λ k h. ground (
      arith,
      v.item_raw_message k,
      (untouched_by_clusters ids db).0 k,
      (untouched_by_clusters ids db).1 k,
    );
  }

  -- And so does deleting raw messages.
  pub delete_raw_messages-IsIntact : IsIntact db → IsIntact (delete_raw_messages ids db)
  unfolding delete_raw_messages
  delete_raw_messages-IsIntact v = record {
    member_cluster = v.member_cluster;
    member_item = λ c i h. has_item-delete_raw_messages ids db i ∙ v.member_item c i h;
    representative_member = v.representative_member;
    decision_item = λ i h. has_item-delete_raw_messages ids db i ∙ v.decision_item i h;
    decision_cluster = v.decision_cluster;
    decision_candidate = λ i h. has_item-delete_raw_messages ids db i ∙ v.decision_candidate i h;
    delivery_cluster = v.delivery_cluster;
    item_raw_message = λ k h.
        unfold delete_raw_messages in
        ground (
          arith,
          v.item_raw_message k,
          stems_from-delete_raw_messages ids db k,
          has_raw_message-delete_raw_messages ids db k,
        );
  }
