-- ===== src/Store/Integrity.antt =====
-- What every transaction keeps: no row refers to a missing row, and a cluster's representative is
-- one of its members.
use tca.Base.{
  ℕ, ◌≡◌, refl, sym, ◌∙◌, Bool, true, not, ◌&&◌, Option, none, some, List, ◌==◌, some_eq,
  exists_row, exists_row-keep_const, exists_row_and, exists_row-map, exists_row_mono,
  exists_row-keep, exists_row-map-keep, exists_row_mono_and, member, arith, Bool-cases, inl, inr,
}
use tca.Store.Delete.{delete_items, delete_clusters, delete_raw_messages, not-member_of_eq}
use tca.Store.{
  Item, Cluster, Decision, Stamped, Delivery, Database, has_item, has_cluster, has_member, set_null,
}

-- Whether item `k` is the representative of cluster `c`.
abbrev pub represents : ℕ → ℕ → Database → Bool
represents c k db =
    exists_row (λ (r : Cluster). c == r.id && some_eq r.representative_item_id k) db.clusters

-- Whether some decision is on item `i`, names cluster `c`, has the candidate `i`.
abbrev pub decides : ℕ → Database → Bool
decides i db = exists_row (λ (d : Decision). i == d.item_id) db.decisions

abbrev pub decides_cluster : ℕ → Database → Bool
decides_cluster c db = exists_row (λ (d : Decision). some_eq d.cluster_id c) db.decisions

abbrev pub decides_candidate : ℕ → Database → Bool
decides_candidate i db = exists_row (λ (d : Decision). some_eq d.candidate_item_id i) db.decisions

abbrev pub delivers : ℕ → Database → Bool
delivers c db = exists_row (λ (d : Delivery). c == d.cluster_id) db.deliveries

abbrev pub stems_from : ℕ → Database → Bool
stems_from k db = exists_row (λ (r : Item). some_eq r.raw_message_id k) db.items

abbrev pub has_raw_message : ℕ → Database → Bool
has_raw_message k db = exists_row (λ (r : Stamped). k == r.id) db.raw_messages

pub record IsIntact (db : Database) : Type 0 where
  pub member_cluster : (c i : ℕ) → has_member c i db ≡ true → has_cluster c db ≡ true
  pub member_item : (c i : ℕ) → has_member c i db ≡ true → has_item i db ≡ true
  pub representative_member : (c k : ℕ) → represents c k db ≡ true → has_member c k db ≡ true
  pub decision_item : (i : ℕ) → decides i db ≡ true → has_item i db ≡ true
  pub decision_cluster : (c : ℕ) → decides_cluster c db ≡ true → has_cluster c db ≡ true
  pub decision_candidate : (i : ℕ) → decides_candidate i db ≡ true → has_item i db ≡ true
  pub delivery_cluster : (c : ℕ) → delivers c db ≡ true → has_cluster c db ≡ true
  pub item_raw_message : (k : ℕ) → stems_from k db ≡ true → has_raw_message k db ≡ true

some_eq-set_null :
    (ids : List ℕ) (o : Option ℕ) (k : ℕ)
    → some_eq (set_null ids o) k ≡ (some_eq o k && not (member k ids))
unfolding set_null
some_eq-set_null ids none k = refl
some_eq-set_null ids (some j) k = elim (Bool-cases (j == k)) [
  | inl same ↦ let e : j ≡ k = ground arith in ground arith
  | inr other ↦ ground arith
]

module _ (ids : List ℕ) (db : Database) where
  pub represents-delete_items :
      (c k : ℕ) → represents c k (delete_items ids db) ≡ (represents c k db && not (member k ids))
  unfolding delete_items
  represents-delete_items c k =
      exists_row-map (λ (r : Cluster). c == r.id && some_eq r.representative_item_id k) _
        db.clusters
      ∙ exists_row_and _ (λ (r : Cluster). c == r.id && some_eq r.representative_item_id k)
          (not (member k ids)) db.clusters
          (λ r. ground (arith, some_eq-set_null ids r.representative_item_id k))

  pub decides-delete_items :
      (i : ℕ) → decides i (delete_items ids db) ≡ (decides i db && not (member i ids))
  unfolding delete_items
  decides-delete_items i =
      exists_row-map (λ (d : Decision). i == d.item_id) _ _
      ∙ exists_row-keep_const (λ (d : Decision). i == d.item_id) (λ d. not (member d.item_id ids))
          (not (member i ids)) db.decisions (λ d. not-member_of_eq i d.item_id ids)

  pub decides_cluster-delete_items :
      (c : ℕ) → decides_cluster c (delete_items ids db) ≡ true → decides_cluster c db ≡ true
  unfolding delete_items
  decides_cluster-delete_items c h =
      exists_row_mono _ (λ (d : Decision). some_eq d.cluster_id c) db.decisions (λ d. ground arith)
        (sym (exists_row-map-keep (λ (d : Decision). some_eq d.cluster_id c) _ _ db.decisions) ∙ h)

  pub decides_candidate-delete_items :
      (i : ℕ)
      → decides_candidate i (delete_items ids db) ≡ true
      → (decides_candidate i db && not (member i ids)) ≡ true
  unfolding delete_items
  decides_candidate-delete_items i h =
      exists_row_mono_and _ (λ (d : Decision). some_eq d.candidate_item_id i) (not (member i ids))
        db.decisions (λ d. ground (arith, some_eq-set_null ids d.candidate_item_id i))
        (sym
            (exists_row-map-keep (λ (d : Decision). some_eq d.candidate_item_id i) _ _ db.decisions)
          ∙ h)

  pub stems_from-delete_items :
      (k : ℕ) → stems_from k (delete_items ids db) ≡ true → stems_from k db ≡ true
  unfolding delete_items
  stems_from-delete_items k h =
      exists_row_mono _ (λ (r : Item). some_eq r.raw_message_id k) db.items (λ r. ground arith)
        (sym (exists_row-keep (λ (r : Item). some_eq r.raw_message_id k) _ db.items) ∙ h)

  pub represents-delete_clusters :
      (c k : ℕ)
      → represents c k (delete_clusters ids db) ≡ (represents c k db && not (member c ids))
  unfolding delete_clusters
  represents-delete_clusters c k =
      exists_row-keep_const (λ (r : Cluster). c == r.id && some_eq r.representative_item_id k)
        (λ r. not (member r.id ids)) (not (member c ids)) db.clusters
        (λ r h. not-member_of_eq c r.id ids (ground arith))

  pub decides-delete_clusters : (i : ℕ) → decides i (delete_clusters ids db) ≡ decides i db
  unfolding delete_clusters
  decides-delete_clusters i = exists_row-map (λ (d : Decision). i == d.item_id) _ db.decisions

  pub decides_cluster-delete_clusters :
      (c : ℕ)
      → decides_cluster c (delete_clusters ids db) ≡ (decides_cluster c db && not (member c ids))
  unfolding delete_clusters
  decides_cluster-delete_clusters c =
      exists_row-map (λ (d : Decision). some_eq d.cluster_id c) _ db.decisions
      ∙ exists_row_and _ (λ (d : Decision). some_eq d.cluster_id c) (not (member c ids))
          db.decisions (λ d. some_eq-set_null ids d.cluster_id c)

  pub decides_candidate-delete_clusters :
      (i : ℕ) → decides_candidate i (delete_clusters ids db) ≡ decides_candidate i db
  unfolding delete_clusters
  decides_candidate-delete_clusters i =
      exists_row-map (λ (d : Decision). some_eq d.candidate_item_id i) _ db.decisions

  pub delivers-delete_clusters :
      (c : ℕ) → delivers c (delete_clusters ids db) ≡ (delivers c db && not (member c ids))
  unfolding delete_clusters
  delivers-delete_clusters c =
      exists_row-keep_const (λ (d : Delivery). c == d.cluster_id)
        (λ d. not (member d.cluster_id ids)) (not (member c ids)) db.deliveries
        (λ d. not-member_of_eq c d.cluster_id ids)

  pub stems_from-delete_raw_messages :
      (k : ℕ) → stems_from k (delete_raw_messages ids db) ≡ (stems_from k db && not (member k ids))
  unfolding delete_raw_messages
  stems_from-delete_raw_messages k =
      exists_row-map (λ (r : Item). some_eq r.raw_message_id k) _ db.items
      ∙ exists_row_and _ (λ (r : Item). some_eq r.raw_message_id k) (not (member k ids)) db.items
          (λ r. some_eq-set_null ids r.raw_message_id k)

  pub has_raw_message-delete_raw_messages :
      (k : ℕ)
      → has_raw_message k (delete_raw_messages ids db)
        ≡ (has_raw_message k db && not (member k ids))
  unfolding delete_raw_messages
  has_raw_message-delete_raw_messages k =
      exists_row-keep_const (λ (r : Stamped). k == r.id) (λ r. not (member r.id ids))
        (not (member k ids)) db.raw_messages (λ r. not-member_of_eq k r.id ids)

  -- The tables that a DELETE does not touch.
  pub untouched_by_items :
      ((c : ℕ) → delivers c (delete_items ids db) ≡ delivers c db)
      × ((k : ℕ) → has_raw_message k (delete_items ids db) ≡ has_raw_message k db)
  unfolding delete_items
  untouched_by_items = (λ c. refl, λ k. refl)

  pub untouched_by_clusters :
      ((k : ℕ) → stems_from k (delete_clusters ids db) ≡ stems_from k db)
      × ((k : ℕ) → has_raw_message k (delete_clusters ids db) ≡ has_raw_message k db)
  unfolding delete_clusters
  untouched_by_clusters = (λ k. refl, λ k. refl)
