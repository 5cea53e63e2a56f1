-- ===== src/Prune/Final.antt =====
-- The database after the last step, in terms of the one after the batches.
use tca.Base.{
  ℕ, ◌+◌, ◌≡◌, refl, ◌∙◌, Bool, true, not, ◌&&◌, List, [], ◌∷◌, map, ◌==◌, ==_refl, keep,
  exists_row, exists_row-keep, exists_row_at, some_eq, count_rows, member, member-map, length,
  length-map, All, All-imp, arith,
}
use tca.Store.{Cluster, Database, has_cluster, has_member}
use tca.Store.Rank.{representative}
use tca.Store.Delete.{delete_clusters}
use tca.Store.Recompute.{
  recompute_representatives, recompute-IsIntact, has_cluster-recompute, represents-recompute_at,
}
use tca.Store.Integrity.{IsIntact, represents}
use tca.Prune.{
  Tally, ItemPass, step_names, expired, has_any_member, is_emptied, finish_prune,
  delete_empty_clusters, delete_expired_ingest_errors,
}
use tca.Prune.Batch.{current}
use tca.Prune.Finish.{
  emptied, has_any_ext, has_cluster-emptied, has_member-emptied, represents-emptied,
  emptied-IsIntact, delete_orphaned_rows_idle, representative_ext,
}

abbrev pub recomputed : ItemPass → Database
recomputed p = recompute_representatives p.affected p.db

-- The database after the last step, where no row was orphaned.
abbrev pub final : ℕ → ItemPass → Database
final cutoff p = (delete_expired_ingest_errors cutoff (emptied p.affected (recomputed p))).1

-- How many clusters a deletion takes, when the two tests agree on the rows.
count-kept :
    (p q : Cluster → Bool) (rs : List Cluster)
    → All (λ r. q r ≡ p r) rs
    → count_rows p rs + length (keep (λ r. not (q r)) rs) ≡ length rs
unfolding count_rows keep
count-kept p q [] h = omega arith
count-kept p q (r ∷ rs) h = ground (arith, count-kept p q rs h.1, h.0)

-- A row of a list is found by its id.
found_by_id :
    (rs : List Cluster) → All (λ r. exists_row (λ (x : Cluster). r.id == x.id) rs ≡ true) rs
unfolding exists_row
found_by_id [] = tt
found_by_id (r ∷ rs) = (
  rw (==_refl r.id) refl,
  All-imp (λ x. exists_row (λ (y : Cluster). x.id == y.id) rs ≡ true) _ rs (λ x h. ground arith)
      (found_by_id rs),
)

delete_empty_clusters-count :
    (ids : List ℕ) (db : Database)
    → (delete_empty_clusters ids db).0 + length (delete_empty_clusters ids db).1.clusters
      ≡ length db.clusters
unfolding delete_empty_clusters delete_clusters
delete_empty_clusters-count ids db =
    count-kept (is_emptied ids db) (λ r. member r.id gone) db.clusters
      (All-imp (λ r. exists_row (λ (x : Cluster). r.id == x.id) db.clusters ≡ true)
        (λ r. member r.id gone ≡ is_emptied ids db r) db.clusters (λ r h. listed r ∙ rw h refl)
        (found_by_id db.clusters))
  where
    gone : List ℕ
    gone = map (λ (r : Cluster). r.id) (keep (is_emptied ids db) db.clusters)

    listed :
        (r : Cluster)
        → member r.id gone
          ≡ (exists_row (λ (x : Cluster). r.id == x.id) db.clusters && is_emptied ids db r)
    listed r =
        member-map (λ (x : Cluster). x.id) r.id (keep (is_emptied ids db) db.clusters)
        ∙ exists_row-keep (λ (x : Cluster). r.id == x.id) (is_emptied ids db) db.clusters
        ∙ exists_row_at (λ (x : Cluster). x.id) (λ k. member k ids && not (has_any_member k db))
            r.id db.clusters

recomputed-length :
    (ids : List ℕ) (db : Database)
    → length (recompute_representatives ids db).clusters ≡ length db.clusters
unfolding recompute_representatives
recomputed-length ids db = length-map _ db.clusters

module _ (cutoff : ℕ) (p : ItemPass) (v : IsIntact p.db) where
  before_orphans : IsIntact (emptied p.affected (recomputed p))
  before_orphans = emptied-IsIntact p.affected (recomputed p) (recompute-IsIntact p.affected p.db v)

  pub final-IsIntact : IsIntact (final cutoff p)
  unfolding delete_expired_ingest_errors
  final-IsIntact = record {
    member_cluster = before_orphans.member_cluster;
    member_item = before_orphans.member_item;
    representative_member = before_orphans.representative_member;
    decision_item = before_orphans.decision_item;
    decision_cluster = before_orphans.decision_cluster;
    decision_candidate = before_orphans.decision_candidate;
    delivery_cluster = before_orphans.delivery_cluster;
    item_raw_message = before_orphans.item_raw_message;
  }

  pub members-final : (c i : ℕ) → has_member c i (final cutoff p) ≡ has_member c i p.db
  unfolding delete_expired_ingest_errors recompute_representatives
  members-final c i = has_member-emptied p.affected (recomputed p) c i

  pub items-final : (final cutoff p).items ≡ p.db.items
  unfolding delete_expired_ingest_errors recompute_representatives delete_empty_clusters
      delete_clusters
  items-final = refl

  pub stamped-final :
      ((final cutoff p).raw_messages ≡ p.db.raw_messages)
      × ((final cutoff p).ingest_errors ≡ current cutoff p.db.ingest_errors)
  unfolding delete_expired_ingest_errors recompute_representatives delete_empty_clusters
      delete_clusters
  stamped-final = (refl, refl)

  pub has_any-final : (c : ℕ) → has_any_member c (final cutoff p) ≡ has_any_member c p.db
  has_any-final c = has_any_ext c p.db (final cutoff p) (members-final c)

  has_any-recomputed : (c : ℕ) → has_any_member c (recomputed p) ≡ has_any_member c p.db
  unfolding recompute_representatives
  has_any-recomputed c = refl

  pub clusters-final :
      (c : ℕ)
      → has_cluster c (final cutoff p)
        ≡ (has_cluster c p.db && not (member c p.affected && not (has_any_member c p.db)))
  unfolding delete_expired_ingest_errors
  clusters-final c = ground (
    arith,
    has_cluster-emptied p.affected (recomputed p) c,
    has_cluster-recompute p.affected p.db c,
    has_any-recomputed c,
  )

  pub represents-final :
      (c k : ℕ)
      → member c p.affected ≡ true
      → represents c k (final cutoff p)
        ≡ (has_cluster c (final cutoff p) && some_eq (representative c p.db) k)
  represents-final c k h = ground (
    arith,
    represents-before c k,
    clusters-final c,
    represents-recompute_at p.affected p.db c k h,
    has_cluster-recompute p.affected p.db c,
    has_any-recomputed c,
  )
    where
      represents-before :
          (c k : ℕ)
          → represents c k (final cutoff p) ≡ (
              represents c k (recomputed p)
              && not (
                  has_cluster c (recomputed p)
                  && (member c p.affected && not (has_any_member c (recomputed p)))))
      represents-before c k =
          unfold delete_expired_ingest_errors in represents-emptied p.affected (recomputed p) c k

  -- The clusters that are gone are counted.
  pub count-final :
      (delete_empty_clusters p.affected (recomputed p)).0 + length (final cutoff p).clusters
      ≡ length p.db.clusters
  unfolding delete_expired_ingest_errors
  count-final =
      delete_empty_clusters-count p.affected (recomputed p) ∙ recomputed-length p.affected p.db

  pub representative-final : (c : ℕ) → representative c (final cutoff p) ≡ representative c p.db
  representative-final c = representative_ext c p.db (final cutoff p) items-final (members-final c)

  pub finish_prune_lem :
      (raw items : Tally)
      → finish_prune cutoff raw items p ≡ (
        record {
          executed_steps = step_names;
          raw_messages = raw;
          items = items;
          recomputed_cluster_count = length p.affected;
          deleted_empty_cluster_count = (delete_empty_clusters p.affected (recomputed p)).0;
          orphaned_members_deleted = 0;
          orphaned_decisions_deleted = 0;
          ingest_errors_deleted = count_rows (expired cutoff) p.db.ingest_errors;
          affected_cluster_ids = p.affected;
        },
        final cutoff p,
      )
  unfolding finish_prune delete_expired_ingest_errors recompute_representatives
      delete_empty_clusters delete_clusters
  finish_prune_lem raw items =
      rw (delete_orphaned_rows_idle (emptied p.affected (recomputed p)) before_orphans)
