-- ===== src/Prune/Run.antt =====
-- The whole transaction of the retention job.
use mathlib.Core.Path.{subst}
use tca.Base.{
  ℕ, ◌+◌, ◌≡◌, refl, sym, ap, ◌∙◌, false, not, ◌&&◌, some, map, ◌==◌, some_eq, exists_row,
  count_rows, member, length, arith,
}
use tca.Store.{Item, Cluster, Database, has_item, has_cluster, has_member, is_member_row}
use tca.Base.Sort.{IsIncreasing}
use tca.Store.Rank.{representative}
use tca.Store.Integrity.{IsIntact, represents}
use tca.Prune.{
  PruneJobRunSummary, Tally, ItemPass, step_names, stamp, expired, has_any_member, prune,
  delete_empty_clusters,
}
use tca.Prune.Batch.{IsDistinct, current}
use tca.Prune.Drain.{IsTally}
use tca.Prune.Raw.{RawKept, delete_expired_raw_messages_lem}
use tca.Prune.Items.{ItemsKept, delete_expired_items_lem}
use tca.Prune.Final.{
  recomputed, final, final-IsIntact, members-final, items-final, stamped-final, has_any-final,
  clusters-final, represents-final, representative-final, count-final, finish_prune_lem,
}

-- The result of a run, from the database that it began with: the expired rows are gone and only
-- they, memberships go with their items, an affected cluster is gone if it has no members left and
-- else is represented by its best item, and the counts are exact.
pub record Pruned (raw_cutoff items_cutoff errors_cutoff : ℕ) (db : Database)
    (s : PruneJobRunSummary) (db' : Database) : Type 0 where
  pub intact : IsIntact db'
  pub raw_messages : db'.raw_messages ≡ current raw_cutoff db.raw_messages
  pub items : map stamp db'.items ≡ current items_cutoff (map stamp db.items)
  pub ingest_errors : db'.ingest_errors ≡ current errors_cutoff db.ingest_errors
  pub members : (c i : ℕ) → has_member c i db' ≡ (has_member c i db && has_item i db')
  pub clusters :
      (c : ℕ)
      → has_cluster c db'
        ≡ (has_cluster c db && not (member c s.affected_cluster_ids && not (has_any_member c db')))
  pub affected :
      (c i : ℕ)
      → (has_member c i db && not (has_member c i db') && not (member c s.affected_cluster_ids))
        ≡ false
  pub representatives :
      (c k : ℕ)
      → (member c s.affected_cluster_ids && represents c k db') ≡ (
          member c s.affected_cluster_ids
          && (has_cluster c db' && some_eq (representative c db') k))
  pub affected_once : IsIncreasing s.affected_cluster_ids
  pub recomputed_count : s.recomputed_cluster_count ≡ length s.affected_cluster_ids
  pub emptied_count : s.deleted_empty_cluster_count + length db'.clusters ≡ length db.clusters
  pub raw_tally : IsTally s.raw_messages
  pub raw_count : s.raw_messages.deleted_total ≡ count_rows (expired raw_cutoff) db.raw_messages
  pub item_tally : IsTally s.items
  pub item_count : s.items.deleted_total ≡ count_rows (expired items_cutoff) (map stamp db.items)
  pub errors_count : s.ingest_errors_deleted ≡ count_rows (expired errors_cutoff) db.ingest_errors
  pub no_orphaned_members : s.orphaned_members_deleted ≡ 0
  pub no_orphaned_decisions : s.orphaned_decisions_deleted ≡ 0

abbrev summary : ℕ → Tally → Tally → ItemPass → PruneJobRunSummary
summary cutoff raw items p = record {
  executed_steps = step_names;
  raw_messages = raw;
  items = items;
  recomputed_cluster_count = length p.affected;
  deleted_empty_cluster_count = (delete_empty_clusters p.affected (recomputed p)).0;
  orphaned_members_deleted = 0;
  orphaned_decisions_deleted = 0;
  ingest_errors_deleted = count_rows (expired cutoff) p.db.ingest_errors;
  affected_cluster_ids = p.affected;
}

-- The three parts of the run put together.
module _ (raw_cutoff items_cutoff errors_cutoff : ℕ) (db db' : Database) (p : ItemPass)
    (raw items : Tally) (r : RawKept raw_cutoff db db') (q : ItemsKept items_cutoff db' p) where
  has_member-raw : (c i : ℕ) → has_member c i db' ≡ has_member c i db
  has_member-raw c i = ap (exists_row (is_member_row c i)) r.members

  has_cluster-raw : (c : ℕ) → has_cluster c db' ≡ has_cluster c db
  has_cluster-raw c = ap (exists_row (λ (x : Cluster). c == x.id)) r.clusters

  has_item-final : (i : ℕ) → has_item i (final errors_cutoff p) ≡ has_item i p.db
  has_item-final i =
      ap (exists_row (λ (x : Item). i == x.id)) (items-final errors_cutoff p q.intact)

  pruned :
      db'.raw_messages ≡ current raw_cutoff db.raw_messages
      → map stamp p.db.items ≡ current items_cutoff (map stamp db'.items)
      → IsTally raw
      → raw.deleted_total ≡ count_rows (expired raw_cutoff) db.raw_messages
      → IsTally items
      → items.deleted_total ≡ count_rows (expired items_cutoff) (map stamp db'.items)
      → Pruned raw_cutoff items_cutoff errors_cutoff db
          (summary errors_cutoff raw items p)
          (final errors_cutoff p)
  pruned raws kept raw_exact raw_total item_exact item_total = record {
    intact = final-IsIntact errors_cutoff p q.intact;
    raw_messages = (stamped-final errors_cutoff p q.intact).0 ∙ q.raw_messages ∙ raws;
    items =
        ap (map stamp) (items-final errors_cutoff p q.intact)
        ∙ kept
        ∙ ap (current items_cutoff) r.items;
    ingest_errors =
        (stamped-final errors_cutoff p q.intact).1
        ∙ ap (current errors_cutoff) (q.ingest_errors ∙ r.ingest_errors);
    members = λ c i. ground (
      arith,
      members-final errors_cutoff p q.intact c i,
      q.members c i,
      has_member-raw c i,
      has_item-final i,
    );
    clusters = λ c. ground (
      arith,
      clusters-final errors_cutoff p q.intact c,
      q.clusters c,
      has_cluster-raw c,
      has_any-final errors_cutoff p q.intact c,
    );
    affected = λ c i.
        ground (arith, q.lost c i, has_member-raw c i, members-final errors_cutoff p q.intact c i);
    representatives = λ c k. ground (
      arith,
      represents-final errors_cutoff p q.intact c k,
      representative-final errors_cutoff p q.intact c,
    );
    affected_once = q.increasing;
    recomputed_count = refl;
    emptied_count = count-final errors_cutoff p q.intact ∙ q.cluster_count ∙ ap length r.clusters;
    raw_tally = raw_exact;
    raw_count = raw_total;
    item_tally = item_exact;
    item_count = item_total ∙ ap (count_rows (expired items_cutoff)) r.items;
    errors_count = ap (count_rows (expired errors_cutoff)) (q.ingest_errors ∙ r.ingest_errors);
    no_orphaned_members = refl;
    no_orphaned_decisions = refl;
  }

-- A run on an intact database ends, in a database as `Pruned` says.
pub prune_lem :
    (raw_cutoff items_cutoff errors_cutoff : ℕ) (db : Database)
    → IsIntact db
    → IsDistinct db.raw_messages
    → IsDistinct (map stamp db.items)
    → (s : PruneJobRunSummary) × (db' : Database) × (prune raw_cutoff items_cutoff errors_cutoff db
        ≡ some (s, db'))
      × Pruned raw_cutoff items_cutoff errors_cutoff db s db'
unfolding prune
prune_lem raw_cutoff items_cutoff errors_cutoff db v dr di =
    let (raw, db', ran, r, raws, raw_exact, raw_total) =
      delete_expired_raw_messages_lem raw_cutoff db v dr in
    let (items, p, ran', q, kept, item_exact, item_total) =
      delete_expired_items_lem items_cutoff db' r.intact (subst IsDistinct (sym r.items) di) in
    rw (ran, ran')
      (
        summary errors_cutoff raw items p,
        final errors_cutoff p,
        ap some (finish_prune_lem errors_cutoff p q.intact raw items),
        pruned raw_cutoff items_cutoff errors_cutoff db db' p raw items r q raws kept raw_exact
            raw_total item_exact item_total,
      )
