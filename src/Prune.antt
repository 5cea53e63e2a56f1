-- ===== src/Prune.antt =====
-- tca/ops/prune_job.py: the retention job, one write transaction of six ordered steps.
pub mod Batch
pub mod Drain
pub mod Raw
pub mod Items
pub mod Finish
pub mod Final
pub mod Run
pub mod Once
mod Tests
use Prim.Native.String.{String}
use tca.Base.{
  ℕ, zero, suc, ◌+◌, ◌-◌, ◌*◌, Bool, true, false, not, ◌&&◌, ◌||◌, Option, none, some, List, [],
  ◌∷◌, ◌++◌, map, ◌==◌, ltb, leb, if◌then◌else◌, keep, exists_row, count_rows, member, take, length,
}
use tca.Base.Sort.{sort, insert_once}
use tca.Retention.{StoredSettings, RetentionPruneSettings, resolve_settings}
use tca.Store.{
  Item, Cluster, Member, Decision, Stamped, Database, has_item, has_cluster, has_member,
}
use tca.Store.Delete.{delete_items, delete_clusters, delete_raw_messages}
use tca.Store.Recompute.{recompute_representatives}

-- `DELETE_BATCH_SIZE`.
abbrev pub delete_batch_size : ℕ
delete_batch_size = 500

abbrev pub stamp : Item → Stamped
stamp i = record { id = i.id; created_at = i.created_at }

-- `created_at < :cutoff`.
abbrev pub expired : ℕ → Stamped → Bool
expired cutoff r = ltb r.created_at cutoff

-- SELECT id ... WHERE created_at < :cutoff ORDER BY id ASC LIMIT :batch_size.
unfoldable pub select_ids : ℕ → List Stamped → List ℕ
unfolding sort keep
select_ids cutoff rows =
    take delete_batch_size (sort (map (λ (r : Stamped). r.id) (keep (expired cutoff) rows)))

-- What a batch loop counts: `deleted_total` and `batch_sizes`.
pub record Tally : Type 0 where
  pub deleted_total : ℕ
  pub batch_sizes : List ℕ

abbrev pub add_batch : ℕ → Tally → Tally
add_batch n t = record {
  deleted_total = t.deleted_total + n;
  batch_sizes = t.batch_sizes ++ n ∷ [];
}

-- `while True`: select a batch, stop if it is empty, else delete it and count what was deleted.
-- `none` means that the fuel ran out.
unfoldable pub drain {ℓ} :
    {S : Type ℓ} → (S → List ℕ) → (List ℕ → S → ℕ × S) → ℕ → Tally → S → Option (Tally × S)
drain select delete zero t s = none
drain select delete (suc fuel) t s = elim (select s) [
  | [] ↦ some (t, s)
  | i ∷ is ↦ let (n, s') = delete (i ∷ is) s in drain select delete fuel (add_batch n t) s'
]

-- How many rows `DELETE ... WHERE id IN ids RETURNING id` returns.
abbrev pub listed_count : List ℕ → List Stamped → ℕ
listed_count ids rows = count_rows (λ (r : Stamped). member r.id ids) rows

abbrev pub raw_batch : List ℕ → Database → ℕ × Database
raw_batch ids db = (listed_count ids db.raw_messages, delete_raw_messages ids db)

-- `_delete_expired_raw_messages_in_batches`. Every round deletes a row, so the rows are enough fuel.
unfoldable pub delete_expired_raw_messages_in_batches : ℕ → Database → Option (Tally × Database)
unfolding drain select_ids delete_raw_messages
delete_expired_raw_messages_in_batches cutoff db =
    drain (λ (d : Database). select_ids cutoff d.raw_messages) raw_batch
      (suc (length db.raw_messages)) (record { deleted_total = 0; batch_sizes = [] }) db

-- SELECT DISTINCT cluster_id FROM dedupe_members WHERE item_id IN ids, added to the set.
unfoldable pub add_affected : List ℕ → List Member → List ℕ → List ℕ
unfolding insert_once
add_affected ids [] affected = affected
add_affected ids (m ∷ ms) affected =
    let rest = add_affected ids ms affected in
    if member m.item_id ids then insert_once m.cluster_id rest else rest

-- The database and `affected_cluster_ids`, in increasing order.
pub record ItemPass : Type 0 where
  pub db : Database
  pub affected : List ℕ

abbrev pub item_batch : List ℕ → ItemPass → ℕ × ItemPass
item_batch ids p = (
  listed_count ids (map stamp p.db.items),
  record { db = delete_items ids p.db; affected = add_affected ids p.db.members p.affected },
)

-- `_delete_expired_items_in_batches`.
unfoldable pub delete_expired_items_in_batches : ℕ → Database → Option (Tally × ItemPass)
unfolding drain select_ids delete_items add_affected
delete_expired_items_in_batches cutoff db =
    drain (λ (p : ItemPass). select_ids cutoff (map stamp p.db.items)) item_batch
      (suc (length db.items)) (record { deleted_total = 0; batch_sizes = [] })
      (record { db = db; affected = [] })

abbrev pub has_any_member : ℕ → Database → Bool
has_any_member c db = exists_row (λ (m : Member). c == m.cluster_id) db.members

abbrev pub is_emptied : List ℕ → Database → Cluster → Bool
is_emptied ids db r = member r.id ids && not (has_any_member r.id db)

-- `_delete_empty_clusters`.
unfoldable pub delete_empty_clusters : List ℕ → Database → ℕ × Database
unfolding keep delete_clusters
delete_empty_clusters ids db = (
  count_rows (is_emptied ids db) db.clusters,
  delete_clusters (map (λ (r : Cluster). r.id) (keep (is_emptied ids db) db.clusters)) db,
)

abbrev pub is_orphaned_member : Database → Member → Bool
is_orphaned_member db m = not (has_cluster m.cluster_id db) || not (has_item m.item_id db)

-- `reference IS NOT NULL AND NOT EXISTS (...)`.
abbrev pub dangles : (ℕ → Bool) → Option ℕ → Bool
dangles there none = false
dangles there (some k) = not (there k)

abbrev pub is_orphaned_decision : Database → Decision → Bool
is_orphaned_decision db d =
    not (has_item d.item_id db)
    || dangles (λ c. has_cluster c db) d.cluster_id
    || dangles (λ i. has_item i db) d.candidate_item_id

-- `_delete_orphaned_rows`: the two counts and the database.
unfoldable pub delete_orphaned_rows : Database → (ℕ × ℕ) × Database
unfolding keep count_rows
delete_orphaned_rows db = (
  (
    count_rows (is_orphaned_member db) db.members,
    count_rows (is_orphaned_decision db) db.decisions,
  ),
  record db {
    members = keep (λ m. not (is_orphaned_member db m)) db.members;
    decisions = keep (λ d. not (is_orphaned_decision db d)) db.decisions;
  },
)

-- `_delete_expired_ingest_errors`.
unfoldable pub delete_expired_ingest_errors : ℕ → Database → ℕ × Database
unfolding keep count_rows
delete_expired_ingest_errors cutoff db = (
  count_rows (expired cutoff) db.ingest_errors,
  record db { ingest_errors = keep (λ r. not (expired cutoff r)) db.ingest_errors },
)

pub record PruneJobRunSummary : Type 0 where
  pub executed_steps : List String
  pub raw_messages : Tally
  pub items : Tally
  pub recomputed_cluster_count : ℕ
  pub deleted_empty_cluster_count : ℕ
  pub orphaned_members_deleted : ℕ
  pub orphaned_decisions_deleted : ℕ
  pub ingest_errors_deleted : ℕ
  pub affected_cluster_ids : List ℕ

abbrev pub step_names : List String
step_names =
    "delete_expired_raw_messages" ∷ "delete_expired_items" ∷ "recompute_cluster_representatives"
    ∷ "delete_empty_clusters" ∷ "delete_orphaned_rows" ∷ "delete_expired_ingest_errors" ∷ []

-- The steps after the two batch loops.
unfoldable pub finish_prune : ℕ → Tally → Tally → ItemPass → PruneJobRunSummary × Database
finish_prune errors_cutoff raw items p =
    let db = recompute_representatives p.affected p.db in
    let (emptied, db_1) = delete_empty_clusters p.affected db in
    let (orphaned, db_2) = delete_orphaned_rows db_1 in
    let (errors, db_3) = delete_expired_ingest_errors errors_cutoff db_2 in
    (
      record {
        executed_steps = step_names;
        raw_messages = raw;
        items = items;
        recomputed_cluster_count = length p.affected;
        deleted_empty_cluster_count = emptied;
        orphaned_members_deleted = orphaned.0;
        orphaned_decisions_deleted = orphaned.1;
        ingest_errors_deleted = errors;
        affected_cluster_ids = p.affected;
      },
      db_3,
    )

abbrev pub after_items :
    ℕ → Tally → Option (Tally × ItemPass) → Option (PruneJobRunSummary × Database)
after_items errors_cutoff raw none = none
after_items errors_cutoff raw (some (items, p)) = some (finish_prune errors_cutoff raw items p)

abbrev pub after_raw_messages :
    ℕ → ℕ → Option (Tally × Database) → Option (PruneJobRunSummary × Database)
after_raw_messages items_cutoff errors_cutoff none = none
after_raw_messages items_cutoff errors_cutoff (some (raw, db)) =
    after_items errors_cutoff raw (delete_expired_items_in_batches items_cutoff db)

-- The transaction of `run_once`, from the three cutoffs. `none` means that a loop ran out of fuel.
unfoldable pub prune : ℕ → ℕ → ℕ → Database → Option (PruneJobRunSummary × Database)
prune raw_cutoff items_cutoff errors_cutoff db =
    after_raw_messages items_cutoff errors_cutoff
      (delete_expired_raw_messages_in_batches raw_cutoff db)

-- `timedelta` takes at most 999999999 days, and no datetime lies before the year 1, from which the
-- model counts the microseconds: else Python raises OverflowError, here `none`.
unfoldable pub days_before : ℕ → ℕ → Option ℕ
days_before now days =
    if ltb 999999999 days || ltb now (days * 86400000000)
    then none
    else some (now - days * 86400000000)

pub data RunResult : Type 0 where
  overflow : RunResult
  out_of_fuel : RunResult
  done : PruneJobRunSummary → Database → RunResult

abbrev pub run_result : Option (PruneJobRunSummary × Database) → RunResult
run_result none = out_of_fuel
run_result (some (s, db)) = done s db

-- The three cutoffs, computed before the transaction; `stored` is the place, in the collating order
-- of the stored timestamps, of the text that the driver binds for a datetime.
unfoldable pub with_cutoffs : (ℕ → ℕ) → Option ℕ → Option ℕ → Option ℕ → Database → RunResult
with_cutoffs stored (some a) (some b) (some c) db =
    run_result (prune (stored a) (stored b) (stored c) db)
with_cutoffs stored (some a) (some b) none db = overflow
with_cutoffs stored (some a) none c db = overflow
with_cutoffs stored none b c db = overflow

-- `run_once`.
unfoldable pub run_once : (ℕ → ℕ) → StoredSettings → ℕ → Database → RunResult
unfolding resolve_settings days_before with_cutoffs
run_once stored settings now db =
    let s = resolve_settings settings in
    with_cutoffs stored (days_before now s.raw_messages_days) (days_before now s.items_days)
      (days_before now s.ingest_errors_days) db
