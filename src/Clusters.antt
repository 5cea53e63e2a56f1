-- ===== src/Clusters.antt =====
-- tca/storage/dedupe_clusters_repo.py: assigning an item to a cluster and merging clusters. A call is
-- one transaction: when it raises, the session is closed without a commit, and nothing is written.
pub mod Normalize
pub mod Members
pub mod Assign
pub mod Joined
pub mod Absorb
pub mod Event
pub mod Merge
pub mod Again
pub mod Integrity
mod Tests
use tca.Base.{
  ℕ, zero, suc, ◌+◌, Bool, true, false, not, ◌&&◌, ◌||◌, Option, none, some, List, [], ◌∷◌, ◌++◌,
  map, ◌==◌, ltb, if◌then◌else◌, keep, exists_row, count_rows, member, is_none,
}
use tca.Base.Sort.{insert_once}
use tca.Base.Least.{least}
use tca.Store.{
  Item, Cluster, Member, Decision, Database, has_item, has_cluster, has_member, is_member_row,
  next_id,
}
use tca.Store.Delete.{delete_clusters}
use tca.Store.Recompute.{recompute_representatives}

-- The two dataclasses.
pub record ClusterAssignmentResult : Type 0 where
  pub cluster_id : ℕ
  pub created_cluster : Bool
  pub created_membership : Bool

pub record ClusterMergeResult : Type 0 where
  pub target_cluster_id : ℕ
  pub source_cluster_ids : List ℕ
  pub moved_member_count : ℕ
  pub removed_cluster_count : ℕ
  pub recorded_event : Bool

-- `integrity` is SQLAlchemy's IntegrityError, from a foreign key; the others are ValueErrors.
pub data Error : Type 0 where
  integrity too_few no_event_item : Error
  missing_target : ℕ → Error

pub data Result (A : Type 0) : Type 0 where
  ok : A → Result A
  err : Error → Result A

-- INSERT INTO dedupe_members ... ON CONFLICT(cluster_id, item_id) DO NOTHING.
unfoldable pub add_member : ℕ → ℕ → Database → Database
add_member c i db = record db {
  members =
      if has_member c i db
      then db.members
      else db.members ++ record { cluster_id = c; item_id = i } ∷ [];
}

-- INSERT INTO dedupe_clusters (cluster_key, representative_item_id) ... RETURNING id.
unfoldable pub create_cluster : ℕ → Database → ℕ × Database
unfolding next_id
create_cluster i db =
    let id = next_id (map (λ (r : Cluster). r.id) db.clusters) in
    (
      id,
      record db {
        clusters = db.clusters ++ record { id = id; representative_item_id = some i } ∷ [];
      },
    )

-- The membership INSERT of `assign_item_to_cluster`: a new row needs its cluster and its item.
unfoldable pub join_cluster : ℕ → ℕ → Bool → Database → Result ClusterAssignmentResult × Database
join_cluster i c created db =
    if has_member c i db
    then (ok (record { cluster_id = c; created_cluster = created; created_membership = false }), db)
    else if has_cluster c db && has_item i db
    then (
      ok (record { cluster_id = c; created_cluster = created; created_membership = true }),
      add_member c i db,
    )
    else (err integrity, db)

-- What a transaction that began at `db` leaves: on an error, `db`.
abbrev pub transact {ℓ} : {A : Type 0} {D : Type ℓ} → D → Result A × D → Result A × D
transact db (ok a, db') = (ok a, db')
transact db (err e, db') = (err e, db)

-- `assign_item_to_cluster`.
unfoldable pub assign_item_to_cluster :
    ℕ → Option ℕ → Database → Result ClusterAssignmentResult × Database
assign_item_to_cluster i (some c) db = transact db (join_cluster i c false db)
assign_item_to_cluster i none db =
    if has_item i db
    then (let (c, db') = create_cluster i db in transact db (join_cluster i c true db'))
    else (err integrity, db)

-- `_normalize_cluster_ids`: `sorted` of the set of the ids.
unfoldable pub normalize_cluster_ids : List ℕ → List ℕ
unfolding insert_once
normalize_cluster_ids [] = []
normalize_cluster_ids (c ∷ cs) = insert_once c (normalize_cluster_ids cs)

unfoldable pub add_members : ℕ → List ℕ → Database → Database
unfolding add_member
add_members c [] db = db
add_members c (i ∷ is) db = add_members c is (add_member c i db)

abbrev pub in_clusters : List ℕ → Member → Bool
in_clusters ids m = member m.cluster_id ids

-- `move_members_statement`: INSERT ... SELECT ... ON CONFLICT DO NOTHING.
unfoldable pub move_members : ℕ → List ℕ → Database → Database
unfolding add_members keep
move_members target sources db =
    add_members target (map (λ (m : Member). m.item_id) (keep (in_clusters sources) db.members)) db

-- `resolve_representative_item_statement`.
unfoldable pub stored_representative : ℕ → List Cluster → Option ℕ
stored_representative c [] = none
stored_representative c (r ∷ rs) =
    if c == r.id then r.representative_item_id else stored_representative c rs

-- `event_item_id`: the representative, or else the member with the smallest id.
unfoldable pub event_item : ℕ → Database → Option ℕ
unfolding least stored_representative
event_item target db = elim (stored_representative target db.clusters) [
  | some i ↦ some i
  | none ↦
      least
        (map (λ (m : Member). m.item_id) (keep (λ (m : Member). target == m.cluster_id) db.members))
]

-- `insert_merge_event_statement`.
unfoldable pub record_merge : ℕ → ℕ → List ℕ → Database → Database
unfolding next_id
record_merge i target sources db = record db {
  decisions =
      db.decisions
      ++ record {
        id = next_id (map (λ (d : Decision). d.id) db.decisions);
        item_id = i;
        cluster_id = some target;
        candidate_item_id = none;
        strategy_name = "cluster_merge";
        outcome = "DUPLICATE";
        reason_code = "cluster_merge";
        metadata = some (target, sources);
      }
        ∷ [];
}

-- The three writes between the counts and the event.
unfoldable pub absorb : ℕ → List ℕ → Database → Database
unfolding move_members delete_clusters recompute_representatives
absorb target sources db =
    recompute_representatives (target ∷ [])
      (delete_clusters sources (move_members target sources db))

abbrev pub moved_count : List ℕ → Database → ℕ
moved_count sources db = count_rows (in_clusters sources) db.members

abbrev pub removed_count : List ℕ → Database → ℕ
removed_count sources db = count_rows (λ (r : Cluster). member r.id sources) db.clusters

abbrev pub merge_result : ℕ → List ℕ → Database → Bool → ClusterMergeResult
merge_result target sources db recorded = record {
  target_cluster_id = target;
  source_cluster_ids = sources;
  moved_member_count = moved_count sources db;
  removed_cluster_count = removed_count sources db;
  recorded_event = recorded;
}

-- The event, and the commit.
unfoldable pub finish_merge :
    ℕ → List ℕ → Database → Database → Option ℕ → Result ClusterMergeResult × Database
unfolding record_merge
finish_merge target sources db db' none = (err no_event_item, db)
finish_merge target sources db db' (some i) =
    (ok (merge_result target sources db true), record_merge i target sources db')

unfoldable pub merge_into : ℕ → List ℕ → Database → Result ClusterMergeResult × Database
unfolding absorb event_item finish_merge
merge_into target sources db =
    if not (has_cluster target db)
    then (err (missing_target target), db)
    else if moved_count sources db == 0 && removed_count sources db == 0
    then (ok (merge_result target sources db false), db)
    else let db' = absorb target sources db in
      finish_merge target sources db db' (event_item target db')

abbrev pub merge_normalized : List ℕ → Database → Result ClusterMergeResult × Database
merge_normalized [] db = (err too_few, db)
merge_normalized (target ∷ []) db = (err too_few, db)
merge_normalized (target ∷ s ∷ sources) db = merge_into target (s ∷ sources) db

-- `merge_clusters`.
unfoldable pub merge_clusters : List ℕ → Database → Result ClusterMergeResult × Database
unfolding merge_into normalize_cluster_ids
merge_clusters ids db = merge_normalized (normalize_cluster_ids ids) db
