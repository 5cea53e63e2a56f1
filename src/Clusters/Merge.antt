-- ===== src/Clusters/Merge.antt =====
-- What `merge_clusters` returns and leaves behind, on every branch.
use tca.Base.{
  ◌++◌, ℕ, ◌≡◌, refl, sym, ap, ◌∙◌, true, false, not, ◌&&◌, Option, none, some, List, [], ◌∷◌, ◌==◌,
  if◌then◌else◌, exists_row-count, exists_row_mono, All, length, ◌⊎◌, member, arith, Bool-cases,
  inl, inr, ◌<◌, ==_refl,
}
use tca.Base.Sort.{IsIncreasing}
use tca.Store.{Cluster, Decision, Database, has_cluster, has_member, is_member_row}
use tca.Store.Delete.{delete_clusters, has_cluster-delete_clusters}
use tca.Store.Recompute.{recompute_representatives}
use tca.Store.Rank.{representative}
use tca.Clusters.{
  ClusterMergeResult, Result, ok, err, Error, integrity, too_few, no_event_item, missing_target,
  normalize_cluster_ids, absorb, move_members, event_item, finish_merge, merge_result, merge_into,
  merge_normalized, merge_clusters, moved_count, removed_count, stored_representative,
}
use tca.Clusters.Normalize.{normalize_cluster_ids-IsIncreasing}
use tca.Clusters.Absorb.{
  in_any, in_any-cons, has_cluster-absorb, has_cluster-move_members, has_member-absorb, none_moved,
}
use tca.Clusters.Event.{stored_representative-recompute, event_item-none, event_item_member}

-- The last decision is the event of this merge, of an item of the target.
pub record RecordsMerge (target : ℕ) (sources : List ℕ) (db : Database) : Type 0 where
  pub event : Decision
  pub earlier : List Decision
  pub decisions : db.decisions ≡ earlier ++ event ∷ []
  pub cluster : event.cluster_id ≡ some target
  pub metadata : event.metadata ≡ some (target, sources)
  pub item : has_member target event.item_id db ≡ true

-- A merge that returned: the sources are gone, the target has the items of all the clusters named,
-- the other clusters are as before, and an event is recorded exactly when something was merged.
pub record Merged (ids : List ℕ) (db : Database) (r : ClusterMergeResult) (db' : Database)
    : Type 0 where
  pub targets : ids ≡ r.target_cluster_id ∷ r.source_cluster_ids
  pub target : has_cluster r.target_cluster_id db' ≡ true
  pub clusters :
      (k : ℕ) → has_cluster k db' ≡ (has_cluster k db && not (member k r.source_cluster_ids))
  pub members :
      (k j : ℕ)
      → has_member k j db' ≡ (
          if k == r.target_cluster_id
          then in_any ids j db
          else has_member k j db && not (member k r.source_cluster_ids))
  pub moved : r.moved_member_count ≡ moved_count r.source_cluster_ids db
  pub removed : r.removed_cluster_count ≡ removed_count r.source_cluster_ids db
  pub recorded : r.recorded_event ≡ not (r.moved_member_count == 0 && r.removed_cluster_count == 0)
  pub written :
      ((r.recorded_event ≡ true)
        × (stored_representative r.target_cluster_id db'.clusters
            ≡ representative r.target_cluster_id db')
        × RecordsMerge r.target_cluster_id r.source_cluster_ids db')
      ⊎ ((r.recorded_event ≡ false) × (db' ≡ db))

-- Why a merge that raised has raised; it wrote nothing.
abbrev pub MergeError : List ℕ → Database → Error → Type 0
MergeError ids db too_few = length ids < 2
MergeError ids db (missing_target t) =
    (sources : List ℕ) × (ids ≡ t ∷ sources) × (has_cluster t db ≡ false)
MergeError ids db no_event_item = (j : ℕ) → in_any ids j db ≡ false
MergeError ids db integrity = ⊥

abbrev pub MergeOutcome : List ℕ → Database → Result ClusterMergeResult × Database → Type 0
MergeOutcome ids db (ok r, db') = Merged ids db r db'
MergeOutcome ids db (err e, db') = MergeError ids db e × (db' ≡ db)

member_of_eq : (k j : ℕ) (ids : List ℕ) → (k == j) ≡ true → member j ids ≡ member k ids
member_of_eq k j ids h = let e : k ≡ j = ground arith in ap (λ (x : ℕ). member x ids) (sym e)

pub not_member_of_lt : (k : ℕ) (xs : List ℕ) → All (λ y. k < y) xs → member k xs ≡ false
unfolding member
not_member_of_lt k [] h = refl
not_member_of_lt k (x ∷ xs) h = ground (arith, not_member_of_lt k xs h.1)

module _ (target : ℕ) (sources : List ℕ) (db : Database)
    (apart : member target sources ≡ false) where
  none_removed :
      (k : ℕ)
      → (removed_count sources db == 0) ≡ true
      → has_cluster k db ≡ (has_cluster k db && not (member k sources))
  none_removed k h = elim (Bool-cases (has_cluster k db && member k sources)) [
    | inl both ↦ absurd (
        ground (
          arith,
          exists_row-count (λ (r : Cluster). member r.id sources) db.clusters
              (exists_row_mono (λ (r : Cluster). k == r.id) (λ r. member r.id sources) db.clusters
                (λ r e. ground (arith, member_of_eq k r.id sources e)) (ground arith)),
        ))
    | inr apart_from ↦ ground arith
  ]

  none_in_sources :
      (k j : ℕ)
      → (moved_count sources db == 0) ≡ true
      → (has_member k j db && member k sources) ≡ false
  none_in_sources k j h = elim (Bool-cases (has_member k j db && member k sources)) [
    | inl both ↦ absurd (
        ground (
          arith,
          none_moved sources db j h,
          exists_row_mono (is_member_row k j) (λ m. j == m.item_id && member m.cluster_id sources)
              db.members (λ m e. ground (arith, member_of_eq k m.cluster_id sources))
              (ground arith),
        ))
    | inr apart_from ↦ apart_from
  ]

  unmerged_members :
      (k j : ℕ)
      → (moved_count sources db == 0) ≡ true
      → has_member k j db ≡ (
          if k == target
          then in_any (target ∷ sources) j db
          else has_member k j db && not (member k sources))
  unmerged_members k j h = elim (Bool-cases (k == target)) [
    | inl same ↦
        let e : k ≡ target = ground arith in
        rw same (
          ap (λ (x : ℕ). has_member x j db) e
          ∙ ground (arith, in_any-cons target j sources db, none_moved sources db j h))
    | inr other ↦ rw other (ground (arith, none_in_sources k j h))
  ]

  unmerged :
      has_cluster target db ≡ true
      → (moved_count sources db == 0 && removed_count sources db == 0) ≡ true
      → Merged (target ∷ sources) db (merge_result target sources db false) db
  unmerged there nothing = record {
    targets = refl;
    target = there;
    clusters = λ k. none_removed k (ground arith);
    members = λ k j. unmerged_members k j (ground arith);
    moved = refl;
    removed = refl;
    recorded = ap not (sym nothing);
    written = inr (refl, refl);
  }

  pub absorbed_target :
      has_cluster target db ≡ true → has_cluster target (absorb target sources db) ≡ true
  absorbed_target there = ground (arith, has_cluster-absorb target sources db target)

  pub absorbed_stored :
      has_cluster target db ≡ true
      → stored_representative target (absorb target sources db).clusters
        ≡ representative target (absorb target sources db)
  unfolding absorb representative recompute_representatives
  absorbed_stored there =
      stored_representative-recompute target
        (delete_clusters sources (move_members target sources db))
        (ground (
          arith,
          has_cluster-delete_clusters sources (move_members target sources db) target,
          has_cluster-move_members target sources db target,
        ))

  finish_merge_outcome :
      (o : Option ℕ)
      → event_item target (absorb target sources db) ≡ o
      → has_cluster target db ≡ true
      → (moved_count sources db == 0 && removed_count sources db == 0) ≡ false
      → MergeOutcome
          (target ∷ sources)
          db
          (finish_merge target sources db (absorb target sources db) o)
  unfolding finish_merge representative
  finish_merge_outcome none e there some_rows = (
    λ j. ground (
      arith,
      ==_refl target,
      event_item-none target (absorb target sources db) (absorbed_stored there) j e,
      has_member-absorb target sources db target j apart,
    ),
    refl,
  )
  finish_merge_outcome (some i) e there some_rows = record {
    targets = refl;
    target = absorbed_target there;
    clusters = has_cluster-absorb target sources db;
    members = λ k j. has_member-absorb target sources db k j apart;
    moved = refl;
    removed = refl;
    recorded = ap not (sym some_rows);
    written = inl (
      refl,
      absorbed_stored there,
      record {
        event = _;
        earlier = (absorb target sources db).decisions;
        decisions = refl;
        cluster = refl;
        metadata = refl;
        item = event_item_member target (absorb target sources db) (absorbed_stored there) i e;
      },
    );
  }

  merge_into_outcome : MergeOutcome (target ∷ sources) db (merge_into target sources db)
  unfolding merge_into
  merge_into_outcome = elim (Bool-cases (has_cluster target db)) [
    | inr missing ↦ rw missing ((sources, refl, missing), refl)
    | inl there ↦ elim (Bool-cases (moved_count sources db == 0 && removed_count sources db == 0)) [
      | inl nothing ↦ rw (there, nothing) (unmerged there nothing)
      | inr some_rows ↦
          rw (there, some_rows)
            (finish_merge_outcome (event_item target (absorb target sources db)) refl there
              some_rows)
    ]
  ]

merge_normalized_outcome :
    (ids : List ℕ) (db : Database)
    → IsIncreasing ids
    → MergeOutcome ids db (merge_normalized ids db)
merge_normalized_outcome [] db h = (omega arith, refl)
merge_normalized_outcome (t ∷ []) db h = (omega arith, refl)
merge_normalized_outcome (t ∷ s ∷ sources) db h =
    merge_into_outcome t (s ∷ sources) db (not_member_of_lt t (s ∷ sources) h.0)

-- `merge_clusters` on any ids and any database: a merge that returns names the distinct ids in
-- increasing order, the first as the target; the source clusters are gone and the others there as
-- before; the target has exactly the items of all the clusters named; the counts are those of the
-- source rows; and either an event was recorded, which is the last decision and about an item of
-- the target, and the target's representative is the best of its items, or there was nothing to
-- merge and nothing changed. A merge that raises has fewer than two distinct ids, or a missing
-- target, or no item in any named cluster; and it writes nothing.
pub merge_clusters_outcome :
    (ids : List ℕ) (db : Database)
    → MergeOutcome (normalize_cluster_ids ids) db (merge_clusters ids db)
unfolding merge_clusters
merge_clusters_outcome ids db =
    merge_normalized_outcome (normalize_cluster_ids ids) db (normalize_cluster_ids-IsIncreasing ids)
