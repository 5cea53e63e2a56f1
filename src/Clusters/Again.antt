-- ===== src/Clusters/Again.antt =====
-- Merging the same clusters a second time.
use mathlib.Core.Bool.{false≢true}
use mathlib.Core.Path.{subst, subst₂}
use tca.Base.{
  ℕ, ◌≡◌, sym, ap, ◌∙◌, true, false, List, [], ◌∷◌, ◌==◌, ==_refl, exists_row, exists_row_witness,
  count_rows-zero, member, arith, Bool-cases, inl, inr,
}
use tca.Base.Sort.{IsIncreasing}
use tca.Store.{Cluster, Database, has_cluster, has_member, is_member_row}
use tca.Clusters.{
  ClusterMergeResult, ok, normalize_cluster_ids, in_clusters, merge_result, merge_into,
  merge_normalized, merge_clusters, moved_count, removed_count,
}
use tca.Clusters.Normalize.{normalize_cluster_ids-IsIncreasing}
use tca.Clusters.Merge.{Merged, MergeOutcome, merge_clusters_outcome, not_member_of_lt}

-- The sources of a finished merge have no rows left.
module _ {ids : List ℕ} {db db' : Database} {r : ClusterMergeResult} (m : Merged ids db r db')
    (apart : member r.target_cluster_id r.source_cluster_ids ≡ false) where
  no_rows_left : (k j : ℕ) → member k r.source_cluster_ids ≡ true → has_member k j db' ≡ false
  no_rows_left k j h = elim (Bool-cases (k == r.target_cluster_id)) [
    | inl same ↦
        let e : k ≡ r.target_cluster_id = ground arith in
        absurd (false≢true (sym apart ∙ ap (λ (x : ℕ). member x r.source_cluster_ids) (sym e) ∙ h))
    | inr other ↦ ground (arith, m.members k j)
  ]

  no_cluster_left : (k : ℕ) → member k r.source_cluster_ids ≡ true → has_cluster k db' ≡ false
  no_cluster_left k h = ground (arith, m.clusters k)

  moved_again : moved_count r.source_cluster_ids db' ≡ 0
  moved_again =
      count_rows-zero (in_clusters r.source_cluster_ids) db'.members
        (elim (Bool-cases (exists_row (in_clusters r.source_cluster_ids) db'.members)) [
          | inl found ↦
              let (row, listed, all) =
                exists_row_witness (in_clusters r.source_cluster_ids) db'.members found in
              absurd (
                false≢true (
                  sym (no_rows_left row.cluster_id row.item_id listed)
                  ∙ all (is_member_row row.cluster_id row.item_id) (ground arith)))
          | inr missing ↦ missing
        ])

  removed_again : removed_count r.source_cluster_ids db' ≡ 0
  removed_again =
      count_rows-zero (λ (c : Cluster). member c.id r.source_cluster_ids) db'.clusters
        (elim (Bool-cases
          (exists_row (λ (c : Cluster). member c.id r.source_cluster_ids) db'.clusters)) [
            | inl found ↦
                let (row, listed, all) =
                  exists_row_witness (λ (c : Cluster). member c.id r.source_cluster_ids)
                    db'.clusters found in
                absurd (
                  false≢true (
                    sym (no_cluster_left row.id listed)
                    ∙ all (λ (c : Cluster). row.id == c.id) (==_refl row.id)))
            | inr missing ↦ missing
          ])

  merge_into_again :
      merge_into r.target_cluster_id r.source_cluster_ids db'
      ≡ (ok (merge_result r.target_cluster_id r.source_cluster_ids db' false), db')
  unfolding merge_into
  merge_into_again = rw (m.target, moved_again, removed_again)

cons_inj : {x y : ℕ} {xs ys : List ℕ} → (x ∷ xs) ≡ (y ∷ ys) → (x ≡ y) × (xs ≡ ys)
cons_inj e = (cc, cc)

again_normalized :
    (ids : List ℕ) (db : Database) {db' : Database} {r : ClusterMergeResult}
    → IsIncreasing ids
    → merge_normalized ids db ≡ (ok r, db')
    → Merged ids db r db'
    → merge_normalized ids db'
      ≡ (ok (merge_result r.target_cluster_id r.source_cluster_ids db' false), db')
again_normalized [] db h e m = cc
again_normalized (t ∷ []) db h e m = cc
again_normalized (t ∷ s ∷ sources) db {db' = db'} {r = r} h e m =
    let (same, rest) = cons_inj m.targets in
    let apart =
      subst₂ (λ (a : ℕ) (b : List ℕ). member a b ≡ false) same rest
        (not_member_of_lt t (s ∷ sources) h.0) in
    subst₂
      (λ a b.
        merge_into a b db'
        ≡ (ok (merge_result r.target_cluster_id r.source_cluster_ids db' false), db'))
      (sym same) (sym rest) (merge_into_again m apart)

-- A merge that has returned, made again with the same ids, returns the same target and sources,
-- records no event and changes nothing.
pub merge_clusters_again :
    (ids : List ℕ) (db : Database) {db' : Database} {r : ClusterMergeResult}
    → merge_clusters ids db ≡ (ok r, db')
    → merge_clusters ids db'
      ≡ (ok (merge_result r.target_cluster_id r.source_cluster_ids db' false), db')
unfolding merge_clusters
merge_clusters_again ids db e =
    again_normalized (normalize_cluster_ids ids) db (normalize_cluster_ids-IsIncreasing ids) e
      (subst (MergeOutcome (normalize_cluster_ids ids) db) e (merge_clusters_outcome ids db))
