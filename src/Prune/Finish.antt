-- ===== src/Prune/Finish.antt =====
-- The last four steps: recomputing the representatives, deleting the emptied clusters, the orphaned
-- rows and the expired ingest errors.
use mathlib.Core.Bool.{false≢true}
use tca.Base.{
  ℕ, ◌≡◌, refl, sym, ap, ◌∙◌, Bool, true, false, not, ◌&&◌, Option, none, some, List, [], map, ◌==◌,
  ==_refl, some_eq, keep, keep_all, keep_ext, exists_row, exists_row_at, exists_row-keep,
  exists_row_mono, exists_row_witness, count_rows-zero, member, member-map, arith, Bool-cases,
  Bool_ext, inl, inr,
}
use tca.Store.{Item, Cluster, Member, Database, has_item, has_cluster, has_member, is_member_row}
use tca.Store.Rank.{representative, best, item_id}
use tca.Store.Delete.{has_cluster-delete_clusters, has_member-delete_clusters}
use tca.Store.Integrity.{IsIntact, represents, represents-delete_clusters}
use tca.Store.Cascade.{delete_clusters-IsIntact}
use tca.Prune.{
  has_any_member, is_emptied, delete_empty_clusters, is_orphaned_member, is_orphaned_decision,
  dangles, delete_orphaned_rows,
}

-- A representative depends on the cluster's items alone.
pub representative_ext :
    (c : ℕ) (db db' : Database)
    → db'.items ≡ db.items
    → ((i : ℕ) → has_member c i db' ≡ has_member c i db)
    → representative c db' ≡ representative c db
unfolding representative
representative_ext c db db' same h =
    ap (λ (l : List Item). item_id (best l))
      (ap (λ (l : List Item). keep (λ (i : Item). has_member c i.id db') l) same
        ∙ keep_ext (λ (i : Item). has_member c i.id db') (λ i. has_member c i.id db) db.items
            (λ i. h i.id))

abbrev victims : List ℕ → Database → List ℕ
victims ids db = map (λ (r : Cluster). r.id) (keep (is_emptied ids db) db.clusters)

module _ (ids : List ℕ) (db : Database) where
  member-victims :
      (c : ℕ)
      → member c (victims ids db)
        ≡ (has_cluster c db && (member c ids && not (has_any_member c db)))
  member-victims c =
      member-map (λ (r : Cluster). r.id) c (keep (is_emptied ids db) db.clusters)
      ∙ exists_row-keep (λ (r : Cluster). c == r.id) (is_emptied ids db) db.clusters
      ∙ exists_row_at (λ (r : Cluster). r.id) (λ k. member k ids && not (has_any_member k db)) c
          db.clusters

  pub has_any_of_member : (c i : ℕ) → has_member c i db ≡ true → has_any_member c db ≡ true
  has_any_of_member c i =
      exists_row_mono (is_member_row c i) (λ (m : Member). c == m.cluster_id) db.members
        (λ m. ground arith)

  abbrev pub emptied : Database
  emptied = (delete_empty_clusters ids db).1

  -- Exactly the listed clusters with no members go,
  pub has_cluster-emptied :
      (c : ℕ)
      → has_cluster c emptied
        ≡ (has_cluster c db && not (member c ids && not (has_any_member c db)))
  unfolding delete_empty_clusters
  has_cluster-emptied c =
      ground (arith, has_cluster-delete_clusters (victims ids db) db c, member-victims c)

  -- and no membership.
  pub has_member-emptied : (c i : ℕ) → has_member c i emptied ≡ has_member c i db
  unfolding delete_empty_clusters
  has_member-emptied c i = ground (
    arith,
    has_member-delete_clusters (victims ids db) db c i,
    member-victims c,
    has_any_of_member c i,
  )

  pub represents-emptied :
      (c k : ℕ)
      → represents c k emptied ≡ (
          represents c k db
          && not (has_cluster c db && (member c ids && not (has_any_member c db))))
  unfolding delete_empty_clusters
  represents-emptied c k =
      ground (arith, represents-delete_clusters (victims ids db) db c k, member-victims c)

  pub emptied-IsIntact : IsIntact db → IsIntact emptied
  unfolding delete_empty_clusters
  emptied-IsIntact v = delete_clusters-IsIntact (victims ids db) db v

-- Databases with the same memberships have the same clusters without members.
has_any_step :
    (c : ℕ) (db db' : Database)
    → ((i : ℕ) → has_member c i db ≡ true → has_member c i db' ≡ true)
    → has_any_member c db ≡ true
    → has_any_member c db' ≡ true
has_any_step c db db' f h =
    let (m, e, all) = exists_row_witness (λ (m : Member). c == m.cluster_id) db.members h in
    has_any_of_member [] db' c m.item_id
      (f m.item_id (all (is_member_row c m.item_id) (ground (arith, ==_refl m.item_id))))

pub has_any_ext :
    (c : ℕ) (db db' : Database)
    → ((i : ℕ) → has_member c i db' ≡ has_member c i db)
    → has_any_member c db' ≡ has_any_member c db
has_any_ext c db db' h =
    Bool_ext (has_any_member c db') (has_any_member c db)
      (has_any_step c db' db (λ i e. sym (h i) ∙ e)) (has_any_step c db db' (λ i e. h i ∙ e))

-- In an intact database there is nothing for the orphan step to do.
module _ (db : Database) (v : IsIntact db) where
  no_orphaned_member : exists_row (is_orphaned_member db) db.members ≡ false
  no_orphaned_member = elim (Bool-cases (exists_row (is_orphaned_member db) db.members)) [
    | inr nothing ↦ nothing
    | inl found ↦
        let (m, orphaned, all) = exists_row_witness (is_orphaned_member db) db.members found in
        let there =
          all (is_member_row m.cluster_id m.item_id)
            (ground (arith, ==_refl m.cluster_id, ==_refl m.item_id)) in
        absurd (
          false≢true (
            ground (
              arith,
              v.member_cluster m.cluster_id m.item_id there,
              v.member_item m.cluster_id m.item_id there,
            )))
  ]

  dangles_not :
      (there : ℕ → Bool) (o : Option ℕ)
      → ((k : ℕ) → some_eq o k ≡ true → there k ≡ true)
      → dangles there o ≡ false
  dangles_not there none h = refl
  dangles_not there (some k) h = ground (arith, h k, ==_refl k)

  no_orphaned_decision : exists_row (is_orphaned_decision db) db.decisions ≡ false
  no_orphaned_decision = elim (Bool-cases (exists_row (is_orphaned_decision db) db.decisions)) [
    | inr nothing ↦ nothing
    | inl found ↦
        let (d, orphaned, all) = exists_row_witness (is_orphaned_decision db) db.decisions found in
        absurd (
          false≢true (
            ground (
              arith,
              v.decision_item d.item_id (all (λ e. d.item_id == e.item_id) (==_refl d.item_id)),
              dangles_not (λ c. has_cluster c db) d.cluster_id
                  (λ c h. v.decision_cluster c (all (λ e. some_eq e.cluster_id c) h)),
              dangles_not (λ i. has_item i db) d.candidate_item_id
                  (λ i h. v.decision_candidate i (all (λ e. some_eq e.candidate_item_id i) h)),
            )))
  ]

  pub delete_orphaned_rows_idle : delete_orphaned_rows db ≡ ((0, 0), db)
  unfolding delete_orphaned_rows
  delete_orphaned_rows_idle =
      let m = count_rows-zero (is_orphaned_member db) db.members no_orphaned_member in
      let d = count_rows-zero (is_orphaned_decision db) db.decisions no_orphaned_decision in
      rw (
        m,
        d,
        keep_all (is_orphaned_member db) db.members m,
        keep_all (is_orphaned_decision db) db.decisions d,
      )
