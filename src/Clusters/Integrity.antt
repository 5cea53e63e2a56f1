-- ===== src/Clusters/Integrity.antt =====
-- A merge leaves no row that refers to a missing one, and every representative a member.
use tca.Base.{
  ℕ, ◌≡◌, refl, sym, ap, ◌∙◌, Bool, true, false, ◌&&◌, ◌||◌, Option, none, some, List, [], ◌∷◌, map,
  keep, ◌==◌, ==_refl, some_eq, exists_row-append, exists_row_single, exists_row-keep, member,
  member-map, exists_row_witness, arith, Bool-cases, inl, inr,
}
use tca.Base.Sort.{IsIncreasing}
use tca.Store.{Member, Decision, Database, has_item, has_cluster, is_member_row}
use tca.Store.Delete.{delete_clusters}
use tca.Store.Recompute.{recompute-IsIntact}
use tca.Store.Integrity.{IsIntact, decides, decides_cluster, decides_candidate}
use tca.Store.Cascade.{delete_clusters-IsIntact}
use tca.Clusters.{
  normalize_cluster_ids, add_member, add_members, move_members, in_clusters, absorb, event_item,
  moved_count, removed_count, record_merge, finish_merge, merge_into, merge_normalized,
  merge_clusters,
}
use tca.Clusters.Normalize.{normalize_cluster_ids-IsIncreasing}
use tca.Clusters.Joined.{joined-IsIntact}
use tca.Clusters.Event.{event_item_member}
use tca.Clusters.Merge.{absorbed_target, absorbed_stored, not_member_of_lt}

-- Items that exist can be added to a cluster that exists.
add_members-IsIntact :
    (c : ℕ) (is : List ℕ) (db : Database)
    → IsIntact db
    → has_cluster c db ≡ true
    → ((i : ℕ) → member i is ≡ true → has_item i db ≡ true)
    → IsIntact (add_members c is db)
unfolding add_members add_member member
add_members-IsIntact c [] db v cluster items = v
add_members-IsIntact c (i ∷ is) db v cluster items =
    add_members-IsIntact c is (add_member c i db)
      (joined-IsIntact i c db v cluster (items i (ground arith))) cluster
      (λ j h. items j (ground arith))

moved_items :
    (sources : List ℕ) (db : Database) (i : ℕ)
    → IsIntact db
    → member i (map (λ (m : Member). m.item_id) (keep (in_clusters sources) db.members)) ≡ true
    → has_item i db ≡ true
moved_items sources db i v h =
    let (row, listed, all) =
      exists_row_witness (λ (m : Member). i == m.item_id && member m.cluster_id sources) db.members
        (sym (exists_row-keep (λ (m : Member). i == m.item_id) (in_clusters sources) db.members)
          ∙ sym (member-map (λ (m : Member). m.item_id) i (keep (in_clusters sources) db.members))
          ∙ h) in
    v.member_item row.cluster_id i
      (all (is_member_row row.cluster_id i) (ground (arith, ==_refl row.cluster_id)))

absorb-IsIntact :
    (target : ℕ) (sources : List ℕ) (db : Database)
    → IsIntact db
    → has_cluster target db ≡ true
    → IsIntact (absorb target sources db)
unfolding absorb move_members
absorb-IsIntact target sources db v there =
    recompute-IsIntact (target ∷ []) (delete_clusters sources (move_members target sources db)) (
      delete_clusters-IsIntact sources (move_members target sources db) (
        add_members-IsIntact target
          (map (λ (m : Member). m.item_id) (keep (in_clusters sources) db.members)) db v there
          (λ i. moved_items sources db i v)))

-- What holds of `i`, and of `j` if `a`, holds of `j` if `a` or `j` is `i`.
either_holds :
    (P : ℕ → Bool) (i j : ℕ) {a : Bool}
    → (a ≡ true → P j ≡ true)
    → P i ≡ true
    → (a || j == i) ≡ true
    → P j ≡ true
either_holds P i j {a} f p h = elim (Bool-cases (j == i)) [
  | inl same ↦ let e : j ≡ i = ground arith in rw e p
  | inr other ↦ f (ground arith)
]

module _ (i target : ℕ) (sources : List ℕ) (db : Database) where
  recorded_item : (j : ℕ) → decides j (record_merge i target sources db) ≡ (decides j db || j == i)
  unfolding record_merge
  recorded_item j =
      exists_row-append (λ (d : Decision). j == d.item_id) db.decisions _
      ∙ ap (λ b. decides j db || b) (exists_row_single (λ (d : Decision). j == d.item_id) _)

  recorded_cluster :
      (c : ℕ)
      → decides_cluster c (record_merge i target sources db) ≡ (decides_cluster c db || target == c)
  unfolding record_merge
  recorded_cluster c =
      exists_row-append (λ (d : Decision). some_eq d.cluster_id c) db.decisions _
      ∙ ap (λ b. decides_cluster c db || b)
          (exists_row_single (λ (d : Decision). some_eq d.cluster_id c) _)

  recorded_candidate :
      (j : ℕ)
      → decides_candidate j (record_merge i target sources db) ≡ (decides_candidate j db || false)
  unfolding record_merge
  recorded_candidate j =
      exists_row-append (λ (d : Decision). some_eq d.candidate_item_id j) db.decisions _
      ∙ ap (λ b. decides_candidate j db || b)
          (exists_row_single (λ (d : Decision). some_eq d.candidate_item_id j) _)

  record_merge-IsIntact :
      IsIntact db
      → has_item i db ≡ true
      → has_cluster target db ≡ true
      → IsIntact (record_merge i target sources db)
  unfolding record_merge
  record_merge-IsIntact v item cluster = record {
    member_cluster = v.member_cluster;
    member_item = v.member_item;
    representative_member = v.representative_member;
    decision_item = λ j h.
        either_holds (λ x. has_item x db) i j (v.decision_item j) item (sym (recorded_item j) ∙ h);
    decision_cluster = λ c h.
        either_holds (λ x. has_cluster x db) target c (v.decision_cluster c) cluster
          (ground (arith, recorded_cluster c));
    decision_candidate = λ j h. v.decision_candidate j (ground (arith, recorded_candidate j));
    delivery_cluster = v.delivery_cluster;
    item_raw_message = v.item_raw_message;
  }

finish_merge-IsIntact :
    (target : ℕ) (sources : List ℕ) (db : Database) (o : Option ℕ)
    → IsIntact db
    → has_cluster target db ≡ true
    → member target sources ≡ false
    → event_item target (absorb target sources db) ≡ o
    → IsIntact (finish_merge target sources db (absorb target sources db) o).1
unfolding finish_merge
finish_merge-IsIntact target sources db none v there apart e = v
finish_merge-IsIntact target sources db (some i) v there apart e =
    let w = absorb-IsIntact target sources db v there in
    record_merge-IsIntact i target sources (absorb target sources db) w
      (w.member_item target i (
        event_item_member target (absorb target sources db)
          (absorbed_stored target sources db apart there) i e))
      (absorbed_target target sources db apart there)

merge_into-IsIntact :
    (target : ℕ) (sources : List ℕ) (db : Database)
    → IsIntact db
    → member target sources ≡ false
    → IsIntact (merge_into target sources db).1
unfolding merge_into
merge_into-IsIntact target sources db v apart = elim (Bool-cases (has_cluster target db)) [
  | inr missing ↦ rw missing v
  | inl there ↦ elim (Bool-cases (moved_count sources db == 0 && removed_count sources db == 0)) [
    | inl nothing ↦ rw (there, nothing) v
    | inr some_rows ↦
        rw (there, some_rows)
          (finish_merge-IsIntact target sources db (event_item target (absorb target sources db)) v
            there apart refl)
  ]
]

merge_normalized-IsIntact :
    (ids : List ℕ) (db : Database)
    → IsIncreasing ids
    → IsIntact db
    → IsIntact (merge_normalized ids db).1
merge_normalized-IsIntact [] db h v = v
merge_normalized-IsIntact (t ∷ []) db h v = v
merge_normalized-IsIntact (t ∷ s ∷ sources) db h v =
    merge_into-IsIntact t (s ∷ sources) db v (not_member_of_lt t (s ∷ sources) h.0)

-- `merge_clusters` keeps a database intact: no row refers to a missing one, and a representative
-- is a member of its cluster.
pub merge_clusters-IsIntact :
    (ids : List ℕ) (db : Database) → IsIntact db → IsIntact (merge_clusters ids db).1
unfolding merge_clusters
merge_clusters-IsIntact ids db v =
    merge_normalized-IsIntact (normalize_cluster_ids ids) db
      (normalize_cluster_ids-IsIncreasing ids) v
