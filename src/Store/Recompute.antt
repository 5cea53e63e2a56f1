-- ===== src/Store/Recompute.antt =====
-- The statement that recomputes the representatives of some clusters, which
-- tca/storage/dedupe_clusters_repo.py and tca/ops/prune_job.py share.
use tca.Base.{
  ℕ, ◌≡◌, sym, ap, ◌∙◌, true, false, ◌&&◌, Option, none, some, List, map, ◌==◌, if◌then◌else◌,
  some_eq, exists_row-map, exists_row_ext, exists_row_at, member, arith, Bool-cases, inl, inr,
}
use tca.Store.{Cluster, Database, has_cluster, has_member}
use tca.Store.Rank.{representative, representative_lem}
use tca.Store.Integrity.{represents, IsIntact}

abbrev pub recompute_row : List ℕ → Database → Cluster → Cluster
recompute_row ids db r =
    if member r.id ids then record r { representative_item_id = representative r.id db } else r

-- UPDATE dedupe_clusters SET representative_item_id = (...) WHERE id IN ids.
unfoldable pub recompute_representatives : List ℕ → Database → Database
recompute_representatives ids db = record db { clusters = map (recompute_row ids db) db.clusters }

some_eq-some : (o : Option ℕ) (k : ℕ) → some_eq o k ≡ true → o ≡ some k
some_eq-some none k h = cc
some_eq-some (some j) k h = ground arith

module _ (ids : List ℕ) (db : Database) where
  pub has_cluster-recompute :
      (c : ℕ) → has_cluster c (recompute_representatives ids db) ≡ has_cluster c db
  unfolding recompute_representatives
  has_cluster-recompute c =
      exists_row-map (λ (r : Cluster). c == r.id) (recompute_row ids db) db.clusters
      ∙ exists_row_ext _ (λ (r : Cluster). c == r.id) db.clusters (λ r. ground arith)

  member_of_eq : (c j : ℕ) → (c == j) ≡ true → member j ids ≡ member c ids
  member_of_eq c j h = let e : c ≡ j = ground arith in ap (λ (x : ℕ). member x ids) (sym e)

  -- A recomputed cluster is represented by its best item,
  pub represents-recompute_at :
      (c k : ℕ)
      → member c ids ≡ true
      → represents c k (recompute_representatives ids db)
        ≡ (has_cluster c db && some_eq (representative c db) k)
  unfolding recompute_representatives
  represents-recompute_at c k h =
      exists_row-map (λ (r : Cluster). c == r.id && some_eq r.representative_item_id k)
        (recompute_row ids db) db.clusters
      ∙ exists_row_ext _ (λ (r : Cluster). c == r.id && some_eq (representative r.id db) k)
          db.clusters (λ r. ground (arith, member_of_eq c r.id))
      ∙ exists_row_at (λ (r : Cluster). r.id) (λ j. some_eq (representative j db) k) c db.clusters

  -- and the others as before.
  pub represents-recompute_other :
      (c k : ℕ)
      → member c ids ≡ false
      → represents c k (recompute_representatives ids db) ≡ represents c k db
  unfolding recompute_representatives
  represents-recompute_other c k h =
      exists_row-map (λ (r : Cluster). c == r.id && some_eq r.representative_item_id k)
        (recompute_row ids db) db.clusters
      ∙ exists_row_ext _ (λ (r : Cluster). c == r.id && some_eq r.representative_item_id k)
          db.clusters (λ r. ground (arith, member_of_eq c r.id))

  represented_after :
      (c k : ℕ)
      → IsIntact db
      → represents c k (recompute_representatives ids db) ≡ true
      → has_member c k db ≡ true
  represented_after c k v h = elim (Bool-cases (member c ids)) [
    | inl listed ↦
        let e : representative c db ≡ some k =
          some_eq-some _ k (ground (arith, represents-recompute_at c k listed)) in
        (representative_lem c k db e).2
    | inr other ↦ v.representative_member c k (sym (represents-recompute_other c k other) ∙ h)
  ]

  pub recompute-IsIntact : IsIntact db → IsIntact (recompute_representatives ids db)
  unfolding recompute_representatives
  recompute-IsIntact v = record {
    member_cluster = λ c i h. has_cluster-recompute c ∙ v.member_cluster c i h;
    member_item = v.member_item;
    representative_member = λ c k h. represented_after c k v h;
    decision_item = v.decision_item;
    decision_cluster = λ c h. has_cluster-recompute c ∙ v.decision_cluster c h;
    decision_candidate = v.decision_candidate;
    delivery_cluster = λ c h. has_cluster-recompute c ∙ v.delivery_cluster c h;
    item_raw_message = v.item_raw_message;
  }
