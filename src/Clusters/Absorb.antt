-- ===== src/Clusters/Absorb.antt =====
-- The three writes of a merge: what becomes of memberships, clusters and the representative.
use mathlib.Core.Path.{subst}
use tca.Base.{
  ℕ, ◌≡◌, refl, ◌∙◌, Bool, true, false, not, ◌&&◌, ◌||◌, List, [], ◌∷◌, map, ◌==◌, ==_refl,
  if◌then◌else◌, keep, exists_row, exists_row_or, exists_row_ext, exists_row-count, exists_row_mono,
  member, arith, Bool-cases, inl, inr,
}
use tca.Store.{Member, Database, has_item, has_cluster, has_member, is_member_row}
use tca.Store.Delete.{delete_clusters, has_cluster-delete_clusters, has_member-delete_clusters}
use tca.Store.Recompute.{recompute_representatives, has_cluster-recompute}
use tca.Clusters.{add_member, add_members, move_members, in_clusters, absorb, moved_count}
use tca.Clusters.Members.{has_member-move_members}

eq_of_test : (k j : ℕ) → (k == j) ≡ true → j ≡ k
eq_of_test k j h = ground arith

-- Whether item `j` is in one of the clusters.
abbrev pub in_any : List ℕ → ℕ → Database → Bool
in_any ids j db = exists_row (λ (m : Member). j == m.item_id && member m.cluster_id ids) db.members

-- The items of the target and of the sources.
pub in_any-cons :
    (c j : ℕ) (ids : List ℕ) (db : Database)
    → in_any (c ∷ ids) j db ≡ (has_member c j db || in_any ids j db)
unfolding member
in_any-cons c j ids db =
    exists_row_ext _
      (λ (m : Member). is_member_row c j m || (j == m.item_id && member m.cluster_id ids))
      db.members (λ m. ground arith)
    ∙ exists_row_or (is_member_row c j) (λ (m : Member). j == m.item_id && member m.cluster_id ids)
        db.members

has_cluster-add_members :
    (c k : ℕ) (is : List ℕ) (db : Database) → has_cluster k (add_members c is db) ≡ has_cluster k db
unfolding add_members add_member
has_cluster-add_members c k [] db = refl
has_cluster-add_members c k (i ∷ is) db = has_cluster-add_members c k is (add_member c i db)

pub has_item-add_members :
    (c k : ℕ) (is : List ℕ) (db : Database) → has_item k (add_members c is db) ≡ has_item k db
unfolding add_members add_member
has_item-add_members c k [] db = refl
has_item-add_members c k (i ∷ is) db = has_item-add_members c k is (add_member c i db)

module _ (target : ℕ) (sources : List ℕ) (db : Database) where
  pub has_cluster-move_members :
      (k : ℕ) → has_cluster k (move_members target sources db) ≡ has_cluster k db
  unfolding move_members
  has_cluster-move_members k =
      has_cluster-add_members target k
        (map (λ (m : Member). m.item_id) (keep (in_clusters sources) db.members)) db

  pub has_cluster-absorb :
      (k : ℕ)
      → has_cluster k (absorb target sources db) ≡ (has_cluster k db && not (member k sources))
  unfolding absorb
  has_cluster-absorb k = ground (
    arith,
    has_cluster-recompute (target ∷ []) (delete_clusters sources (move_members target sources db))
        k,
    has_cluster-delete_clusters sources (move_members target sources db) k,
    has_cluster-move_members k,
  )

  absorb-members :
      (k j : ℕ)
      → has_member k j (absorb target sources db)
        ≡ has_member k j (delete_clusters sources (move_members target sources db))
  unfolding absorb recompute_representatives
  absorb-members k j = refl

  has_member-absorb_target :
      (j : ℕ)
      → member target sources ≡ false
      → has_member target j (absorb target sources db) ≡ in_any (target ∷ sources) j db
  has_member-absorb_target j apart = ground (
    arith,
    ==_refl target,
    absorb-members target j,
    has_member-delete_clusters sources (move_members target sources db) target j,
    has_member-move_members target target j sources db,
    in_any-cons target j sources db,
  )

  has_member-absorb_other :
      (k j : ℕ)
      → (k == target) ≡ false
      → has_member k j (absorb target sources db) ≡ (has_member k j db && not (member k sources))
  has_member-absorb_other k j other = ground (
    arith,
    absorb-members k j,
    has_member-delete_clusters sources (move_members target sources db) k j,
    has_member-move_members target k j sources db,
  )

  pub has_member-absorb :
      (k j : ℕ)
      → member target sources ≡ false
      → has_member k j (absorb target sources db) ≡ (
          if k == target
          then in_any (target ∷ sources) j db
          else has_member k j db && not (member k sources))
  has_member-absorb k j apart = elim (Bool-cases (k == target)) [
    | inl same ↦ rw same (
        subst (λ x. has_member x j (absorb target sources db) ≡ in_any (target ∷ sources) j db)
          (eq_of_test k target same) (has_member-absorb_target j apart))
    | inr other ↦ rw other (has_member-absorb_other k j other)
  ]

-- With nothing to move there are no members of the sources.
pub none_moved :
    (sources : List ℕ) (db : Database) (j : ℕ)
    → (moved_count sources db == 0) ≡ true
    → in_any sources j db ≡ false
none_moved sources db j h = elim (Bool-cases (in_any sources j db)) [
  | inl found ↦ absurd (
      ground (
        arith,
        exists_row-count (in_clusters sources) db.members
            (exists_row_mono _ (in_clusters sources) db.members (λ m. ground arith) found),
      ))
  | inr missing ↦ missing
]
