-- ===== src/Channels/Purge/Repair.antt =====
-- What the repair does to the clusters: those that are listed are represented anew, or go when nothing is
-- left of them.
use tca.Base.{ℕ, ◌≡◌, refl, ◌∙◌, true, false, not, ◌&&◌, List, [], ◌∷◌, some_eq, member, arith}
use tca.Store.{Database, has_cluster, has_member}
use tca.Store.Rank.{representative}
use tca.Store.Delete.{delete_clusters}
use tca.Store.Recompute.{
  recompute_representatives, recompute-IsIntact, has_cluster-recompute, represents-recompute_at,
  represents-recompute_other,
}
use tca.Store.Integrity.{IsIntact, represents}
use tca.Prune.{has_any_member, delete_empty_clusters}
use tca.Prune.Finish.{
  emptied, has_any_ext, has_cluster-emptied, has_member-emptied, represents-emptied,
  emptied-IsIntact, representative_ext,
}
use tca.Channels.Purge.{repair}

-- `db'` is `db` with the clusters `ids` repaired.
pub record Repaired (ids : List ℕ) (db db' : Database) : Type 0 where
  pub intact : IsIntact db'
  pub items : db'.items ≡ db.items
  pub raw_messages : db'.raw_messages ≡ db.raw_messages
  pub members : (c i : ℕ) → has_member c i db' ≡ has_member c i db
  pub clusters :
      (c : ℕ)
      → has_cluster c db' ≡ (has_cluster c db && not (member c ids && not (has_any_member c db')))
  pub listed :
      (c k : ℕ)
      → member c ids ≡ true
      → represents c k db' ≡ (has_cluster c db' && some_eq (representative c db') k)
  pub others : (c k : ℕ) → member c ids ≡ false → represents c k db' ≡ represents c k db

module _ (ids : List ℕ) (db : Database) (v : IsIntact db) where
  abbrev recomputed : Database
  recomputed = recompute_representatives ids db

  has_any-recomputed : (c : ℕ) → has_any_member c recomputed ≡ has_any_member c db
  unfolding recompute_representatives
  has_any-recomputed c = refl

  has_member-recomputed : (c i : ℕ) → has_member c i recomputed ≡ has_member c i db
  unfolding recompute_representatives
  has_member-recomputed c i = refl

  members-emptied : (c i : ℕ) → has_member c i (emptied ids recomputed) ≡ has_member c i db
  members-emptied c i = has_member-emptied ids recomputed c i ∙ has_member-recomputed c i

  items-emptied :
      ((emptied ids recomputed).items ≡ db.items)
      × ((emptied ids recomputed).raw_messages ≡ db.raw_messages)
  unfolding recompute_representatives delete_empty_clusters delete_clusters
  items-emptied = (refl, refl)

  has_any-emptied : (c : ℕ) → has_any_member c (emptied ids recomputed) ≡ has_any_member c db
  has_any-emptied c = has_any_ext c db (emptied ids recomputed) (members-emptied c)

  clusters-emptied :
      (c : ℕ)
      → has_cluster c (emptied ids recomputed) ≡ (
          has_cluster c db && not (member c ids && not (has_any_member c (emptied ids recomputed))))
  clusters-emptied c = ground (
    arith,
    has_cluster-emptied ids recomputed c,
    has_cluster-recompute ids db c,
    has_any-recomputed c,
    has_any-emptied c,
  )

  emptied-Repaired : Repaired ids db (emptied ids recomputed)
  emptied-Repaired = record {
    intact = emptied-IsIntact ids recomputed (recompute-IsIntact ids db v);
    items = items-emptied.0;
    raw_messages = items-emptied.1;
    members = members-emptied;
    clusters = clusters-emptied;
    listed = λ c k h. ground (
      arith,
      represents-emptied ids recomputed c k,
      clusters-emptied c,
      represents-recompute_at ids db c k h,
      has_cluster-recompute ids db c,
      has_any-recomputed c,
      has_any-emptied c,
      representative_ext c db (emptied ids recomputed) items-emptied.0 (members-emptied c),
    );
    others = λ c k h.
        ground
          (arith, represents-emptied ids recomputed c k, represents-recompute_other ids db c k h);
  }

  nothing-Repaired : Repaired [] db db
  unfolding member
  nothing-Repaired = record {
    intact = v;
    items = refl;
    raw_messages = refl;
    members = λ c i. refl;
    clusters = λ c. ground arith;
    listed = λ c k h. cc;
    others = λ c k h. refl;
  }

pub repair-Repaired : (ids : List ℕ) (db : Database) → IsIntact db → Repaired ids db (repair ids db)
unfolding repair
repair-Repaired [] db v = nothing-Repaired [] db v
repair-Repaired (c ∷ cs) db v = emptied-Repaired (c ∷ cs) db v
