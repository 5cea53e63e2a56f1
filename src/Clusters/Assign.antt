-- ===== src/Clusters/Assign.antt =====
-- What `assign_item_to_cluster` leaves behind.
use tca.Base.{
  ℕ, ◌<◌, ◌≡◌, refl, sym, ap, ◌∙◌, Bool, true, false, not, ◌&&◌, ◌||◌, Option, none, some, List, [],
  ◌∷◌, map, ◌==◌, ==_refl, some_eq, is_none, exists_row-append, exists_row_single, member,
  member-map, arith, Bool-cases, inl, inr,
}
use tca.Store.{Cluster, Database, has_item, has_cluster, has_member, next_id}
use tca.Store.Integrity.{represents}
use tca.Clusters.{
  ClusterAssignmentResult, Result, ok, err, integrity, add_member, create_cluster, join_cluster,
  transact, assign_item_to_cluster,
}
use tca.Clusters.Members.{has_member-add_member}

member_lt_next_id : (k : ℕ) (ids : List ℕ) → member k ids ≡ true → k < next_id ids
unfolding member next_id
member_lt_next_id k [] h = cc
member_lt_next_id k (x ∷ xs) h = ground (arith, member_lt_next_id k xs)

abbrev pub fresh_id : Database → ℕ
fresh_id db = next_id (map (λ (r : Cluster). r.id) db.clusters)

-- The new key is not in use.
pub has_cluster-fresh_id : (db : Database) → has_cluster (fresh_id db) db ≡ false
has_cluster-fresh_id db = elim (Bool-cases (has_cluster (fresh_id db) db)) [
  | inl used ↦ absurd (
      omega (
        arith,
        member_lt_next_id (fresh_id db) (map (λ (r : Cluster). r.id) db.clusters)
            (member-map (λ (r : Cluster). r.id) (fresh_id db) db.clusters ∙ used),
      ))
  | inr unused ↦ unused
]

abbrev pub opened : ℕ → Database → Database
opened i db = (create_cluster i db).1

module _ (i : ℕ) (db : Database) where
  pub has_cluster-opened :
      (c : ℕ) → has_cluster c (opened i db) ≡ (has_cluster c db || c == fresh_id db)
  unfolding create_cluster
  has_cluster-opened c =
      exists_row-append (λ (r : Cluster). c == r.id) db.clusters _
      ∙ ap (λ b. has_cluster c db || b) (exists_row_single (λ (r : Cluster). c == r.id) _)

  pub represents-opened :
      (c k : ℕ) → represents c k (opened i db) ≡ (represents c k db || (c == fresh_id db && i == k))
  unfolding create_cluster
  represents-opened c k =
      exists_row-append (λ (r : Cluster). c == r.id && some_eq r.representative_item_id k)
        db.clusters _
      ∙ ap (λ b. represents c k db || b)
          (exists_row_single (λ (r : Cluster). c == r.id && some_eq r.representative_item_id k) _)

-- The result and the database of a call that succeeds: one membership more, unless it was there.
pub record Assigned (i : ℕ) (matched : Option ℕ) (db : Database) (r : ClusterAssignmentResult)
    (db' : Database) : Type 0 where
  pub cluster : elim matched [ some c ↦ c | none ↦ fresh_id db ] ≡ r.cluster_id
  pub created_cluster : r.created_cluster ≡ is_none matched
  pub created_membership : r.created_membership ≡ not (has_member r.cluster_id i db)
  pub clusters :
      (c : ℕ) → has_cluster c db' ≡ (has_cluster c db || (is_none matched && c == r.cluster_id))
  pub members :
      (c j : ℕ) → has_member c j db' ≡ (has_member c j db || (c == r.cluster_id && j == i))
  pub representatives :
      (c k : ℕ)
      → represents c k db'
        ≡ (represents c k db || (is_none matched && (c == r.cluster_id && i == k)))
  pub others : db' ≡ record db { clusters = db'.clusters; members = db'.members }

-- When the call can succeed: the item is a member already, or it and the cluster exist.
abbrev pub is_assignable : ℕ → Option ℕ → Database → Bool
is_assignable i none db = has_item i db
is_assignable i (some c) db = has_member c i db || (has_cluster c db && has_item i db)

abbrev pub AssignOutcome :
    ℕ → Option ℕ → Database → Result ClusterAssignmentResult × Database → Type 0
AssignOutcome i matched db (ok r, db') =
    (is_assignable i matched db ≡ true) × Assigned i matched db r db'
AssignOutcome i matched db (err e, db') =
    (is_assignable i matched db ≡ false) × (e ≡ integrity) × (db' ≡ db)

has_cluster-add_member :
    (c i k : ℕ) (db : Database) → has_cluster k (add_member c i db) ≡ has_cluster k db
unfolding add_member
has_cluster-add_member c i k db = refl

represents-add_member :
    (c i j k : ℕ) (db : Database) → represents j k (add_member c i db) ≡ represents j k db
unfolding add_member
represents-add_member c i j k db = refl

add_member-others :
    (c i : ℕ) (db : Database)
    → add_member c i db
      ≡ record db { clusters = (add_member c i db).clusters; members = (add_member c i db).members }
unfolding add_member
add_member-others c i db = refl

add_member-opened :
    (c i : ℕ) (db : Database)
    → let db' = add_member c i (opened i db) in
      db' ≡ record db { clusters = db'.clusters; members = db'.members }
unfolding add_member create_cluster
add_member-opened c i db = refl

abbrev is_joinable : ℕ → ℕ → Database → Bool
is_joinable i c db = has_member c i db || (has_cluster c db && has_item i db)

abbrev pub JoinOutcome :
    ℕ → ℕ → Bool → Database → Result ClusterAssignmentResult × Database → Type 0
JoinOutcome i c created db (ok r, db') =
    (is_joinable i c db ≡ true)
    × (r ≡ record {
      cluster_id = c;
      created_cluster = created;
      created_membership = not (has_member c i db);
    })
    × (db' ≡ add_member c i db)
JoinOutcome i c created db (err e, db') = (is_joinable i c db ≡ false) × (e ≡ integrity)

pub add_member_old : (c i : ℕ) (db : Database) → has_member c i db ≡ true → add_member c i db ≡ db
unfolding add_member
add_member_old c i db old = rw old

pub join_cluster_outcome :
    (i c : ℕ) (created : Bool) (db : Database)
    → JoinOutcome i c created db (join_cluster i c created db)
unfolding join_cluster
join_cluster_outcome i c created db = elim (Bool-cases (has_member c i db)) [
  | inl old ↦ rw old (ground arith, rw old, sym (add_member_old c i db old))
  | inr new ↦ elim (Bool-cases (has_cluster c db && has_item i db)) [
    | inl there ↦ rw (new, there) (ground arith, rw new, refl)
    | inr missing ↦ rw (new, missing) (ground arith, refl)
  ]
]

Assigned-join :
    (i c : ℕ) (db : Database)
    → Assigned i
        (some c)
        db
        (record {
          cluster_id = c;
          created_cluster = false;
          created_membership = not (has_member c i db);
        })
        (add_member c i db)
Assigned-join i c db = record {
  cluster = refl;
  created_cluster = refl;
  created_membership = refl;
  clusters = λ k. has_cluster-add_member c i k db ∙ ground arith;
  members = λ k j. has_member-add_member c i k j db;
  representatives = λ j k. represents-add_member c i j k db ∙ ground arith;
  others = add_member-others c i db;
}

pub has_member-opened :
    (i c j : ℕ) (db : Database) → has_member c j (opened i db) ≡ has_member c j db
unfolding create_cluster
has_member-opened i c j db = refl

Assigned-open :
    (i : ℕ) (db : Database)
    → Assigned i none db
        (record {
          cluster_id = fresh_id db;
          created_cluster = true;
          created_membership = not (has_member (fresh_id db) i (opened i db));
        })
        (add_member (fresh_id db) i (opened i db))
Assigned-open i db = record {
  cluster = refl;
  created_cluster = refl;
  created_membership = ap not (has_member-opened i (fresh_id db) i db);
  clusters =
      λ c. has_cluster-add_member (fresh_id db) i c (opened i db) ∙ has_cluster-opened i db c;
  members = λ c j.
      has_member-add_member (fresh_id db) i c j (opened i db)
      ∙ ap (λ b. b || (c == fresh_id db && j == i)) (has_member-opened i c j db);
  representatives =
      λ c k. represents-add_member (fresh_id db) i c k (opened i db) ∙ represents-opened i db c k;
  others = add_member-opened (fresh_id db) i db;
}

assign_matched :
    (i c : ℕ) (db : Database) (o : Result ClusterAssignmentResult × Database)
    → JoinOutcome i c false db o
    → AssignOutcome i (some c) db (transact db o)
assign_matched i c db (ok r, db') (there, same, wrote) =
    rw (same, wrote) (there, Assigned-join i c db)
assign_matched i c db (err e, db') (missing, same) = (missing, same, refl)

has_item-opened : (i j : ℕ) (db : Database) → has_item j (opened i db) ≡ has_item j db
unfolding create_cluster
has_item-opened i j db = refl

assign_new :
    (i : ℕ) (db : Database) (o : Result ClusterAssignmentResult × Database)
    → has_item i db ≡ true
    → JoinOutcome i (fresh_id db) true (opened i db) o
    → AssignOutcome i none db (transact db o)
assign_new i db (ok r, db') item (there, same, wrote) = rw (same, wrote) (item, Assigned-open i db)
assign_new i db (err e, db') item (missing, same) = absurd (
    ground
      (arith, has_cluster-opened i db (fresh_id db), has_item-opened i i db, ==_refl (fresh_id db)))

-- `assign_item_to_cluster` succeeds exactly when the membership is there already or the rows that
-- it refers to are; then the result names the cluster and says what is new; the memberships are
-- those of before and that of the item in the cluster; the clusters are those of before, with a
-- new one when none was matched; the representatives are those of before, with the item as that
-- of a new cluster; and the other tables are unchanged. Else it raises IntegrityError and writes
-- nothing.
pub assign_item_to_cluster_outcome :
    (i : ℕ) (matched : Option ℕ) (db : Database)
    → AssignOutcome i matched db (assign_item_to_cluster i matched db)
unfolding assign_item_to_cluster create_cluster
assign_item_to_cluster_outcome i (some c) db =
    assign_matched i c db (join_cluster i c false db) (join_cluster_outcome i c false db)
assign_item_to_cluster_outcome i none db = elim (Bool-cases (has_item i db)) [
  | inl item ↦ rw item (
      assign_new i db (join_cluster i (fresh_id db) true (opened i db)) item
        (join_cluster_outcome i (fresh_id db) true (opened i db)))
  | inr missing ↦ rw missing (missing, refl, refl)
]
