-- ===== src/Clusters/Joined.antt =====
-- `assign_item_to_cluster` leaves an intact database.
use mathlib.Core.Path.{subst}
use tca.Base.{
  ℕ, ◌≡◌, sym, ap, ◌∙◌, true, false, ◌&&◌, ◌||◌, Option, none, some, ◌==◌, ==_refl, arith,
  Bool-cases, inl, inr, ◌⊎◌,
}
use tca.Store.{Database, has_item, has_cluster, has_member}
use tca.Store.Integrity.{IsIntact, represents}
use tca.Clusters.{
  ClusterAssignmentResult, Result, ok, err, add_member, create_cluster, join_cluster, transact,
  assign_item_to_cluster,
}
use tca.Clusters.Members.{has_member-add_member}
use tca.Clusters.Assign.{
  JoinOutcome, add_member_old, fresh_id, has_cluster-opened, has_member-opened,
  join_cluster_outcome, opened, represents-opened,
}

-- The memberships after an INSERT: the old ones and the new one.
joined_cases :
    (i c k j : ℕ) (db : Database)
    → has_member k j (add_member c i db) ≡ true
    → (has_member k j db ≡ true) ⊎ ((k ≡ c) × (j ≡ i))
joined_cases i c k j db h = ground (arith, has_member-add_member c i k j db)

joined-has_member :
    (i c k j : ℕ) (db : Database)
    → (has_member k j db || (k == c && j == i)) ≡ true
    → has_member k j (add_member c i db) ≡ true
joined-has_member i c k j db h = has_member-add_member c i k j db ∙ h

pub joined-IsIntact :
    (i c : ℕ) (db : Database)
    → IsIntact db
    → has_cluster c db ≡ true
    → has_item i db ≡ true
    → IsIntact (add_member c i db)
unfolding add_member
joined-IsIntact i c db v cluster item = record {
  member_cluster = λ k j h. elim (joined_cases i c k j db h) [
    | inl old ↦ v.member_cluster k j old
    | inr (e, f) ↦ subst (λ x. has_cluster x db ≡ true) (sym e) cluster
  ];
  member_item = λ k j h. elim (joined_cases i c k j db h) [
    | inl old ↦ v.member_item k j old
    | inr (e, f) ↦ subst (λ x. has_item x db ≡ true) (sym f) item
  ];
  representative_member = λ k j h.
      joined-has_member i c k j db
        (ap (λ b. b || (k == c && j == i)) (v.representative_member k j h));
  decision_item = v.decision_item;
  decision_cluster = v.decision_cluster;
  decision_candidate = v.decision_candidate;
  delivery_cluster = v.delivery_cluster;
  item_raw_message = v.item_raw_message;
}

module _ (i : ℕ) (db : Database) (v : IsIntact db) (item : has_item i db ≡ true) where
  old_cluster : (c : ℕ) → has_cluster c db ≡ true → has_cluster c (opened i db) ≡ true
  old_cluster c h = has_cluster-opened i db c ∙ ap (λ b. b || c == fresh_id db) h

  new_cluster : has_cluster (fresh_id db) (opened i db) ≡ true
  new_cluster = ground (arith, has_cluster-opened i db (fresh_id db), ==_refl (fresh_id db))

  opened_represented :
      (c k : ℕ)
      → represents c k (opened i db) ≡ true
      → (has_member c k (opened i db) || (c == fresh_id db && k == i)) ≡ true
  opened_represented c k h =
      ground
        (arith, represents-opened i db c k, v.representative_member c k, has_member-opened i c k db)

  opened-IsIntact : IsIntact (add_member (fresh_id db) i (opened i db))
  unfolding add_member create_cluster
  opened-IsIntact = record {
    member_cluster = λ c j h. elim (joined_cases i (fresh_id db) c j (opened i db) h) [
      | inl old ↦ old_cluster c (v.member_cluster c j old)
      | inr (e, f) ↦ subst (λ x. has_cluster x (opened i db) ≡ true) (sym e) new_cluster
    ];
    member_item = λ c j h. elim (joined_cases i (fresh_id db) c j (opened i db) h) [
      | inl old ↦ v.member_item c j old
      | inr (e, f) ↦ subst (λ x. has_item x db ≡ true) (sym f) item
    ];
    representative_member =
        λ c k h. joined-has_member i (fresh_id db) c k (opened i db) (opened_represented c k h);
    decision_item = v.decision_item;
    decision_cluster = λ c h. old_cluster c (v.decision_cluster c h);
    decision_candidate = v.decision_candidate;
    delivery_cluster = λ c h. old_cluster c (v.delivery_cluster c h);
    item_raw_message = v.item_raw_message;
  }

assign_matched-IsIntact :
    (i c : ℕ) (db : Database) (o : Result ClusterAssignmentResult × Database)
    → IsIntact db
    → JoinOutcome i c false db o
    → IsIntact (transact db o).1
assign_matched-IsIntact i c db (err e, db') v h = v
assign_matched-IsIntact i c db (ok r, db') v (there, same, wrote) =
    elim (Bool-cases (has_member c i db)) [
      | inl old ↦ subst IsIntact (sym (wrote ∙ add_member_old c i db old)) v
      | inr new ↦
          subst IsIntact (sym wrote) (joined-IsIntact i c db v (ground arith) (ground arith))
    ]

assign_new-IsIntact :
    (i : ℕ) (db : Database) (o : Result ClusterAssignmentResult × Database)
    → IsIntact db
    → has_item i db ≡ true
    → JoinOutcome i (fresh_id db) true (opened i db) o
    → IsIntact (transact db o).1
assign_new-IsIntact i db (err e, db') v item h = v
assign_new-IsIntact i db (ok r, db') v item (there, same, wrote) =
    subst IsIntact (sym wrote) (opened-IsIntact i db v item)

-- `assign_item_to_cluster` keeps a database intact: no row refers to a missing one, and a
-- representative is a member of its cluster.
pub assign_item_to_cluster-IsIntact :
    (i : ℕ) (matched : Option ℕ) (db : Database)
    → IsIntact db
    → IsIntact (assign_item_to_cluster i matched db).1
unfolding assign_item_to_cluster create_cluster
assign_item_to_cluster-IsIntact i (some c) db v =
    assign_matched-IsIntact i c db (join_cluster i c false db) v (join_cluster_outcome i c false db)
assign_item_to_cluster-IsIntact i none db v = elim (Bool-cases (has_item i db)) [
  | inl item ↦ rw item (
      assign_new-IsIntact i db (join_cluster i (fresh_id db) true (opened i db)) v item
        (join_cluster_outcome i (fresh_id db) true (opened i db)))
  | inr missing ↦ rw missing v
]
