-- ===== src/Clusters/Event.antt =====
-- The item that a merge event is recorded for.
use tca.Base.{
  ℕ, ◌≡◌, sym, ap, ◌∙◌, true, false, Option, none, some, List, [], ◌∷◌, map, ◌==◌, keep, exists_row,
  exists_row_ext, exists_row-keep, member, member-map, arith, Bool-cases, inl, inr, ◌⊎◌,
}
use tca.Store.{Cluster, Member, Database, has_cluster, has_member, is_member_row}
use tca.Store.Rank.{representative, representative_lem}
use tca.Store.Recompute.{recompute_representatives, recompute_row}
use tca.Base.Least.{least, member-least, least-none}
use tca.Clusters.{event_item, stored_representative}

stored_representative-map :
    (c : ℕ) (db : Database) (rs : List Cluster)
    → exists_row (λ (r : Cluster). c == r.id) rs ≡ true
    → stored_representative c (map (recompute_row (c ∷ []) db) rs) ≡ representative c db
unfolding stored_representative exists_row member
stored_representative-map c db [] h = cc
stored_representative-map c db (r ∷ rs) h = elim (Bool-cases (c == r.id)) [
  | inl same ↦
      let e : c ≡ r.id = ground arith in ground (arith, ap (λ (x : ℕ). representative x db) e)
  | inr other ↦ ground (arith, stored_representative-map c db rs)
]

-- After the recomputation the row of the cluster holds its best item.
pub stored_representative-recompute :
    (c : ℕ) (db : Database)
    → has_cluster c db ≡ true
    → stored_representative c (recompute_representatives (c ∷ []) db).clusters ≡ representative c db
unfolding recompute_representatives
stored_representative-recompute c db h = stored_representative-map c db db.clusters h

abbrev item_ids : ℕ → Database → List ℕ
item_ids c db =
    map (λ (m : Member). m.item_id) (keep (λ (m : Member). c == m.cluster_id) db.members)

member-item_ids : (c j : ℕ) (db : Database) → member j (item_ids c db) ≡ has_member c j db
member-item_ids c j db =
    member-map (λ (m : Member). m.item_id) j (keep (λ (m : Member). c == m.cluster_id) db.members)
    ∙ exists_row-keep (λ (m : Member). j == m.item_id) (λ m. c == m.cluster_id) db.members
    ∙ exists_row_ext _ (is_member_row c j) db.members (λ m. ground arith)

abbrev pub first_of_two : Option ℕ → Option ℕ → Option ℕ
first_of_two (some i) o = some i
first_of_two none o = o

event_item_lem :
    (c : ℕ) (db : Database)
    → event_item c db ≡ first_of_two (stored_representative c db.clusters) (least (item_ids c db))
unfolding event_item
event_item_lem c db = ground arith

first_of_two_cases :
    (o p : Option ℕ) (i : ℕ) → first_of_two o p ≡ some i → (o ≡ some i) ⊎ (p ≡ some i)
first_of_two_cases (some j) p i h = inl h
first_of_two_cases none p i h = inr h

module _ (c : ℕ) (db : Database)
    (stored : stored_representative c db.clusters ≡ representative c db) where
  -- The event's item is a member of the target,
  pub event_item_member : (i : ℕ) → event_item c db ≡ some i → has_member c i db ≡ true
  event_item_member i h =
      elim (first_of_two_cases _ (least (item_ids c db)) i (sym (event_item_lem c db) ∙ h)) [
        | inl chosen ↦ (representative_lem c i db (sym stored ∙ chosen)).2
        | inr fallback ↦ sym (member-item_ids c i db) ∙ member-least (item_ids c db) i fallback
      ]

  -- and there is one unless the target has no members.
  pub event_item-none : (j : ℕ) → event_item c db ≡ none → has_member c j db ≡ false
  event_item-none j h =
      sym (member-item_ids c j db)
      ∙ least-none (item_ids c db) j (ground (arith, event_item_lem c db))
