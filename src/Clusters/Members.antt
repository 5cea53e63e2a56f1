-- ===== src/Clusters/Members.antt =====
-- What adding memberships does to the question `has_member`.
use tca.Base.{
  ℕ, ◌≡◌, ap, ◌∙◌, Bool, true, ◌&&◌, ◌||◌, List, [], ◌∷◌, map, ◌==◌, keep, exists_row,
  exists_row-append, exists_row_single, exists_row-keep, member, member-map, arith, Bool-cases, inl,
  inr,
}
use tca.Store.{Member, Database, has_member, is_member_row}
use tca.Clusters.{add_member, add_members, move_members, in_clusters}

-- A pair that is there already adds nothing.
absorbed : (P : ℕ → ℕ → Bool) (c i k j : ℕ) → P c i ≡ true → P k j ≡ (P k j || (k == c && j == i))
absorbed P c i k j h = elim (Bool-cases (k == c && j == i)) [
  | inl same ↦
      let e : k ≡ c = ground arith in
      let f : j ≡ i = ground arith in let g : P k j ≡ true = rw (e, f) h in ground arith
  | inr other ↦ ground arith
]

pub has_member-add_member :
    (c i k j : ℕ) (db : Database)
    → has_member k j (add_member c i db) ≡ (has_member k j db || (k == c && j == i))
unfolding add_member
has_member-add_member c i k j db = elim (Bool-cases (has_member c i db)) [
  | inl old ↦ rw old (absorbed (λ a b. has_member a b db) c i k j old)
  | inr new ↦ rw new (
      exists_row-append (is_member_row k j) db.members _
      ∙ ap (λ b. has_member k j db || b) (exists_row_single (is_member_row k j) _))
]

pub has_member-add_members :
    (c k j : ℕ) (is : List ℕ) (db : Database)
    → has_member k j (add_members c is db) ≡ (has_member k j db || (k == c && member j is))
unfolding add_members member
has_member-add_members c k j [] db = ground arith
has_member-add_members c k j (i ∷ is) db =
    ground
      (arith, has_member-add_members c k j is (add_member c i db), has_member-add_member c i k j db)

-- The items that a merge moves are the members of the sources.
pub has_member-move_members :
    (target k j : ℕ) (sources : List ℕ) (db : Database)
    → has_member k j (move_members target sources db) ≡ (
        has_member k j db
        || (k == target
            && exists_row
                (λ (m : Member). j == m.item_id && member m.cluster_id sources)
                db.members))
unfolding move_members
has_member-move_members target k j sources db = ground (
  arith,
  has_member-add_members target k j
      (map (λ (m : Member). m.item_id) (keep (in_clusters sources) db.members)) db,
  member-map (λ (m : Member). m.item_id) j (keep (in_clusters sources) db.members),
  exists_row-keep (λ (m : Member). j == m.item_id) (in_clusters sources) db.members,
)
