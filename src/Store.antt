-- ===== src/Store.antt =====
-- The tables that deduplication and retention share (alembic/versions/5f8b0d1e2a44, 9c2a8f6d0f7b
-- and 4b080ca28e36), and what SQLite does on a DELETE: the foreign keys are enforced
-- (tca/storage/db.py sets PRAGMA foreign_keys=ON), so the rows that refer to a deleted row go with
-- it (CASCADE) or lose the reference (SET NULL).
pub mod Rank
pub mod First
pub mod Unique
pub mod Keys
pub mod Delete
pub mod Integrity
pub mod Cascade
pub mod Recompute
use Prim.Native.String.{String}
use tca.Base.{
  ℕ, zero, suc, ◌+◌, Bool, true, false, not, ◌&&◌, ◌||◌, Option, none, some, List, [], ◌∷◌, map,
  ◌==◌, ltb, if◌then◌else◌, some_eq, keep, exists_row, member, max, Text,
}

-- A row of `items`. `published_at` and `created_at` are the places of the stored texts in the
-- collating order, which is all that the queries use of them.
pub record Item : Type 0 where
  pub id : ℕ
  pub raw_message_id : Option ℕ
  pub published_at : Option ℕ
  pub title : Option Text
  pub body : Option Text
  pub canonical_url : Option Text
  pub created_at : ℕ

-- A row of `dedupe_clusters`, without its random `cluster_key`.
pub record Cluster : Type 0 where
  pub id : ℕ
  pub representative_item_id : Option ℕ

-- A row of `dedupe_members`, whose primary key is the pair.
pub record Member : Type 0 where
  pub cluster_id : ℕ
  pub item_id : ℕ

-- A row of `dedupe_decisions`. Of `metadata_json` the model keeps what `merge_clusters` writes:
-- the target and the sources.
pub record Decision : Type 0 where
  pub id : ℕ
  pub item_id : ℕ
  pub cluster_id : Option ℕ
  pub candidate_item_id : Option ℕ
  pub strategy_name : String
  pub outcome : String
  pub reason_code : String
  pub metadata : Option (ℕ × List ℕ)

-- A row of `raw_messages` or of `ingest_errors`: its key and its age.
pub record Stamped : Type 0 where
  pub id : ℕ
  pub created_at : ℕ

-- A row of `bot_deliveries`.
pub record Delivery : Type 0 where
  pub id : ℕ
  pub cluster_id : ℕ

pub record Database : Type 0 where
  pub items : List Item
  pub clusters : List Cluster
  pub members : List Member
  pub decisions : List Decision
  pub raw_messages : List Stamped
  pub ingest_errors : List Stamped
  pub deliveries : List Delivery

abbrev pub has_item : ℕ → Database → Bool
has_item i db = exists_row (λ (r : Item). i == r.id) db.items

abbrev pub has_cluster : ℕ → Database → Bool
has_cluster c db = exists_row (λ (r : Cluster). c == r.id) db.clusters

-- Whether the item is a member of the cluster.
abbrev pub is_member_row : ℕ → ℕ → Member → Bool
is_member_row c i m = c == m.cluster_id && i == m.item_id

abbrev pub has_member : ℕ → ℕ → Database → Bool
has_member c i db = exists_row (is_member_row c i) db.members

-- A nullable reference after ON DELETE SET NULL.
unfoldable pub set_null : List ℕ → Option ℕ → Option ℕ
set_null ids none = none
set_null ids (some k) = if member k ids then none else some k

unfoldable pub refers_to : List ℕ → Option ℕ → Bool
refers_to ids none = false
refers_to ids (some k) = member k ids

-- The key that SQLite gives to a new row: one more than the greatest.
unfoldable pub next_id : List ℕ → ℕ
next_id [] = 1
next_id (x ∷ xs) = max (suc x) (next_id xs)
