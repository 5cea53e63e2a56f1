-- ===== src/Prune/Items.antt =====
-- The second step: deleting the expired items in batches, and collecting the clusters that lose one.
use tca.Base.{
  ℕ, suc, ◌+◌, ◌≤◌, ◌<◌, ◌≡◌, refl, sym, ◌∙◌, Bool, true, false, not, ◌&&◌, ◌||◌, some, List, [],
  ◌∷◌, map, ◌==◌, keep-map, keep_all, exists_row, exists_row_mono, and_absorb, count_rows,
  count_rows-le_length, length, length-map, member, arith, Bool-cases, inl, inr,
}
use tca.Base.Sort.{member-insert_once}
use tca.Store.{Stamped, Member, Database, has_item, has_cluster, has_member, is_member_row}
use tca.Store.Delete.{
  delete_items, has_item-delete_items, has_cluster-delete_items, has_member-delete_items,
  not-member_of_eq,
}
use tca.Base.Sort.{IsIncreasing, insert_once-IsIncreasing}
use tca.Store.Integrity.{IsIntact}
use tca.Store.Cascade.{delete_items-IsIntact}
use tca.Prune.{
  Tally, stamp, expired, select_ids, ItemPass, item_batch, add_affected,
  delete_expired_items_in_batches, delete_batch_size,
}
use tca.Prune.Batch.{IsDistinct, current, spared, select_ids-IsBatch, select_ids-nil}
use tca.Prune.Drain.{IsTally, empty_tally, empty_tally-IsTally, drain_lem}

-- The clusters of a batch are added to those found before.
pub member-add_affected :
    (c : ℕ) (ids : List ℕ) (ms : List Member) (affected : List ℕ)
    → member c (add_affected ids ms affected) ≡ (
        member c affected
        || exists_row (λ (m : Member). c == m.cluster_id && member m.item_id ids) ms)
unfolding add_affected exists_row
member-add_affected c ids [] affected = ground arith
member-add_affected c ids (m ∷ ms) affected = ground (
  arith,
  member-insert_once c m.cluster_id (add_affected ids ms affected),
  member-add_affected c ids ms affected,
)

-- What the loop keeps, from the database that it began with.
pub record ItemsKept (cutoff : ℕ) (start : Database) (p : ItemPass) : Type 0 where
  pub intact : IsIntact p.db
  pub distinct : IsDistinct (map stamp p.db.items)
  pub items : current cutoff (map stamp p.db.items) ≡ current cutoff (map stamp start.items)
  pub clusters : (c : ℕ) → has_cluster c p.db ≡ has_cluster c start
  pub members : (c i : ℕ) → has_member c i p.db ≡ (has_member c i start && has_item i p.db)
  pub lost :
      (c i : ℕ)
      → has_member c i start ≡ true
      → has_member c i p.db ≡ false
      → member c p.affected ≡ true
  pub increasing : IsIncreasing p.affected
  pub cluster_count : length p.db.clusters ≡ length start.clusters
  pub raw_messages : p.db.raw_messages ≡ start.raw_messages
  pub ingest_errors : p.db.ingest_errors ≡ start.ingest_errors

add_affected-IsIncreasing :
    (ids : List ℕ) (ms : List Member) (affected : List ℕ)
    → IsIncreasing affected
    → IsIncreasing (add_affected ids ms affected)
unfolding add_affected
add_affected-IsIncreasing ids [] affected h = h
add_affected-IsIncreasing ids (m ∷ ms) affected h = elim (Bool-cases (member m.item_id ids)) [
  | inl e ↦ rw e (
      insert_once-IsIncreasing m.cluster_id (add_affected ids ms affected)
        (add_affected-IsIncreasing ids ms affected h))
  | inr e ↦ rw e (add_affected-IsIncreasing ids ms affected h)
]

clusters-delete_items :
    (ids : List ℕ) (db : Database) → length (delete_items ids db).clusters ≡ length db.clusters
unfolding delete_items
clusters-delete_items ids db = length-map _ db.clusters

items-delete_items :
    (ids : List ℕ) (db : Database)
    → map stamp (delete_items ids db).items ≡ spared ids (map stamp db.items)
unfolding delete_items
items-delete_items ids db = sym (keep-map (λ (r : Stamped). not (member r.id ids)) stamp db.items)

abbrev items_left : ℕ → ItemPass → ℕ
items_left cutoff p = count_rows (expired cutoff) (map stamp p.db.items)

or_true : (a b : Bool) → b ≡ true → (a || b) ≡ true
or_true a b h = ground arith

affected_step :
    (ids : List ℕ) (p : ItemPass) (c i : ℕ)
    → has_member c i p.db ≡ true
    → has_member c i (delete_items ids p.db) ≡ false
    → member c (add_affected ids p.db.members p.affected) ≡ true
affected_step ids p c i was gone =
    member-add_affected c ids p.db.members p.affected
    ∙ or_true (member c p.affected) _ (
        exists_row_mono (is_member_row c i)
          (λ (m : Member). c == m.cluster_id && member m.item_id ids) p.db.members
          (λ m h. ground (arith, not-member_of_eq i m.item_id ids, listed)) was)
  where
    listed : member i ids ≡ true
    listed = ground (arith, has_member-delete_items ids p.db c i)

others_untouched :
    (ids : List ℕ) (db : Database)
    → ((delete_items ids db).raw_messages ≡ db.raw_messages)
      × ((delete_items ids db).ingest_errors ≡ db.ingest_errors)
unfolding delete_items
others_untouched ids db = (refl, refl)

items_step :
    (cutoff : ℕ) (start : Database) (p : ItemPass) (i : ℕ) (is : List ℕ)
    → select_ids cutoff (map stamp p.db.items) ≡ i ∷ is
    → ItemsKept cutoff start p
    → ItemsKept cutoff start (item_batch (i ∷ is) p).1
      × (0 < (item_batch (i ∷ is) p).0)
      × ((item_batch (i ∷ is) p).0 ≤ delete_batch_size)
      × ((item_batch (i ∷ is) p).0 + items_left cutoff (item_batch (i ∷ is) p).1
          ≡ items_left cutoff p)
items_step cutoff start p i is e q =
    let ids = i ∷ is in
    let b = select_ids-IsBatch cutoff i is (map stamp p.db.items) q.distinct e in
    let rows = items-delete_items ids p.db in
    (
      record {
        intact = delete_items-IsIntact ids p.db q.intact;
        distinct = rw rows b.distinct;
        items = rw rows (b.current_kept ∙ q.items);
        clusters = λ c. has_cluster-delete_items ids p.db c ∙ q.clusters c;
        members = λ c j. ground (
          arith,
          q.members c j,
          has_member-delete_items ids p.db c j,
          has_item-delete_items ids p.db j,
        );
        lost = λ c j was gone. elim (Bool-cases (has_member c j p.db)) [
          | inl still ↦ affected_step ids p c j still gone
          | inr before ↦
              ground (arith, q.lost c j, member-add_affected c ids p.db.members p.affected)
        ];
        increasing = add_affected-IsIncreasing ids p.db.members p.affected q.increasing;
        cluster_count = clusters-delete_items ids p.db ∙ q.cluster_count;
        raw_messages = (others_untouched ids p.db).0 ∙ q.raw_messages;
        ingest_errors = (others_untouched ids p.db).1 ∙ q.ingest_errors;
      },
      b.some_deleted,
      b.StartsAbove,
      rw rows b.counted,
    )

-- The step ends: only the current items are left, and every cluster that lost one is collected.
pub delete_expired_items_lem :
    (cutoff : ℕ) (db : Database)
    → IsIntact db
    → IsDistinct (map stamp db.items)
    → (t : Tally) × (p : ItemPass) × (delete_expired_items_in_batches cutoff db ≡ some (t, p))
      × ItemsKept cutoff db p
      × (map stamp p.db.items ≡ current cutoff (map stamp db.items))
      × IsTally t
      × (t.deleted_total ≡ count_rows (expired cutoff) (map stamp db.items))
unfolding delete_expired_items_in_batches
delete_expired_items_lem cutoff db v d =
    let (t, p, ran, kept, none_left, exact, total) =
      drain_lem (λ (x : ItemPass). select_ids cutoff (map stamp x.db.items)) item_batch
        (ItemsKept cutoff db) (items_left cutoff) (items_step cutoff db)
        (λ x. select_ids-nil cutoff (map stamp x.db.items)) (suc (length db.items)) empty_tally
        (record { db = db; affected = [] })
        (omega (
          arith,
          count_rows-le_length (expired cutoff) (map stamp db.items),
          length-map stamp db.items,
        ))
        (record {
          intact = v;
          distinct = d;
          items = refl;
          clusters = λ c. refl;
          members = λ c i. and_absorb (has_member c i db) (has_item i db) (v.member_item c i);
          lost = λ c i was gone. cc;
          increasing = tt;
          cluster_count = refl;
          raw_messages = refl;
          ingest_errors = refl;
        })
        empty_tally-IsTally in
    (
      t,
      p,
      ran,
      kept,
      sym (keep_all (expired cutoff) (map stamp p.db.items) none_left) ∙ kept.items,
      exact,
      omega arith,
    )
