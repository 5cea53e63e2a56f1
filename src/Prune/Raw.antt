-- ===== src/Prune/Raw.antt =====
-- The first step: deleting the expired raw messages in batches.
use tca.Base.{
  ℕ, suc, ◌+◌, ◌≤◌, ◌<◌, ◌≡◌, refl, sym, ap, ◌∙◌, some, List, [], ◌∷◌, map, keep_all, count_rows,
  count_rows-le_length, length, arith,
}
use tca.Store.{Item, Database, set_null}
use tca.Store.Delete.{delete_raw_messages}
use tca.Store.Integrity.{IsIntact}
use tca.Store.Cascade.{delete_raw_messages-IsIntact}
use tca.Prune.{
  Tally, stamp, expired, select_ids, raw_batch, delete_expired_raw_messages_in_batches,
  delete_batch_size,
}
use tca.Prune.Batch.{IsDistinct, current, select_ids-IsBatch, select_ids-nil}
use tca.Prune.Drain.{IsTally, empty_tally, empty_tally-IsTally, drain_lem}

-- What the loop keeps, from the database that it began with.
pub record RawKept (cutoff : ℕ) (start : Database) (db : Database) : Type 0 where
  pub intact : IsIntact db
  pub distinct : IsDistinct db.raw_messages
  pub raw_messages : current cutoff db.raw_messages ≡ current cutoff start.raw_messages
  pub items : map stamp db.items ≡ map stamp start.items
  pub clusters : db.clusters ≡ start.clusters
  pub members : db.members ≡ start.members
  pub ingest_errors : db.ingest_errors ≡ start.ingest_errors

map-stamp_raw :
    (ids : List ℕ) (xs : List Item)
    → map stamp (map (λ (r : Item). record r { raw_message_id = set_null ids r.raw_message_id }) xs)
      ≡ map stamp xs
map-stamp_raw ids [] = refl
map-stamp_raw ids (x ∷ xs) = ap (λ l. stamp x ∷ l) (map-stamp_raw ids xs)

abbrev raw_left : ℕ → Database → ℕ
raw_left cutoff db = count_rows (expired cutoff) db.raw_messages

raw_step :
    (cutoff : ℕ) (start db : Database) (i : ℕ) (is : List ℕ)
    → select_ids cutoff db.raw_messages ≡ i ∷ is
    → RawKept cutoff start db
    → RawKept cutoff start (raw_batch (i ∷ is) db).1
      × (0 < (raw_batch (i ∷ is) db).0)
      × ((raw_batch (i ∷ is) db).0 ≤ delete_batch_size)
      × ((raw_batch (i ∷ is) db).0 + raw_left cutoff (raw_batch (i ∷ is) db).1 ≡ raw_left cutoff db)
unfolding delete_raw_messages
raw_step cutoff start db i is e q =
    let b = select_ids-IsBatch cutoff i is db.raw_messages q.distinct e in
    (
      record {
        intact = delete_raw_messages-IsIntact (i ∷ is) db q.intact;
        distinct = b.distinct;
        raw_messages = b.current_kept ∙ q.raw_messages;
        items = map-stamp_raw (i ∷ is) db.items ∙ q.items;
        clusters = q.clusters;
        members = q.members;
        ingest_errors = q.ingest_errors;
      },
      b.some_deleted,
      b.StartsAbove,
      b.counted,
    )

-- The step ends: only the current raw messages are left, and the tally is exact.
pub delete_expired_raw_messages_lem :
    (cutoff : ℕ) (db : Database)
    → IsIntact db
    → IsDistinct db.raw_messages
    → (t : Tally) × (db' : Database) × (delete_expired_raw_messages_in_batches cutoff db
        ≡ some (t, db'))
      × RawKept cutoff db db'
      × (db'.raw_messages ≡ current cutoff db.raw_messages)
      × IsTally t
      × (t.deleted_total ≡ count_rows (expired cutoff) db.raw_messages)
unfolding delete_expired_raw_messages_in_batches
delete_expired_raw_messages_lem cutoff db v d =
    let (t, db', ran, kept, none_left, exact, total) =
      drain_lem (λ (x : Database). select_ids cutoff x.raw_messages) raw_batch (RawKept cutoff db)
        (raw_left cutoff) (raw_step cutoff db) (λ x. select_ids-nil cutoff x.raw_messages)
        (suc (length db.raw_messages)) empty_tally db
        (omega (arith, count_rows-le_length (expired cutoff) db.raw_messages))
        (record {
          intact = v;
          distinct = d;
          raw_messages = refl;
          items = refl;
          clusters = refl;
          members = refl;
          ingest_errors = refl;
        })
        empty_tally-IsTally in
    (
      t,
      db',
      ran,
      kept,
      sym (keep_all (expired cutoff) db'.raw_messages none_left) ∙ kept.raw_messages,
      exact,
      omega arith,
    )
