-- ===== src/Prune/Tests.antt =====
-- Runs of the retention job on a small database, and the theorems at it.
use tca.Base.{ℕ, ◌<◌, ◌≡◌, refl, none, some, [], ◌∷◌, arith, exists_row, map}
use tca.Base.Int.{pos, negsuc}
use tca.Store.{Item, Stamped, Database}
use tca.Store.Integrity.{IsIntact}
use tca.Retention.{integer, float, StoredSettings, resolve_settings}
use tca.Retention.Days.{resolve_settings_pos}
use tca.Prune.{stamp, prune, PruneJobRunSummary}
use tca.Prune.Batch.{IsDistinct}
use tca.Prune.Run.{Pruned, prune_lem}

abbrev aged : ℕ → ℕ → Item
aged i at = record {
  id = i;
  raw_message_id = none;
  published_at = some at;
  title = some (65 ∷ []);
  body = none;
  canonical_url = none;
  created_at = at;
}

abbrev at : ℕ → ℕ → Stamped
at i t = record { id = i; created_at = t }

-- Cluster 1 loses its representative, cluster 2 its only member.
abbrev library : Database
library = record {
  items = aged 1 5 ∷ aged 2 30 ∷ aged 3 6 ∷ [];
  clusters =
      record { id = 1; representative_item_id = some 1 }
      ∷ record { id = 2; representative_item_id = some 3 }
      ∷ [];
  members =
      record { cluster_id = 1; item_id = 1 }
      ∷ record { cluster_id = 1; item_id = 2 }
      ∷ record { cluster_id = 2; item_id = 3 }
      ∷ [];
  decisions = [];
  raw_messages = at 1 3 ∷ at 2 40 ∷ [];
  ingest_errors = at 1 8 ∷ at 2 9 ∷ [];
  deliveries = [];
}

library-IsIntact : IsIntact library
unfolding exists_row
library-IsIntact = record {
  member_cluster = λ c i h. ground arith;
  member_item = λ c i h. ground arith;
  representative_member = λ c i h. ground arith;
  decision_item = λ i h. cc;
  decision_cluster = λ c h. cc;
  decision_candidate = λ i h. cc;
  delivery_cluster = λ c h. cc;
  item_raw_message = λ k h. ground arith;
}

raw_messages-IsDistinct : IsDistinct library.raw_messages
unfolding exists_row
raw_messages-IsDistinct = ((refl, tt), (tt, tt))

items-IsDistinct : IsDistinct (map stamp library.items)
unfolding exists_row
items-IsDistinct = ((refl, (refl, tt)), ((refl, tt), (tt, tt)))

abbrev settings : StoredSettings
settings = record {
  raw_messages = some (integer (pos 10));
  items = none;
  ingest_errors = some (float (some (negsuc 2)));
}

prune_lem_example :
    (s : PruneJobRunSummary) × (db' : Database) × (prune 10 10 9 library ≡ some (s, db'))
    × Pruned 10 10 9 library s db'
prune_lem_example =
    prune_lem 10 10 9 library library-IsIntact raw_messages-IsDistinct items-IsDistinct

resolve_settings_pos_example :
    (0 < (resolve_settings settings).raw_messages_days)
    × (0 < (resolve_settings settings).ingest_errors_days)
resolve_settings_pos_example = resolve_settings_pos settings

abbrev now : ℕ
now = 40000000000000000
