-- ===== src/Delivery/Tests.antt =====
-- A delivery run over four clusters, and the theorem at it.
use tca.Base.{
  ℕ, zero, suc, ◌≡◌, refl, true, none, some, [], ◌∷◌, map, keep, exists_row, member, arith,
}
use tca.Base.Int.{pos, negsuc}
use tca.Store.{Item, Cluster, Database}
use tca.Delivery.{Sending, sent, token_invalid, failed, Bot, list_undelivered_entries, run_once}
use tca.Store.Unique.{IsUnique}
use tca.Delivery.Run.{Delivered, deliver_run}

abbrev item : Item
item = record {
  id = 7;
  raw_message_id = none;
  published_at = none;
  title = none;
  body = none;
  canonical_url = none;
  created_at = 0;
}

abbrev row : ℕ → Cluster
row c = record { id = c; representative_item_id = some 7 }

abbrev tables : Database
tables = record {
  items = item ∷ [];
  clusters = row 4 ∷ row 2 ∷ row 1 ∷ row 3 ∷ [];
  members = [];
  decisions = [];
  raw_messages = [];
  ingest_errors = [];
  deliveries = record { id = 1; cluster_id = 1 } ∷ [];
}

-- The token is refused at cluster 4; cluster 3 fails.
abbrev send : ℕ → Sending
send (suc (suc (suc zero))) = failed
send (suc (suc (suc (suc zero)))) = token_invalid
send _ = sent

abbrev bot : Bot
bot = record { enabled = true; consecutive_failures = (3, 1) ∷ []; notifications = []; db = tables }

cluster_ids-IsUnique : IsUnique (map (λ (r : Cluster). r.id) tables.clusters)
unfolding member
cluster_ids-IsUnique = (refl, (refl, (refl, (refl, tt))))

deliver_run_example :
    Delivered send (list_undelivered_entries (pos 10) tables) bot (run_once true (pos 10) send bot)
deliver_run_example = deliver_run (pos 10) send bot cluster_ids-IsUnique (omega arith, tt) refl

delivery_run : (run_once true (pos 10) send bot).0 ≡ 2 ∷ []
unfolding run_once keep member
delivery_run = refl

no_limit : list_undelivered_entries (negsuc 0) tables ≡ 2 ∷ 3 ∷ 4 ∷ []
unfolding list_undelivered_entries exists_row
no_limit = refl
