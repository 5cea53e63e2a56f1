-- ===== src/Delivery.antt =====
-- tca/bot/delivery.py: one run of the delivery loop, with the two statements of
-- tca/storage/bot_deliveries_repo.py that it uses.
pub mod Entries
pub mod Run
mod Tests
use tca.Base.{
  ℕ, zero, suc, ◌+◌, Bool, true, false, not, ◌&&◌, ◌||◌, Option, none, some, List, [], ◌∷◌, ◌++◌,
  map, ◌==◌, ltb, leb, if◌then◌else◌, keep, exists_row, take, member,
}
use tca.Base.Sort.{sort}
use tca.Base.Int.{ℤ, pos, negsuc}
use tca.Store.{Cluster, Delivery, Database, has_item, has_cluster, next_id}

-- What formatting and sending the message of a cluster does: the message goes out, the token is
-- refused (BotTokenInvalidError), or there is another exception.
pub data Sending : Type 0 where
  sent token_invalid failed : Sending

pub data Notification : Type 0 where
  bot_token_invalid : Notification
  bot_delivery_failed : ℕ → Notification

-- `_consecutive_failures`, the setting `bot.enabled`, the notifications and the tables.
pub record Bot : Type 0 where
  pub enabled : Bool
  pub consecutive_failures : List (ℕ × ℕ)
  pub notifications : List Notification
  pub db : Database

-- dict.get(c, 0), dict.pop(c, None) and the assignment.
unfoldable pub get_count : ℕ → List (ℕ × ℕ) → ℕ
get_count c [] = 0
get_count c ((k, n) ∷ m) = if c == k then n else get_count c m

abbrev pub pop_count : ℕ → List (ℕ × ℕ) → List (ℕ × ℕ)
pop_count c m = keep (λ (e : ℕ × ℕ). not (c == e.0)) m

abbrev pub set_count : ℕ → ℕ → List (ℕ × ℕ) → List (ℕ × ℕ)
set_count c n m = (c, n) ∷ pop_count c m

abbrev pub has_been_delivered : ℕ → Database → Bool
has_been_delivered c db = exists_row (λ (r : Delivery). c == r.cluster_id) db.deliveries

abbrev pub add_delivery : ℕ → Database → Database
add_delivery c db = record db {
  deliveries =
      db.deliveries
      ++ record { id = next_id (map (λ (r : Delivery). r.id) db.deliveries); cluster_id = c } ∷ [];
}

-- `record_delivery`: a cluster is delivered once, and must exist; else an exception.
unfoldable pub record_delivery : ℕ → Database → Option Database
unfolding exists_row next_id
record_delivery c db =
    if has_been_delivered c db || not (has_cluster c db) then none else some (add_delivery c db)

abbrev pub has_representative : Database → Option ℕ → Bool
has_representative db none = false
has_representative db (some i) = has_item i db

abbrev pub is_undelivered : Database → Cluster → Bool
is_undelivered db r =
    has_representative db r.representative_item_id && not (has_been_delivered r.id db)

-- LIMIT; a negative one is no limit.
abbrev pub limited : ℤ → List ℕ → List ℕ
limited (pos n) ids = take n ids
limited (negsuc n) ids = ids

-- The clusters that `list_undelivered_entries` lists. Each item has its channel, so the join with
-- the channels drops no row.
unfoldable pub list_undelivered_entries : ℤ → Database → List ℕ
unfolding sort keep
list_undelivered_entries limit db =
    limited limit (sort (map (λ (r : Cluster). r.id) (keep (is_undelivered db) db.clusters)))

-- `except Exception`: the third failure in a row is reported, and counting starts again.
unfoldable pub count_failure : ℕ → Bot → Bot
unfolding get_count keep
count_failure c b =
    let fail_count = suc (get_count c b.consecutive_failures) in
    if leb 3 fail_count
    then record b {
      notifications = b.notifications ++ bot_delivery_failed c ∷ [];
      consecutive_failures = set_count c 0 b.consecutive_failures;
    }
    else record b { consecutive_failures = set_count c fail_count b.consecutive_failures }

-- `except BotTokenInvalidError`.
abbrev pub disable : Bot → Bot
disable b = record b { enabled = false; notifications = b.notifications ++ bot_token_invalid ∷ [] }

abbrev pub delivered : ℕ → Bot → Database → Bot
delivered c b db = record b { db = db; consecutive_failures = pop_count c b.consecutive_failures }

abbrev pub put_first : ℕ → List ℕ × Bot → List ℕ × Bot
put_first c (cs, b) = (c ∷ cs, b)

-- The loop over the entries: the clusters recorded as delivered, and what is left.
unfoldable pub deliver : (ℕ → Sending) → List ℕ → Bot → List ℕ × Bot
unfolding record_delivery count_failure
deliver send [] b = ([], b)
deliver send (c ∷ cs) b = elim (send c) [
  | token_invalid ↦ ([], disable b)
  | failed ↦ deliver send cs (count_failure c b)
  | sent ↦ elim (record_delivery c b.db) [
    | none ↦ deliver send cs (count_failure c b)
    | some db ↦ put_first c (deliver send cs (delivered c b db))
  ]
]

-- `run_once`, with whether a token and a chat are set, and the batch size.
unfoldable pub run_once : Bool → ℤ → (ℕ → Sending) → Bot → List ℕ × Bot
unfolding deliver list_undelivered_entries
run_once configured batch_size send b =
    if not b.enabled || not configured
    then ([], b)
    else deliver send (list_undelivered_entries batch_size b.db) b
