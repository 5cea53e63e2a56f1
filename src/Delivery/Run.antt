-- ===== src/Delivery/Run.antt =====
-- What one delivery run does.
use mathlib.Core.List.{append-nil, append_assoc}
use mathlib.Core.Path.{subst}
use tca.Base.{
  ℕ, suc, ◌<◌, ◌≡◌, refl, sym, ap, ◌∙◌, ◌⊎◌, inl, inr, Bool, true, false, not, ◌&&◌, ◌||◌, some,
  List, [], ◌∷◌, ◌++◌, map, arith, ◌==◌, leb, Bool-cases, keep, exists_row, exists_row-append,
  exists_row_single, member, All,
}
use tca.Base.Int.{ℤ}
use tca.Store.{Cluster, Delivery, Database, has_cluster, next_id}
use tca.Delivery.{
  Sending, sent, token_invalid, failed, Bot, get_count, pop_count, has_been_delivered,
  record_delivery, add_delivery, list_undelivered_entries, count_failure, disable, delivered,
  deliver, put_first, run_once,
}
use tca.Delivery.Entries.{AreFresh, list_undelivered_entries-AreFresh}
use tca.Store.Unique.{IsUnique}

abbrev pub is_sent : Sending → Bool
is_sent sent = true
is_sent token_invalid = false
is_sent failed = false

-- The entries before the one at which the token is refused.
unfoldable pub before_invalid : (ℕ → Sending) → List ℕ → List ℕ
before_invalid send [] = []
before_invalid send (c ∷ cs) = elim (send c) [
  | token_invalid ↦ []
  | failed ↦ c ∷ before_invalid send cs
  | sent ↦ c ∷ before_invalid send cs
]

abbrev pub refused : Sending → Bool
refused sent = false
refused token_invalid = true
refused failed = false

abbrev pub delivered_ids : Database → List ℕ
delivered_ids db = map (λ (r : Delivery). r.cluster_id) db.deliveries

-- No cluster has failed three times in a row unreported.
abbrev pub AreLow : List (ℕ × ℕ) → Type 0
AreLow m = All (λ (e : ℕ × ℕ). e.1 < 3) m

-- A run over the clusters `cs`: what it reports and records, and what it leaves.
pub record Delivered (send : ℕ → Sending) (cs : List ℕ) (b : Bot) (o : List ℕ × Bot) : Type 0 where
  pub reported : o.0 ≡ keep (λ c. is_sent (send c)) (before_invalid send cs)
  pub recorded : delivered_ids o.1.db ≡ delivered_ids b.db ++ o.0
  pub enabled : o.1.enabled ≡ (b.enabled && not (exists_row (λ c. refused (send c)) cs))
  pub low : AreLow o.1.consecutive_failures

-- What `record_delivery` leaves of a cluster that is there and not delivered.
record Recorded (c : ℕ) (db : Database) : Type 0 where
  db' : Database
  written : record_delivery c db ≡ some db'
  ids : delivered_ids db' ≡ delivered_ids db ++ c ∷ []
  others : (d : ℕ) → has_been_delivered d db' ≡ (has_been_delivered d db || d == c)
  same_clusters : (d : ℕ) → has_cluster d db' ≡ has_cluster d db

map_append_one :
    (rows : List Delivery) (r : Delivery)
    → map (λ (x : Delivery). x.cluster_id) (rows ++ r ∷ [])
      ≡ map (λ (x : Delivery). x.cluster_id) rows ++ r.cluster_id ∷ []
map_append_one [] r = refl
map_append_one (x ∷ xs) r = ap (λ l. x.cluster_id ∷ l) (map_append_one xs r)

record_delivery-fresh :
    (c : ℕ) (db : Database)
    → has_been_delivered c db ≡ false
    → has_cluster c db ≡ true
    → Recorded c db
unfolding record_delivery
record_delivery-fresh c db h k = record {
  db' = add_delivery c db;
  written = rw (h, k) refl;
  ids = map_append_one db.deliveries row;
  others = λ d.
      exists_row-append (λ (r : Delivery). d == r.cluster_id) db.deliveries (row ∷ [])
      ∙ ap (λ b. has_been_delivered d db || b)
          (exists_row_single (λ (r : Delivery). d == r.cluster_id) row);
  same_clusters = λ d. refl;
}
  where
    row : Delivery
    row = record { id = next_id (map (λ (r : Delivery). r.id) db.deliveries); cluster_id = c }

AreFresh-Recorded :
    (c : ℕ) (db : Database) (r : Recorded c db) (cs : List ℕ)
    → member c cs ≡ false
    → AreFresh cs db
    → AreFresh cs r.db'
unfolding member
AreFresh-Recorded c db r [] m f = tt
AreFresh-Recorded c db r (d ∷ ds) m f = (
  ground (arith, r.others d, f.0),
  r.same_clusters d ∙ f.1,
  f.2,
  AreFresh-Recorded c db r ds (ground arith) f.3,
)

AreLow-pop : (c : ℕ) (m : List (ℕ × ℕ)) → AreLow m → AreLow (pop_count c m)
unfolding keep
AreLow-pop c [] h = tt
AreLow-pop c (e ∷ m) h = elim (Bool-cases (c == e.0)) [
  | inl same ↦ rw same (AreLow-pop c m h.1)
  | inr other ↦ rw other (h.0, AreLow-pop c m h.1)
]

AreLow-count_failure :
    (c : ℕ) (b : Bot)
    → AreLow b.consecutive_failures
    → AreLow (count_failure c b).consecutive_failures
unfolding count_failure
AreLow-count_failure c b h = elim (Bool-cases (leb 3 (suc (get_count c b.consecutive_failures)))) [
  | inl third ↦ rw third (omega arith, AreLow-pop c b.consecutive_failures h)
  | inr early ↦ rw early (ground arith, AreLow-pop c b.consecutive_failures h)
]

count_failure-same :
    (c : ℕ) (b : Bot) → ((count_failure c b).db ≡ b.db) × ((count_failure c b).enabled ≡ b.enabled)
unfolding count_failure
count_failure-same c b = elim (Bool-cases (leb 3 (suc (get_count c b.consecutive_failures)))) [
  | inl third ↦ rw third (refl, refl)
  | inr early ↦ rw early (refl, refl)
]

Sending-cases : (s : Sending) → (s ≡ sent) ⊎ ((s ≡ token_invalid) ⊎ (s ≡ failed))
Sending-cases sent = inl refl
Sending-cases token_invalid = inr (inl refl)
Sending-cases failed = inr (inr refl)

module _ (send : ℕ → Sending) (c : ℕ) (cs : List ℕ) (b : Bot) where
  after_failed :
      send c ≡ failed
      → Delivered send cs (count_failure c b) (deliver send cs (count_failure c b))
      → Delivered send (c ∷ cs) b (deliver send cs (count_failure c b))
  unfolding before_invalid keep exists_row
  after_failed e d =
      let (same_db, same_enabled) = count_failure-same c b in
      record {
        reported = rw (keep, before_invalid, e) (rw e d.reported);
        recorded =
            d.recorded
            ∙ ap (λ db. delivered_ids db ++ (deliver send cs (count_failure c b)).0) same_db;
        enabled =
            rw e
              (d.enabled ∙ ap (λ x. x && not (exists_row (λ k. refused (send k)) cs)) same_enabled);
        low = d.low;
      }

  after_invalid :
      send c ≡ token_invalid
      → AreLow b.consecutive_failures
      → Delivered send (c ∷ cs) b ([], disable b)
  unfolding before_invalid keep exists_row
  after_invalid e h = record {
    reported = rw (keep, before_invalid, e) refl;
    recorded = sym (append-nil (delivered_ids b.db));
    enabled = rw e (ground arith);
    low = h;
  }

  after_sent :
      (r : Recorded c b.db)
      → send c ≡ sent
      → Delivered send cs (delivered c b r.db') (deliver send cs (delivered c b r.db'))
      → Delivered send (c ∷ cs) b (put_first c (deliver send cs (delivered c b r.db')))
  unfolding before_invalid keep exists_row
  after_sent r e d = record {
    reported = rw (keep, before_invalid, e) (rw e (ap (λ xs. c ∷ xs) d.reported));
    recorded =
        d.recorded
        ∙ ap (λ xs. xs ++ (deliver send cs (delivered c b r.db')).0) r.ids
        ∙ append_assoc (delivered_ids b.db) (c ∷ []) _;
    enabled = rw e d.enabled;
    low = d.low;
  }

deliver_lem :
    (send : ℕ → Sending) (cs : List ℕ) (b : Bot)
    → AreFresh cs b.db
    → AreLow b.consecutive_failures
    → Delivered send cs b (deliver send cs b)
unfolding deliver before_invalid keep exists_row
deliver_lem send [] b f h = record {
  reported = refl;
  recorded = sym (append-nil (delivered_ids b.db));
  enabled = ground arith;
  low = h;
}
deliver_lem send (c ∷ cs) b f h = elim (Sending-cases (send c)) [
  | inl e ↦
      let r = record_delivery-fresh c b.db f.0 f.1 in
      rw (deliver, e, r.written)
        (after_sent send c cs b r e (
          deliver_lem send cs (delivered c b r.db') (AreFresh-Recorded c b.db r cs f.2 f.3)
            (AreLow-pop c b.consecutive_failures h)))
  | inr (inl e) ↦ rw (deliver, e) (after_invalid send c cs b e h)
  | inr (inr e) ↦
      rw (deliver, e)
        (after_failed send c cs b e (
          deliver_lem send cs (count_failure c b)
            (subst (AreFresh cs) (sym (count_failure-same c b).0) f.3)
            (AreLow-count_failure c b h)))
]

run_once-enabled :
    (batch_size : ℤ) (send : ℕ → Sending) (b : Bot)
    → b.enabled ≡ true
    → run_once true batch_size send b ≡ deliver send (list_undelivered_entries batch_size b.db) b
unfolding run_once
run_once-enabled batch_size send b on = simp (run_once, on)

-- A run of an enabled and configured bot, on clusters with distinct keys and failure counts below
-- 3, returns, and records in this order, exactly the listed clusters whose message went out
-- before the token was refused; delivery stays enabled unless the token was refused at a listed
-- cluster; and the counts are below 3 again.
pub deliver_run :
    (batch_size : ℤ) (send : ℕ → Sending) (b : Bot)
    → IsUnique (map (λ (r : Cluster). r.id) b.db.clusters)
    → AreLow b.consecutive_failures
    → b.enabled ≡ true
    → Delivered send (list_undelivered_entries batch_size b.db) b (run_once true batch_size send b)
deliver_run batch_size send b u h on = rw (run_once-enabled batch_size send b on) (
    deliver_lem send (list_undelivered_entries batch_size b.db) b
      (list_undelivered_entries-AreFresh batch_size b.db u) h)
