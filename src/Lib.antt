-- ===== src/Lib.antt =====
-- TCA, a Telegram channel aggregator: what its core computes, and the theorems that make it
-- correct.
--
-- The program polls Telegram channels into a SQLite database, groups duplicate posts into
-- clusters, delivers new clusters through a bot, and prunes old rows. Its modules meet in the
-- tables: ingest writes raw messages, a chain of strategies decides whether two items are
-- duplicates, the cluster repository assigns and merges, the delivery loop reads clusters and
-- records what it sent, and the retention job deletes across all of them. The key rotation keeps
-- its own row beside the accounts.
--
-- Base: numbers, Booleans, lists, tables as lists of rows (Base/Rows: WHERE, EXISTS, COUNT),
-- sorting, least elements, texts as code points. Integers are natural numbers where the program's
-- are keys, counts and microseconds, and Base/Int's where a setting or a result can be negative.
--
-- Store: the tables of alembic/versions 5f8b0d1e2a44, 9c2a8f6d0f7b and 4b080ca28e36 as a record
-- of lists, in the order of their keys' insertion; what a DELETE does to the rows that refer to
-- it; the rank query that chooses a cluster's representative (Store/Rank), which
-- tca/storage/dedupe_clusters_repo.py and tca/ops/prune_job.py share word for word; and when a
-- database is intact (Store/Integrity).
--
-- Clusters: tca/storage/dedupe_clusters_repo.py. assign_item_to_cluster and merge_clusters are
-- functions from a database to a result and a database; an error gives back the database of the
-- transaction's begin.
--
-- Retention and Prune: tca/ops/prune_job.py, the resolution of its settings and its transaction.
-- The two batch loops are recursion on fuel (`drain`), one more than the rows of the table, which
-- is enough since every round deletes a row. Stored timestamps are numbers in their collating
-- order; `stored` is the place of the text that the driver binds for a cutoff, and is any
-- function. Cutoffs are microseconds from the year 1.
--
-- Dedupe: tca/dedupe/strategy_contract.py, strategy_chain.py and exact_url_strategy.py. A
-- strategy is its name and what calling it does. Floats are a record of what the contract asks of
-- them.
--
-- Ingest: fetch_bounded_messages of tca/ingest/service.py. Telegram's client is a parameter, a
-- function of the number of the call, the limit and the offset; the hypotheses on it are that it
-- keeps the limit and pages backwards. The loop is recursion on the pages that are left.
--
-- Delivery: run_once of tca/bot/delivery.py with the statements of
-- tca/storage/bot_deliveries_repo.py. Formatting and sending a message is one outcome for each
-- cluster.
--
-- KeyRotation: tca/auth/key_rotation.py. An operation takes the state that it read as an
-- argument. KeyRotation/Resume has the loop of a client, which the program leaves to its callers;
-- its fuel is enough when it is more than the pending accounts.
--
-- Scheduler: one tick of tca/scheduler/service.py with the queries that it uses. Times are
-- microseconds; a jitter draw is its distance from the low end of its range, so that no number is
-- negative.
--
-- AccountRisk: tca/ingest/account_risk.py with tca/storage/account_pause_repo.py. A breach is one
-- job of the writer queue, so it is one step.
--
-- FloodWait: tca/ingest/flood_wait.py, on the tables of Scheduler and the state of AccountRisk.
--
-- Catalog, Channels, Groups and Api: tca/storage/channels_repo.py and channel_groups_repo.py on
-- explicit tables, the handlers of tca/api/routes/channels.py and channel_groups.py as functions
-- from the tables to an answer and the tables, and the purge of a channel on the tables of Store,
-- with the two columns channel_id as functions of the rows' keys. A request is a function on the
-- archive of Channels/Purge, the catalog with these tables; only a purge changes more than the
-- catalog. Api/Plan is the abstract view that the handlers refine.
--
-- Settings: tca/storage/settings_repo.py. The type of values and the text of a value are
-- parameters.
--
-- Secrets, AuthSessions, Vault and Login: the login. Secrets has the unlock state of
-- tca/auth/unlock_modes.py, the bootstrap token of tca/auth/bootstrap_token.py and the check of
-- tca/api/bearer_auth.py; AuthSessions is tca/auth/auth_session_state.py, with times in seconds;
-- Vault is tca/auth/account_storage.py, session_storage.py and key_material.py, with encryption,
-- decryption and key derivation as parameters, of which some theorems ask that decryption opens
-- what was encrypted under the same key; Login and Login/Verify are
-- tca/api/routes/telegram_auth.py, whose handlers take what Telegram answers as an argument, and
-- the times of their reads and writes. A verification reads the session, awaits Telegram and then
-- writes: it takes the sessions as it read them and the state at its writes, which other requests
-- may have changed in between. Login/Progress is about requests that run one at a time.
--
-- Writer: tca/storage/writer_queue.py as steps of callers and of the worker (Writer/Runs).
-- run_worker runs the loop on fuel, two rounds for each entry and one for a running job, which is
-- enough after close.
--
-- Candidates: tca/dedupe/candidate_selection.py, with the LIKE of SQLite on texts as code points;
-- urlsplit is a parameter that gives no value where it raises an error. Candidates/Like says what
-- a pattern means, and Candidates/Wanted which items are wanted, apart from how the query is put
-- together.
--
-- Not modelled: the other HTTP routes and the UI, the Telegram and bot clients, cryptography, the
-- resolution of the configuration, normalisation, the similarity strategies, and the stored
-- decisions. Database errors other than foreign keys and unique constraints, and failures of the
-- disk, are not modelled. Row decoding (_coerce_int and the like) always succeeds on the columns'
-- declared types.
pub mod Base
pub mod Store
pub mod Clusters
pub mod Retention
pub mod Prune
pub mod Dedupe
pub mod Ingest
pub mod Delivery
pub mod KeyRotation
pub mod Scheduler
pub mod AccountRisk
pub mod FloodWait
pub mod Catalog
pub mod Channels
pub mod Groups
pub mod Api
pub mod Settings
pub mod Secrets
pub mod AuthSessions
pub mod Vault
pub mod Login
pub mod Writer
pub mod Candidates
