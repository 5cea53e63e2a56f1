-- ===== src/Writer.antt =====
-- tca/storage/writer_queue.py: write jobs run one at a time by a worker task. An operation is a function on
-- the database; a cancellation of the worker's own task is not modelled.
pub mod Runs
pub mod Serial
pub mod Orderly
pub mod Closing
mod Tests
use Prim.Native.String.{String}
use tca.Base.{
  ℕ, zero, suc, ◌*◌, Bool, true, false, ◌||◌, Option, none, some, List, [], ◌∷◌, ◌++◌, map, ◌==◌,
  if◌then◌else◌, member, length,
}

-- How an operation ends: with a result, with an exception that is passed on to the caller, or with
-- KeyboardInterrupt or SystemExit.
pub data Ending (R : Type 0) : Type 0 where
  returned : R → Ending R
  raised : String → Ending R
  exits : Ending R

-- `_QueuedWriteJob`, with the number of its future.
pub record QueuedWriteJob (D : Type 0) (R : Type 0) : Type 0 where
  pub completion : ℕ
  pub operation : D → Ending R × D

-- What stands in the queue: a job, or the None of `close`.
pub data Entry (D : Type 0) (R : Type 0) : Type 0 where
  queued : QueuedWriteJob D R → Entry D R
  stop : Entry D R

-- The worker's task: not created, at `queue.get`, at a job, or done.
pub data Worker (D : Type 0) (R : Type 0) : Type 0 where
  no_worker waiting ended : Worker D R
  running : QueuedWriteJob D R → Worker D R

-- What a future is set to.
pub data Completion (R : Type 0) : Type 0 where
  result : R → Completion R
  exception : String → Completion R
  writer_queue_closed : Completion R

-- A job that is done with: whether it ran, and what its future was set to, `none` when it was cancelled.
pub record Settled (D : Type 0) (R : Type 0) : Type 0 where
  pub job : QueuedWriteJob D R
  pub ran : Bool
  pub answer : Option (Completion R)

-- `WriterQueue`, with the database, the cancelled futures and the jobs that are done with, in the order in
-- which they came to that.
pub record WriterQueue (D : Type 0) (R : Type 0) : Type 0 where
  pub queue : List (Entry D R)
  pub worker : Worker D R
  pub closed : Bool
  pub db : D
  pub cancelled : List ℕ
  pub settled : List (Settled D R)

module _ {D : Type 0} {R : Type 0} where
  abbrev pub new_queue : D → WriterQueue D R
  new_queue d = record {
    queue = [];
    worker = no_worker;
    closed = false;
    db = d;
    cancelled = [];
    settled = [];
  }

  -- `_ensure_worker_locked`.
  abbrev pub ensure_worker : Worker D R → Worker D R
  ensure_worker no_worker = waiting
  ensure_worker ended = waiting
  ensure_worker waiting = waiting
  ensure_worker (running j) = running j

  -- `submit`, up to its wait: whether the job is taken, else WriterQueueClosedError.
  unfoldable pub submit : QueuedWriteJob D R → WriterQueue D R → Bool × WriterQueue D R
  submit j q =
      if q.closed
      then (false, q)
      else (true, record q { queue = q.queue ++ queued j ∷ []; worker = ensure_worker q.worker })

  abbrev pub stop_for : Worker D R → List (Entry D R)
  stop_for no_worker = []
  stop_for waiting = stop ∷ []
  stop_for ended = stop ∷ []
  stop_for (running j) = stop ∷ []

  -- `close`, up to its wait for the worker.
  unfoldable pub close : WriterQueue D R → WriterQueue D R
  close q = if q.closed then q else record q { closed = true; queue = q.queue ++ stop_for q.worker }

  -- A caller that is cancelled cancels its future, and the job stays in the queue.
  abbrev pub cancel : ℕ → WriterQueue D R → WriterQueue D R
  cancel i q = record q { cancelled = i ∷ q.cancelled }

  -- `if completion.cancelled(): return`, before a future is set.
  unfoldable pub settle : Bool → Completion R → List ℕ → QueuedWriteJob D R → Settled D R
  unfolding member
  settle ran a is j = record {
    job = j;
    ran = ran;
    answer = if member j.completion is then none else some a;
  }

  -- The jobs in the queue, in its order.
  unfoldable pub jobs_of : List (Entry D R) → List (QueuedWriteJob D R)
  jobs_of [] = []
  jobs_of (queued j ∷ es) = j ∷ jobs_of es
  jobs_of (stop ∷ es) = jobs_of es

  -- The end of the worker, in the `finally` of `_run_worker`: what is left in the queue is rejected.
  unfoldable pub end_worker : WriterQueue D R → WriterQueue D R
  unfolding jobs_of settle
  end_worker q = record q {
    worker = ended;
    queue = [];
    settled = q.settled ++ map (settle false writer_queue_closed q.cancelled) (jobs_of q.queue);
  }

  -- A round of `_run_worker` after `queue.get`, with the rest of the queue.
  abbrev pub get_entry : Entry D R → WriterQueue D R → WriterQueue D R
  get_entry (queued j) q = record q { worker = running j }
  get_entry stop q = end_worker q

  abbrev pub after_job : QueuedWriteJob D R → Ending R → WriterQueue D R → WriterQueue D R
  after_job j (returned r) q = record q {
    worker = waiting;
    settled = q.settled ++ settle true (result r) q.cancelled j ∷ [];
  }
  after_job j (raised e) q = record q {
    worker = waiting;
    settled = q.settled ++ settle true (exception e) q.cancelled j ∷ [];
  }
  after_job j exits q =
      end_worker
        (record q { settled = q.settled ++ settle true writer_queue_closed q.cancelled j ∷ [] })

  -- `_execute_queued_job`, and what the worker does after it.
  unfoldable pub execute_queued_job : QueuedWriteJob D R → WriterQueue D R → WriterQueue D R
  unfolding settle end_worker
  execute_queued_job j q = let (e, d) = j.operation q.db in after_job j e (record q { db = d })

  abbrev pub next_entry : List (Entry D R) → WriterQueue D R → Option (WriterQueue D R)
  next_entry [] q = none
  next_entry (e ∷ es) q = some (get_entry e (record q { queue = es }))

  -- The worker's next round; `none` when it waits for an entry, or does not run.
  abbrev pub worker_round : Worker D R → WriterQueue D R → Option (WriterQueue D R)
  worker_round no_worker q = none
  worker_round ended q = none
  worker_round waiting q = next_entry q.queue q
  worker_round (running j) q = some (execute_queued_job j q)

  -- The loop of `_run_worker`, for at most as many rounds as the first argument.
  unfoldable pub run_worker : ℕ → WriterQueue D R → WriterQueue D R
  unfolding execute_queued_job end_worker
  run_worker zero q = q
  run_worker (suc n) q = elim (worker_round q.worker q) [ none ↦ q | some q' ↦ run_worker n q' ]

  -- The rounds that are left when nothing is added.
  abbrev pub rounds_of : Worker D R → List (Entry D R) → ℕ
  rounds_of no_worker es = 2 * length es
  rounds_of waiting es = 2 * length es
  rounds_of ended es = 2 * length es
  rounds_of (running j) es = suc (2 * length es)

  abbrev pub rounds_left : WriterQueue D R → ℕ
  rounds_left q = rounds_of q.worker q.queue
