-- ===== src/Writer/Serial.antt =====
-- Serialization: the database and the answers are those of the jobs run one after another.
use mathlib.Core.List.{append-nil, append_assoc}
use mathlib.Core.Path.{subst}
use tca.Base.{
  ℕ, ◌≡◌, refl, sym, ◌⊎◌, inl, inr, Bool, true, false, none, some, some_inj, List, [], ◌∷◌, ◌++◌,
  map, arith, Bool-cases, member,
}
use tca.Writer.{
  QueuedWriteJob, Entry, queued, stop, Worker, no_worker, waiting, ended, running, Ending, returned,
  raised, exits, Completion, result, exception, writer_queue_closed, Settled, WriterQueue, submit,
  close, settle, jobs_of, end_worker, after_job, execute_queued_job, worker_round, next_entry,
}
use tca.Writer.Runs.{
  Step, refuses, closes, cancels, works, Run, begins, submits, goes_on, in_hand, settled_jobs,
  Run-all_jobs,
}

module _ {R : Type 0} where
  -- What the caller of an operation gets to know.
  abbrev pub completion_of : Ending R → Completion R
  completion_of (returned r) = result r
  completion_of (raised e) = exception e
  completion_of exits = writer_queue_closed

module _ {D : Type 0} {R : Type 0} where
  -- A job's answer is this one, unless its future was cancelled.
  abbrev pub IsAnswered : List ℕ → Completion R → Settled D R → Type 0
  IsAnswered cancelled a s =
      (s.answer ≡ some a) ⊎ ((s.answer ≡ none) × (member s.job.completion cancelled ≡ true))

  settle-IsAnswered :
      (ran : Bool) (a : Completion R) (c : List ℕ) (j : QueuedWriteJob D R)
      → IsAnswered c a (settle ran a c j)
  unfolding settle
  settle-IsAnswered ran a c j = elim (Bool-cases (member j.completion c)) [
    | inl e ↦ inr (rw e refl, e)
    | inr e ↦ inl (rw e refl)
  ]

  cancel-IsAnswered :
      (i : ℕ) (c : List ℕ) (a : Completion R) (s : Settled D R)
      → IsAnswered c a s
      → IsAnswered (i ∷ c) a s
  unfolding member
  cancel-IsAnswered i c a s (inl h) = inl h
  cancel-IsAnswered i c a s (inr (h, m)) = inr (h, ground arith)

-- From one database to another: jobs that run, each on what the one before left, and are answered with how they
-- end, and jobs that do not run, and are answered with WriterQueueClosedError.
pub data IsSerial {D : Type 0} {R : Type 0} (cancelled : List ℕ) (d : D)
    : List (Settled D R) → D → Type 0 where
  nothing : IsSerial cancelled d [] d
  runs :
      {xs : List (Settled D R)} {d' : D} (s : Settled D R)
      → IsSerial cancelled d xs d'
      → s.ran ≡ true
      → IsAnswered cancelled (completion_of (s.job.operation d').0) s
      → IsSerial cancelled d (xs ++ s ∷ []) (s.job.operation d').1
  rejects :
      {xs : List (Settled D R)} {d' : D} (s : Settled D R)
      → IsSerial cancelled d xs d'
      → s.ran ≡ false
      → IsAnswered cancelled writer_queue_closed s
      → IsSerial cancelled d (xs ++ s ∷ []) d'

module _ {D : Type 0} {R : Type 0} (d : D) where
  abbrev Serial : WriterQueue D R → Type 0
  Serial q = IsSerial q.cancelled d q.settled q.db

  cancel-IsSerial :
      (i : ℕ) (c : List ℕ) {xs : List (Settled D R)} {d' : D}
      → IsSerial c d xs d'
      → IsSerial (i ∷ c) d xs d'
  cancel-IsSerial i c nothing = nothing
  cancel-IsSerial i c (runs s r h a) =
      runs s (cancel-IsSerial i c r) h (cancel-IsAnswered i c _ s a)
  cancel-IsSerial i c (rejects s r h a) =
      rejects s (cancel-IsSerial i c r) h (cancel-IsAnswered i c _ s a)

  reject-IsSerial :
      (c : List ℕ) (xs : List (Settled D R)) (d' : D) (js : List (QueuedWriteJob D R))
      → IsSerial c d xs d'
      → IsSerial c d (xs ++ map (settle false writer_queue_closed c) js) d'
  unfolding settle
  reject-IsSerial c xs d' [] r = rw (append-nil xs) r
  reject-IsSerial c xs d' (j ∷ js) r =
      rw
        (sym (
          append_assoc xs (settle false writer_queue_closed c j ∷ [])
            (map (settle false writer_queue_closed c) js)))
        (reject-IsSerial c (xs ++ settle false writer_queue_closed c j ∷ []) d' js (
          rejects (settle false writer_queue_closed c j) r refl
            (settle-IsAnswered false writer_queue_closed c j)))

  end_worker-Serial : (q : WriterQueue D R) → Serial q → Serial (end_worker q)
  unfolding end_worker
  end_worker-Serial q r = reject-IsSerial q.cancelled q.settled q.db (jobs_of q.queue) r

  next_entry-Serial :
      (es : List (Entry D R)) (q q' : WriterQueue D R)
      → next_entry es q ≡ some q'
      → Serial q
      → Serial q'
  next_entry-Serial [] q q' h r = cc
  next_entry-Serial (queued j ∷ es) q q' h r = subst Serial (some_inj h) r
  next_entry-Serial (stop ∷ es) q q' h r =
      subst Serial (some_inj h) (end_worker-Serial (record q { queue = es }) r)

  ran :
      (c : List ℕ) (xs : List (Settled D R)) (d' : D) (j : QueuedWriteJob D R)
      → IsSerial c d xs d'
      → IsSerial c d
          (xs ++ settle true (completion_of (j.operation d').0) c j ∷ [])
          (j.operation d').1
  unfolding settle
  ran c xs d' j r =
      runs (settle true (completion_of (j.operation d').0) c j) r refl
        (settle-IsAnswered true (completion_of (j.operation d').0) c j)

  after_job-Serial :
      (j : QueuedWriteJob D R) (e : Ending R) (q : WriterQueue D R)
      → IsSerial q.cancelled d (q.settled ++ settle true (completion_of e) q.cancelled j ∷ []) q.db
      → Serial (after_job j e q)
  after_job-Serial j (returned r) q h = h
  after_job-Serial j (raised e) q h = h
  after_job-Serial j exits q h =
      end_worker-Serial
        (record q { settled = q.settled ++ settle true writer_queue_closed q.cancelled j ∷ [] }) h

  worker_round-Serial :
      (w : Worker D R) (q q' : WriterQueue D R) → worker_round w q ≡ some q' → Serial q → Serial q'
  unfolding execute_queued_job
  worker_round-Serial no_worker q q' h r = cc
  worker_round-Serial ended q q' h r = cc
  worker_round-Serial waiting q q' h r = next_entry-Serial q.queue q q' h r
  worker_round-Serial (running j) q q' h r = subst Serial (some_inj h) (
      after_job-Serial j (j.operation q.db).0 (record q { db = (j.operation q.db).1 })
        (ran q.cancelled q.settled q.db j r))

  submit-Serial : (j : QueuedWriteJob D R) (q : WriterQueue D R) → Serial q → Serial (submit j q).1
  unfolding submit
  submit-Serial j q r = elim (Bool-cases q.closed) [ inl e ↦ rw e r | inr e ↦ rw e r ]

  close-Serial : (q : WriterQueue D R) → Serial q → Serial (close q)
  unfolding close
  close-Serial q r = elim (Bool-cases q.closed) [ inl e ↦ rw e r | inr e ↦ rw e r ]

  Step-Serial : {q q' : WriterQueue D R} → Step q q' → Serial q → Serial q'
  Step-Serial (refuses j q h) r = submit-Serial j q r
  Step-Serial (closes q) r = close-Serial q r
  Step-Serial (cancels i q) r = cancel-IsSerial i q.cancelled r
  Step-Serial (works q q' h) r = worker_round-Serial q.worker q q' h r

  Run-Serial : {js : List (QueuedWriteJob D R)} {q : WriterQueue D R} → Run d js q → Serial q
  Run-Serial begins = nothing
  Run-Serial (submits {js} {q} j r h) = submit-Serial j q (Run-Serial r)
  Run-Serial (goes_on r s) = Step-Serial s (Run-Serial r)

  -- After any interleaving of submissions, closings, cancellations of callers and rounds of the
  -- worker, the jobs that were taken in are, in the order in which they came, the ones that are
  -- done with, the one that runs, and the ones in the queue. And the database and the answers are
  -- those of jobs that run one after another: each job that ran got what the one before left, and
  -- is answered with how it ended; a job that did not run is answered with
  -- WriterQueueClosedError; only a job whose caller was cancelled has no answer.
  pub Run-IsSerial :
      (js : List (QueuedWriteJob D R)) (q : WriterQueue D R)
      → Run d js q
      → (settled_jobs q ++ (in_hand q.worker ++ jobs_of q.queue) ≡ js)
        × IsSerial q.cancelled d q.settled q.db
  Run-IsSerial js q r = (Run-all_jobs r, Run-Serial r)
