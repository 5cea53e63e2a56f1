-- ===== src/Writer/Runs.antt =====
-- Interleavings of callers and worker: no job is lost, doubled or overtaken.
use mathlib.Core.List.{append-nil, append_assoc}
use tca.Base.{
  ℕ, ◌≡◌, refl, sym, ap, ◌∙◌, inl, inr, Bool, true, false, some, some_inj, List, [], ◌∷◌, ◌++◌, map,
  Bool-cases,
}
use tca.Writer.{
  QueuedWriteJob, Entry, queued, stop, Worker, no_worker, waiting, ended, running, Ending, returned,
  raised, exits, Completion, result, exception, writer_queue_closed, Settled, WriterQueue,
  new_queue, ensure_worker, submit, stop_for, close, cancel, settle, jobs_of, end_worker, after_job,
  execute_queued_job, worker_round, next_entry,
}

-- A step of a caller that adds no job, or of the worker.
pub data Step {D : Type 0} {R : Type 0} : WriterQueue D R → WriterQueue D R → Type 0 where
  refuses : (j : QueuedWriteJob D R) (q : WriterQueue D R) → q.closed ≡ true → Step q (submit j q).1
  closes : (q : WriterQueue D R) → Step q (close q)
  cancels : (i : ℕ) (q : WriterQueue D R) → Step q (cancel i q)
  works : (q q' : WriterQueue D R) → worker_round q.worker q ≡ some q' → Step q q'

-- Any interleaving from a new queue on, with the jobs that were taken in, in their order.
pub data Run {D : Type 0} {R : Type 0} (d : D)
    : List (QueuedWriteJob D R) → WriterQueue D R → Type 0 where
  begins : Run d [] (new_queue d)
  submits :
      {js : List (QueuedWriteJob D R)} {q : WriterQueue D R} (j : QueuedWriteJob D R)
      → Run d js q
      → q.closed ≡ false
      → Run d (js ++ j ∷ []) (submit j q).1
  goes_on :
      {js : List (QueuedWriteJob D R)} {q q' : WriterQueue D R}
      → Run d js q
      → Step q q'
      → Run d js q'

module _ {D : Type 0} {R : Type 0} where
  -- The job in the worker's hands.
  abbrev pub in_hand : Worker D R → List (QueuedWriteJob D R)
  in_hand no_worker = []
  in_hand waiting = []
  in_hand ended = []
  in_hand (running j) = j ∷ []

  abbrev pub settled_jobs : WriterQueue D R → List (QueuedWriteJob D R)
  settled_jobs q = map (λ (s : Settled D R). s.job) q.settled

  -- All jobs that were taken in: the ones that are done with, the one that runs, and the ones to come.
  abbrev pub all_jobs : WriterQueue D R → List (QueuedWriteJob D R)
  all_jobs q = settled_jobs q ++ (in_hand q.worker ++ jobs_of q.queue)

  pub jobs_of-append : (es fs : List (Entry D R)) → jobs_of (es ++ fs) ≡ jobs_of es ++ jobs_of fs
  unfolding jobs_of
  jobs_of-append [] fs = refl
  jobs_of-append (queued j ∷ es) fs =
      ap (λ (l : List (QueuedWriteJob D R)). j ∷ l) (jobs_of-append es fs)
  jobs_of-append (stop ∷ es) fs = jobs_of-append es fs

  pub jobs_of-stop_for : (w : Worker D R) → jobs_of (stop_for w) ≡ []
  unfolding jobs_of
  jobs_of-stop_for no_worker = refl
  jobs_of-stop_for waiting = refl
  jobs_of-stop_for ended = refl
  jobs_of-stop_for (running j) = refl

  in_hand-ensure_worker : (w : Worker D R) → in_hand (ensure_worker w) ≡ in_hand w
  in_hand-ensure_worker no_worker = refl
  in_hand-ensure_worker waiting = refl
  in_hand-ensure_worker ended = refl
  in_hand-ensure_worker (running j) = refl

  settled-append :
      (xs ys : List (Settled D R))
      → map (λ (s : Settled D R). s.job) (xs ++ ys)
        ≡ map (λ (s : Settled D R). s.job) xs ++ map (λ (s : Settled D R). s.job) ys
  settled-append [] ys = refl
  settled-append (x ∷ xs) ys =
      ap (λ (l : List (QueuedWriteJob D R)). x.job ∷ l) (settled-append xs ys)

  settled-reject :
      (c : List ℕ) (js : List (QueuedWriteJob D R))
      → map (λ (s : Settled D R). s.job) (map (settle false writer_queue_closed c) js) ≡ js
  unfolding settle
  settled-reject c [] = refl
  settled-reject c (j ∷ js) = ap (λ (l : List (QueuedWriteJob D R)). j ∷ l) (settled-reject c js)

  submit-all_jobs :
      (j : QueuedWriteJob D R) (q : WriterQueue D R)
      → q.closed ≡ false
      → all_jobs (submit j q).1 ≡ all_jobs q ++ j ∷ []
  unfolding submit jobs_of
  submit-all_jobs j q h =
      rw (h, in_hand-ensure_worker q.worker, jobs_of-append q.queue (queued j ∷ []))
        (ap (λ l. settled_jobs q ++ l)
            (sym (append_assoc (in_hand q.worker) (jobs_of q.queue) (j ∷ [])))
          ∙ sym (append_assoc (settled_jobs q) (in_hand q.worker ++ jobs_of q.queue) (j ∷ [])))

  close-all_jobs : (q : WriterQueue D R) → all_jobs (close q) ≡ all_jobs q
  unfolding close
  close-all_jobs q = elim (Bool-cases q.closed) [
    | inl e ↦ rw e refl
    | inr e ↦
        rw
          (
            e,
            jobs_of-append q.queue (stop_for q.worker),
            jobs_of-stop_for q.worker,
            append-nil (jobs_of q.queue),
          )
          refl
  ]

  end_worker-all_jobs :
      (q : WriterQueue D R) → all_jobs (end_worker q) ≡ settled_jobs q ++ jobs_of q.queue
  unfolding end_worker jobs_of
  end_worker-all_jobs q =
      append-nil _
      ∙ settled-append q.settled
          (map (settle false writer_queue_closed q.cancelled) (jobs_of q.queue))
      ∙ ap (λ l. settled_jobs q ++ l) (settled-reject q.cancelled (jobs_of q.queue))

  -- A job that has run, before what is in the queue.
  settled-snoc :
      (ran : Bool) (a : Completion R) (c : List ℕ) (j : QueuedWriteJob D R)
      (xs : List (Settled D R)) (js : List (QueuedWriteJob D R))
      → map (λ (s : Settled D R). s.job) (xs ++ settle ran a c j ∷ []) ++ js
        ≡ map (λ (s : Settled D R). s.job) xs ++ j ∷ js
  unfolding settle
  settled-snoc ran a c j xs js =
      ap (λ l. l ++ js) (settled-append xs (settle ran a c j ∷ []))
      ∙ append_assoc (map (λ (s : Settled D R). s.job) xs) (j ∷ []) js

  after_job-all_jobs :
      (j : QueuedWriteJob D R) (e : Ending R) (q : WriterQueue D R)
      → all_jobs (after_job j e q) ≡ settled_jobs q ++ j ∷ jobs_of q.queue
  after_job-all_jobs j (returned r) q =
      settled-snoc true (result r) q.cancelled j q.settled (jobs_of q.queue)
  after_job-all_jobs j (raised e) q =
      settled-snoc true (exception e) q.cancelled j q.settled (jobs_of q.queue)
  after_job-all_jobs j exits q =
      end_worker-all_jobs
        (record q { settled = q.settled ++ settle true writer_queue_closed q.cancelled j ∷ [] })
      ∙ settled-snoc true writer_queue_closed q.cancelled j q.settled (jobs_of q.queue)

  next_entry-all_jobs :
      (es : List (Entry D R)) (q q' : WriterQueue D R)
      → next_entry es q ≡ some q'
      → all_jobs q' ≡ settled_jobs q ++ jobs_of es
  unfolding jobs_of
  next_entry-all_jobs [] q q' h = cc
  next_entry-all_jobs (queued j ∷ es) q q' h = ap all_jobs (sym (some_inj h))
  next_entry-all_jobs (stop ∷ es) q q' h =
      ap all_jobs (sym (some_inj h)) ∙ end_worker-all_jobs (record q { queue = es })

  worker_round-all_jobs :
      (w : Worker D R) (q q' : WriterQueue D R)
      → worker_round w q ≡ some q'
      → all_jobs q' ≡ settled_jobs q ++ (in_hand w ++ jobs_of q.queue)
  unfolding execute_queued_job
  worker_round-all_jobs no_worker q q' h = cc
  worker_round-all_jobs ended q q' h = cc
  worker_round-all_jobs waiting q q' h = next_entry-all_jobs q.queue q q' h
  worker_round-all_jobs (running j) q q' h =
      ap all_jobs (sym (some_inj h))
      ∙ after_job-all_jobs j (j.operation q.db).0 (record q { db = (j.operation q.db).1 })

  Step-all_jobs : {q q' : WriterQueue D R} → Step q q' → all_jobs q' ≡ all_jobs q
  unfolding submit
  Step-all_jobs (refuses j q h) = rw h refl
  Step-all_jobs (closes q) = close-all_jobs q
  Step-all_jobs (cancels i q) = refl
  Step-all_jobs (works q q' h) = worker_round-all_jobs q.worker q q' h

  pub Run-all_jobs :
      {d : D} {js : List (QueuedWriteJob D R)} {q : WriterQueue D R} → Run d js q → all_jobs q ≡ js
  unfolding jobs_of
  Run-all_jobs begins = refl
  Run-all_jobs (submits {js} {q} j r h) =
      submit-all_jobs j q h ∙ ap (λ l. l ++ j ∷ []) (Run-all_jobs r)
  Run-all_jobs (goes_on r s) = Step-all_jobs s ∙ Run-all_jobs r
