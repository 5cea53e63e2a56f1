-- ===== src/Writer/Orderly.antt =====
-- When a queue is orderly, and that every step keeps it so.
use mathlib.Core.Path.{subst}
use tca.Base.{
  ◌≡◌, refl, sym, ap, ◌∙◌, inl, inr, Bool, true, false, some, some_inj, List, [], ◌∷◌, ◌++◌,
  if◌then◌else◌, Bool-cases,
}
use tca.Writer.{
  QueuedWriteJob, Entry, queued, stop, Worker, no_worker, waiting, ended, running, Ending, returned,
  raised, exits, WriterQueue, ensure_worker, submit, stop_for, close, jobs_of, end_worker,
  after_job, execute_queued_job, worker_round, next_entry,
}
use tca.Writer.Runs.{
  Step, refuses, closes, cancels, works, Run, begins, submits, goes_on, jobs_of-append,
  jobs_of-stop_for,
}
use mathlib.Core.List.{append-nil}

module _ {D : Type 0} {R : Type 0} where
  abbrev pub is_running : Worker D R → Bool
  is_running no_worker = false
  is_running waiting = true
  is_running ended = false
  is_running (running j) = true

  unfoldable pub has_stop : List (Entry D R) → Bool
  has_stop [] = false
  has_stop (stop ∷ es) = true
  has_stop (queued j ∷ es) = has_stop es

  -- Without a worker there are no jobs to come, and a worker of a closed queue will find the stop.
  pub record IsOrderly (q : WriterQueue D R) : Type 0 where
    pub idle : is_running q.worker ≡ false → jobs_of q.queue ≡ []
    pub stops : q.closed ≡ true → is_running q.worker ≡ true → has_stop q.queue ≡ true

  is_running-ensure_worker : (w : Worker D R) → is_running (ensure_worker w) ≡ true
  is_running-ensure_worker no_worker = refl
  is_running-ensure_worker waiting = refl
  is_running-ensure_worker ended = refl
  is_running-ensure_worker (running j) = refl

  has_stop-stop_for :
      (w : Worker D R) (es : List (Entry D R))
      → is_running w ≡ true
      → has_stop (es ++ stop_for w) ≡ true
  unfolding has_stop
  has_stop-stop_for no_worker es h = cc
  has_stop-stop_for ended es h = cc
  has_stop-stop_for waiting [] h = refl
  has_stop-stop_for (running j) [] h = refl
  has_stop-stop_for waiting (stop ∷ es) h = refl
  has_stop-stop_for (running j) (stop ∷ es) h = refl
  has_stop-stop_for waiting (queued i ∷ es) h = has_stop-stop_for waiting es h
  has_stop-stop_for (running j) (queued i ∷ es) h = has_stop-stop_for (running j) es h

  submit-IsOrderly :
      (j : QueuedWriteJob D R) (q : WriterQueue D R) → IsOrderly q → IsOrderly (submit j q).1
  unfolding submit
  submit-IsOrderly j q v = elim (Bool-cases q.closed) [
    | inl e ↦
        subst IsOrderly
          (sym (
            ap
              (λ (b : Bool).
                (if◌then◌else◌ {A = Bool × WriterQueue D R} b (false, q) (true, taken)).1)
              e))
          v
    | inr e ↦ rw e (record {
      idle = λ h. absurd (false_true (sym h ∙ is_running-ensure_worker q.worker));
      stops = λ h r. absurd (false_true h);
    })
  ]
    where
      taken : WriterQueue D R
      taken = record q { queue = q.queue ++ queued j ∷ []; worker = ensure_worker q.worker }

      false_true : false ≡ true → ⊥
      false_true h = cc

  close-closed : (q : WriterQueue D R) → q.closed ≡ true → close q ≡ q
  unfolding close
  close-closed q e =
      ap
        (λ (b : Bool).
          if b then q else record q { closed = true; queue = q.queue ++ stop_for q.worker })
        e

  pub close_closes : (q : WriterQueue D R) → (close q).closed ≡ true
  unfolding close
  close_closes q = elim (Bool-cases q.closed) [
    | inl e ↦ ap (λ (p : WriterQueue D R). p.closed) (close-closed q e) ∙ e
    | inr e ↦ rw e refl
  ]

  close-IsOrderly : (q : WriterQueue D R) → IsOrderly q → IsOrderly (close q)
  unfolding close
  close-IsOrderly q v = elim (Bool-cases q.closed) [
    | inl e ↦ subst IsOrderly (sym (close-closed q e)) v
    | inr e ↦ rw e (record {
      idle = λ h.
          jobs_of-append q.queue (stop_for q.worker)
          ∙ rw (jobs_of-stop_for q.worker, append-nil (jobs_of q.queue)) (v.idle h);
      stops = λ h r. has_stop-stop_for q.worker q.queue r;
    })
  ]

  end_worker-IsOrderly : (q : WriterQueue D R) → IsOrderly (end_worker q)
  unfolding end_worker jobs_of
  end_worker-IsOrderly q = record { idle = λ h. refl; stops = λ h r. cc }

  next_entry-IsOrderly :
      (es : List (Entry D R)) (q q' : WriterQueue D R)
      → next_entry es q ≡ some q'
      → (q.closed ≡ true → has_stop es ≡ true)
      → IsOrderly q'
  unfolding has_stop
  next_entry-IsOrderly [] q q' h v = cc
  next_entry-IsOrderly (queued j ∷ es) q q' h v =
      subst IsOrderly (some_inj h) (record { idle = λ g. cc; stops = λ c r. v c })
  next_entry-IsOrderly (stop ∷ es) q q' h v =
      subst IsOrderly (some_inj h) (end_worker-IsOrderly (record q { queue = es }))

  after_job-IsOrderly :
      (j : QueuedWriteJob D R) (e : Ending R) (q : WriterQueue D R)
      → (q.closed ≡ true → has_stop q.queue ≡ true)
      → IsOrderly (after_job j e q)
  after_job-IsOrderly j (returned r) q v = record { idle = λ g. cc; stops = λ c r. v c }
  after_job-IsOrderly j (raised e) q v = record { idle = λ g. cc; stops = λ c r. v c }
  after_job-IsOrderly j exits q v = end_worker-IsOrderly _

  pub worker_round-IsOrderly :
      (w : Worker D R) (q q' : WriterQueue D R)
      → worker_round w q ≡ some q'
      → (q.closed ≡ true → is_running w ≡ true → has_stop q.queue ≡ true)
      → IsOrderly q'
  unfolding execute_queued_job
  worker_round-IsOrderly no_worker q q' h v = cc
  worker_round-IsOrderly ended q q' h v = cc
  worker_round-IsOrderly waiting q q' h v = next_entry-IsOrderly q.queue q q' h (λ c. v c refl)
  worker_round-IsOrderly (running j) q q' h v = subst IsOrderly (some_inj h) (
      after_job-IsOrderly j (j.operation q.db).0 (record q { db = (j.operation q.db).1 })
        (λ c. v c refl))

  Step-IsOrderly : {q q' : WriterQueue D R} → Step q q' → IsOrderly q → IsOrderly q'
  Step-IsOrderly (refuses j q h) v = submit-IsOrderly j q v
  Step-IsOrderly (closes q) v = close-IsOrderly q v
  Step-IsOrderly (cancels i q) v = record { idle = v.idle; stops = v.stops }
  Step-IsOrderly (works q q' h) v = worker_round-IsOrderly q.worker q q' h v.stops

  pub Run-IsOrderly :
      {d : D} {js : List (QueuedWriteJob D R)} {q : WriterQueue D R} → Run d js q → IsOrderly q
  unfolding jobs_of
  Run-IsOrderly begins = record { idle = λ h. refl; stops = λ h r. cc }
  Run-IsOrderly (submits {js} {q} j r h) = submit-IsOrderly j q (Run-IsOrderly r)
  Run-IsOrderly (goes_on r s) = Step-IsOrderly s (Run-IsOrderly r)
