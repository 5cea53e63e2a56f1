-- ===== src/Writer/Closing.antt =====
-- Closing: the worker ends, and every job that was taken in is answered.
use mathlib.Core.Path.{subst}
use tca.Base.{
  ℕ, zero, suc, ◌*◌, ◌≤◌, ◌≡◌, refl, sym, ◌∙◌, true, false, Option, none, some, some_inj, List, [],
  ◌∷◌, arith, length,
}
use tca.Writer.{
  QueuedWriteJob, Entry, queued, stop, Worker, no_worker, waiting, ended, running, Ending, returned,
  raised, exits, WriterQueue, close, end_worker, after_job, execute_queued_job, worker_round,
  next_entry, run_worker, rounds_of, rounds_left,
}
use tca.Writer.Runs.{closes, works, Run, goes_on, in_hand, settled_jobs, Run-all_jobs}
use mathlib.Core.List.{append-nil}
use tca.Writer.Orderly.{
  is_running, has_stop, IsOrderly, close_closes, worker_round-IsOrderly, Run-IsOrderly,
}

module _ {D : Type 0} {R : Type 0} where
  -- A round leaves fewer rounds, and keeps a closed queue closed.
  next_entry_shrinks :
      (es : List (Entry D R)) (q q' : WriterQueue D R)
      → next_entry es q ≡ some q'
      → (suc (rounds_left q') ≤ 2 * length es) × (q'.closed ≡ q.closed)
  unfolding end_worker
  next_entry_shrinks [] q q' h = cc
  next_entry_shrinks (queued j ∷ es) q q' h =
      subst
        (λ (p : WriterQueue D R).
          (suc (rounds_left p) ≤ 2 * length {A = Entry D R} (queued j ∷ es))
          × (p.closed ≡ q.closed))
        (some_inj h) (omega arith, refl)
  next_entry_shrinks (stop ∷ es) q q' h =
      subst
        (λ (p : WriterQueue D R).
          (suc (rounds_left p) ≤ 2 * length {A = Entry D R} (stop ∷ es)) × (p.closed ≡ q.closed))
        (some_inj h) (omega arith, refl)

  after_job_shrinks :
      (j : QueuedWriteJob D R) (e : Ending R) (q : WriterQueue D R)
      → (rounds_left (after_job j e q) ≤ 2 * length q.queue) × ((after_job j e q).closed ≡ q.closed)
  unfolding end_worker
  after_job_shrinks j (returned r) q = (omega arith, refl)
  after_job_shrinks j (raised e) q = (omega arith, refl)
  after_job_shrinks j exits q = (omega arith, refl)

  worker_round_shrinks :
      (w : Worker D R) (q q' : WriterQueue D R)
      → worker_round w q ≡ some q'
      → (suc (rounds_left q') ≤ rounds_of w q.queue) × (q'.closed ≡ q.closed)
  unfolding execute_queued_job
  worker_round_shrinks no_worker q q' h = cc
  worker_round_shrinks ended q q' h = cc
  worker_round_shrinks waiting q q' h = next_entry_shrinks q.queue q q' h
  worker_round_shrinks (running j) q q' h =
      subst
        (λ (p : WriterQueue D R).
          (suc (rounds_left p) ≤ suc (2 * length q.queue)) × (p.closed ≡ q.closed))
        (some_inj h)
        (let (a, b) =
            after_job_shrinks j (j.operation q.db).0 (record q { db = (j.operation q.db).1 }) in
          (omega arith, b))

  -- A worker that has no next round though it will find a stop is none.
  next_entry-none :
      (es : List (Entry D R)) (q : WriterQueue D R) → next_entry es q ≡ none → has_stop es ≡ false
  unfolding has_stop
  next_entry-none [] q h = refl
  next_entry-none (e ∷ es) q h = cc

  worker_round-none :
      (w : Worker D R) (q : WriterQueue D R)
      → worker_round w q ≡ none
      → (is_running w ≡ true → has_stop q.queue ≡ true)
      → is_running w ≡ false
  worker_round-none no_worker q h v = refl
  worker_round-none ended q h v = refl
  worker_round-none waiting q h v = absurd (false_true (sym (next_entry-none q.queue q h) ∙ v refl))
    where
      false_true : false ≡ true → ⊥
      false_true h = cc
  worker_round-none (running j) q h v = cc

  run_worker-Run :
      {d : D} {js : List (QueuedWriteJob D R)} (n : ℕ) (q : WriterQueue D R)
      → Run d js q
      → Run d js (run_worker n q)
  unfolding run_worker
  run_worker-Run zero q r = r
  run_worker-Run {d} {js} (suc n) q r = at_round (run_worker-Run n) (worker_round q.worker q) refl
    where
      at_round :
          ((q' : WriterQueue D R) → Run d js q' → Run d js (run_worker n q'))
          → (o : Option (WriterQueue D R)) → worker_round q.worker q ≡ o
          → Run d js (elim o [ none ↦ q | some q' ↦ run_worker n q' ])
      at_round rest none e = r
      at_round rest (some q') e = rest q' (goes_on r (works q q' e))

  run_worker_ends :
      (n : ℕ) (q : WriterQueue D R)
      → IsOrderly q
      → q.closed ≡ true
      → rounds_left q ≤ n
      → (is_running (run_worker n q).worker ≡ false) × ((run_worker n q).closed ≡ true)
  unfolding run_worker
  run_worker_ends zero q v c h = (at_round (worker_round q.worker q) refl, c)
    where
      at_round :
          (o : Option (WriterQueue D R)) → worker_round q.worker q ≡ o → is_running q.worker ≡ false
      at_round none e = worker_round-none q.worker q e (v.stops c)
      at_round (some q') e =
          let (a, b) = worker_round_shrinks q.worker q q' e in absurd (omega arith)
  run_worker_ends (suc n) q v c h = at_round (run_worker_ends n) (worker_round q.worker q) refl
    where
      at_round :
          ((q' : WriterQueue D R)
            → IsOrderly q'
            → q'.closed ≡ true
            → rounds_left q' ≤ n
            → (is_running (run_worker n q').worker ≡ false) × ((run_worker n q').closed ≡ true))
          → (o : Option (WriterQueue D R)) → worker_round q.worker q ≡ o
          → let q'' : WriterQueue D R = elim o [ none ↦ q | some q' ↦ run_worker n q' ] in
            (is_running q''.worker ≡ false) × (q''.closed ≡ true)
      at_round rest none e = (worker_round-none q.worker q e (v.stops c), c)
      at_round rest (some q') e =
          let (a, b) = worker_round_shrinks q.worker q q' e in
          rest q' (worker_round-IsOrderly q.worker q q' e v.stops) (b ∙ c) (omega arith)

  not_in_hand : (w : Worker D R) → is_running w ≡ false → in_hand w ≡ []
  not_in_hand no_worker h = refl
  not_in_hand ended h = refl
  not_in_hand waiting h = cc
  not_in_hand (running j) h = cc

  -- At any point of any interleaving, closing the queue and letting the worker go on for at least
  -- twice as many rounds as there are then entries in the queue, and one more for a running job,
  -- ends the worker, if there is one; the queue then is closed, and all jobs that were taken in
  -- are done with, in the order in which they came.
  pub close_drains :
      (d : D) (js : List (QueuedWriteJob D R)) (q : WriterQueue D R) (n : ℕ)
      → Run d js q
      → rounds_left (close q) ≤ n
      → let q' = run_worker n (close q) in
        (is_running q'.worker ≡ false) × (q'.closed ≡ true) × (settled_jobs q' ≡ js)
  close_drains d js q n r h =
      let (still, c) = run_worker_ends n (close q) (Run-IsOrderly run) (close_closes q) h in
      (still, c, settled still)
    where
      run : Run d js (close q)
      run = goes_on r (closes q)

      end : WriterQueue D R
      end = run_worker n (close q)

      settled : is_running end.worker ≡ false → settled_jobs end ≡ js
      settled still =
          sym (
            rw
              (
                not_in_hand end.worker still,
                (Run-IsOrderly (run_worker-Run n (close q) run)).idle still,
              )
              (append-nil (settled_jobs end)))
          ∙ Run-all_jobs (run_worker-Run n (close q) run)
