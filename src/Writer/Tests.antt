-- ===== src/Writer/Tests.antt =====
-- Two callers and a worker, one after another in this order.
use tca.Base.{ℕ, ◌+◌, ◌≤◌, ◌≡◌, refl, true, false, some, List, [], ◌∷◌, ◌++◌, arith}
use tca.Writer.{
  QueuedWriteJob, returned, raised, exits, writer_queue_closed, WriterQueue, new_queue, submit,
  close, run_worker, rounds_left, jobs_of,
}
use tca.Writer.Runs.{Run, begins, submits, in_hand, settled_jobs}
use tca.Writer.Serial.{IsSerial, Run-IsSerial}
use tca.Writer.Orderly.{is_running}
use tca.Writer.Closing.{close_drains}

-- A job that adds to a counter and returns the sum, one that fails, and one that ends the worker.
abbrev adds : ℕ → ℕ → QueuedWriteJob ℕ ℕ
adds i n = record { completion = i; operation = λ d. (returned (d + n), d + n) }

abbrev fails : QueuedWriteJob ℕ ℕ
fails = record { completion = 3; operation = λ d. (raised "locked", d) }

abbrev leaves : QueuedWriteJob ℕ ℕ
leaves = record { completion = 4; operation = λ d. (exits, d) }

abbrev jobs : List (QueuedWriteJob ℕ ℕ)
jobs = adds 1 5 ∷ fails ∷ adds 2 7 ∷ []

abbrev filled : WriterQueue ℕ ℕ
filled = (submit (adds 2 7) (submit fails (submit (adds 1 5) (new_queue 10)).1).1).1

filled-Run : Run 10 jobs filled
unfolding submit
filled-Run = submits (adds 2 7) (submits fails (submits (adds 1 5) begins refl) refl) refl

Run-IsSerial_example :
    (settled_jobs filled ++ (in_hand filled.worker ++ jobs_of filled.queue) ≡ jobs)
    × IsSerial filled.cancelled 10 filled.settled filled.db
Run-IsSerial_example = Run-IsSerial 10 jobs filled filled-Run

few : rounds_left (close filled) ≤ 8
unfolding submit close
few = omega arith

close_drains_example :
    let q' = run_worker 8 (close filled) in
    (is_running q'.worker ≡ false) × (q'.closed ≡ true) × (settled_jobs q' ≡ jobs)
close_drains_example = close_drains 10 jobs filled 8 filled-Run few

-- The counter after the three jobs, and after a worker that ends too early.
drained : (run_worker 8 (close filled)).db ≡ 22
unfolding run_worker submit close
drained = refl

left :
    (run_worker 3 (submit (adds 1 5) (submit leaves (new_queue 10)).1).1).settled
    ≡ record { job = leaves; ran = true; answer = some writer_queue_closed }
      ∷ record { job = adds 1 5; ran = false; answer = some writer_queue_closed }
      ∷ []
unfolding run_worker submit
left = refl
