-- ===== src/FloodWait/Tests.antt =====
-- A flood wait of a channel, and the theorem at it.
use tca.Base.{
  ℕ, ◌*◌, ◌≤◌, ◌≡◌, refl, true, false, ◌&&◌, none, [], ◌∷◌, ltb, arith, exists_row, member,
}
use tca.Base.Int.{pos}
use tca.Scheduler.{Cadence, run_tick}
use tca.FloodWait.{Polling, integer_seconds, paused_until, resume_at, handle_flood_wait}
use tca.FloodWait.Pauses.{handle_flood_wait-run_tick}

abbrev polling : Polling
polling = record {
  tables = record {
    accounts = record { id = 1; paused_at = none } ∷ [];
    channels = record { id = 7; account_id = 1; is_enabled = true } ∷ [];
    states = [];
    jobs = [];
  };
  risk = record { accounts = []; breaches = λ i. []; notifications = [] };
  flood_notices = [];
}

abbrev cadence : Cadence
cadence = record { poll_interval = 300; jitter_range = 60 }

abbrev draw : ℕ → ℕ
draw n = 0

draw_at_most : (n : ℕ) → draw n ≤ 2 * cadence.jitter_range
draw_at_most n = omega arith

handle_flood_wait-run_tick_example :
    let (r, p') = handle_flood_wait (integer_seconds (pos 400)) 7 none 1000 1001 polling in
    (r ≡ paused_until (resume_at 1000 400))
    × ((member 7 (run_tick cadence draw 2000 p'.tables).0 && ltb 2000 (resume_at 1000 400)) ≡ false)
unfolding exists_row
handle_flood_wait-run_tick_example =
    handle_flood_wait-run_tick cadence draw 399 7 none 1000 1001 2000 polling draw_at_most refl

-- Without the wait the channel is selected.
tick_before : (run_tick cadence draw 2000 polling.tables).0 ≡ 7 ∷ []
unfolding run_tick
tick_before = refl
