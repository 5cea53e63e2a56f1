-- ===== src/Scheduler/Tests.antt =====
-- A tick over four channels, and the theorem at it.
use tca.Base.{ℕ, ◌*◌, ◌≤◌, ◌≡◌, refl, true, none, some, [], ◌∷◌, arith}
use tca.Scheduler.{Channel, Tables, Cadence, run_tick}
use tca.Scheduler.Tick.{Ticked, run_tick_lem}

abbrev channel : ℕ → ℕ → Channel
channel c a = record { id = c; account_id = a; is_enabled = true }

-- Account 2 is paused, channel 3 is, and channel 1 has succeeded a while ago.
abbrev tables : Tables
tables = record {
  accounts = record { id = 1; paused_at = none } ∷ record { id = 2; paused_at = some 5 } ∷ [];
  channels = channel 4 1 ∷ channel 1 1 ∷ channel 2 2 ∷ channel 3 1 ∷ [];
  states =
      record { channel_id = 1; paused_until = none; last_success_at = some 600 }
      ∷ record { channel_id = 3; paused_until = some 2000; last_success_at = none }
      ∷ [];
  jobs = [];
}

abbrev cadence : Cadence
cadence = record { poll_interval = 300; jitter_range = 60 }

abbrev draw : ℕ → ℕ
draw n = 120

draw_at_most : (n : ℕ) → draw n ≤ 2 * cadence.jitter_range
draw_at_most n = omega arith

run_tick_lem_example : Ticked cadence 1000 tables (run_tick cadence draw 1000 tables)
run_tick_lem_example = run_tick_lem cadence draw 1000 tables draw_at_most

tick_run : (run_tick cadence draw 1000 tables).0 ≡ 1 ∷ 4 ∷ []
unfolding run_tick
tick_run = refl
