-- ===== src/FloodWait/Pauses.antt =====
-- A channel that waits is not scheduled.
use tca.Base.{
  ℕ, suc, ◌*◌, ◌≤◌, ◌≡◌, refl, ap, true, false, ◌&&◌, Option, none, some, List, [], ◌∷◌, ◌++◌, map,
  arith, ◌==◌, ==_refl, ltb, exists_row, Bool-cases, inl, inr, member,
}
use tca.Base.Int.{pos}
use tca.Scheduler.{ChannelState, Cadence, Tables, get_state, is_paused, paused_until_of, run_tick}
use tca.Scheduler.Tick.{run_tick_lem}
use tca.FloodWait.{
  integer_seconds, Polling, paused_until, pause_state, update_pause, has_channel, resume_at,
  handle_flood_wait,
}

get_state-map :
    (c until : ℕ) (states : List ChannelState)
    → exists_row (λ (s : ChannelState). c == s.channel_id) states ≡ true
    → paused_until_of (get_state c (map (pause_state c until) states)) ≡ some until
unfolding get_state exists_row
get_state-map c until [] h = cc
get_state-map c until (s ∷ rest) h = elim (Bool-cases (c == s.channel_id)) [
  | inl here ↦ rw (here, here) refl
  | inr there ↦ rw (there, there) (get_state-map c until rest (ground arith))
]

get_state-append :
    (c until : ℕ) (states : List ChannelState)
    → exists_row (λ (s : ChannelState). c == s.channel_id) states ≡ false
    → paused_until_of (
        get_state c (
          states
          ++ record { channel_id = c; paused_until = some until; last_success_at = none } ∷ []))
      ≡ some until
unfolding get_state exists_row
get_state-append c until [] h = rw (==_refl c) refl
get_state-append c until (s ∷ rest) h = elim (Bool-cases (c == s.channel_id)) [
  | inl here ↦ ground arith
  | inr there ↦ rw there (get_state-append c until rest (ground arith))
]

get_state-update_pause :
    (c until : ℕ) (states : List ChannelState)
    → paused_until_of (get_state c (update_pause c until states)) ≡ some until
unfolding update_pause
get_state-update_pause c until states =
    elim (Bool-cases (exists_row (λ (s : ChannelState). c == s.channel_id) states)) [
      | inl known ↦ rw known (get_state-map c until states known)
      | inr fresh ↦ rw fresh (get_state-append c until states fresh)
    ]

not_paused_until :
    (k : Cadence) (draw : ℕ → ℕ) (c t until : ℕ) (tables : Tables)
    → ((n : ℕ) → draw n ≤ 2 * k.jitter_range)
    → paused_until_of (get_state c tables.states) ≡ some until
    → (member c (run_tick k draw t tables).0 && ltb t until) ≡ false
not_paused_until k draw c t until tables bounded paused =
    let only = (run_tick_lem k draw t tables bounded).only c in
    let still : is_paused t (paused_until_of (get_state c tables.states)) ≡ ltb t until =
      ap (is_paused t) paused in
    ground (arith, only, still)

-- A flood wait of a positive number of seconds, of a channel that is there, reports the time at
-- which it ends; and until then no scheduler tick with jitter draws in their range, on the tables
-- that it leaves, selects the channel, with or without an account whose breach it records.
pub handle_flood_wait-run_tick :
    (k : Cadence) (draw : ℕ → ℕ) (n c : ℕ) (account : Option ℕ) (now later t : ℕ) (p : Polling)
    → ((n : ℕ) → draw n ≤ 2 * k.jitter_range)
    → has_channel c p.tables ≡ true
    → let (r, p') = handle_flood_wait (integer_seconds (pos (suc n))) c account now later p in
      (r ≡ paused_until (resume_at now (suc n)))
      × ((member c (run_tick k draw t p'.tables).0 && ltb t (resume_at now (suc n))) ≡ false)
unfolding handle_flood_wait
handle_flood_wait-run_tick k draw n c account now later t p bounded known =
    rw (handle_flood_wait, known)
      (
        refl,
        not_paused_until k draw c t (resume_at now (suc n)) _ bounded
            (get_state-update_pause c (resume_at now (suc n)) p.tables.states),
      )
