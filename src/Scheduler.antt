-- ===== src/Scheduler.antt =====
-- tca/scheduler/service.py: one tick of the core loop, with the queries of
-- tca/storage/channels_repo.py, channel_state_repo.py and poll_jobs_repo.py that it uses. Times are
-- microseconds, as Python's timedelta counts them.
pub mod Tick
mod Tests
use tca.Base.{
  ℕ, zero, suc, ◌+◌, Bool, true, false, not, ◌&&◌, ◌||◌, Option, none, some, List, [], ◌∷◌, ◌++◌,
  map, ◌==◌, ltb, leb, if◌then◌else◌, is_none, keep, exists_row,
}
use tca.Base.Sort.{sort}
use tca.Store.{next_id}

-- Rows of `telegram_accounts`, `telegram_channels` and `channel_state`.
pub record Account : Type 0 where
  pub id : ℕ
  pub paused_at : Option ℕ

pub record Channel : Type 0 where
  pub id : ℕ
  pub account_id : ℕ
  pub is_enabled : Bool

pub record ChannelState : Type 0 where
  pub channel_id : ℕ
  pub paused_until : Option ℕ
  pub last_success_at : Option ℕ

-- A row of `poll_jobs`, without its random correlation id.
pub record PollJob : Type 0 where
  pub id : ℕ
  pub channel_id : ℕ

pub record Tables : Type 0 where
  pub accounts : List Account
  pub channels : List Channel
  pub states : List ChannelState
  pub jobs : List PollJob

-- The join with the account, and the two conditions.
abbrev pub is_schedulable : List Account → Channel → Bool
is_schedulable accounts c =
    c.is_enabled
    && exists_row (λ (a : Account). a.id == c.account_id && is_none a.paused_at) accounts

-- `list_schedulable_channels`, of which the tick uses the ids.
unfoldable pub list_schedulable_channels : Tables → List ℕ
unfolding sort keep exists_row
list_schedulable_channels t =
    sort (map (λ (c : Channel). c.id) (keep (is_schedulable t.accounts) t.channels))

-- `list_states_by_channel_ids` and `state_map.get`: the states have distinct keys.
unfoldable pub get_state : ℕ → List ChannelState → Option ChannelState
get_state c [] = none
get_state c (s ∷ rest) = if c == s.channel_id then some s else get_state c rest

abbrev pub paused_until_of : Option ChannelState → Option ℕ
paused_until_of none = none
paused_until_of (some s) = s.paused_until

abbrev pub last_success_of : Option ChannelState → Option ℕ
last_success_of none = none
last_success_of (some s) = s.last_success_at

-- `_is_paused`.
abbrev pub is_paused : ℕ → Option ℕ → Bool
is_paused now none = false
is_paused now (some until) = ltb now until

-- The interval and the jitter range; a draw of `jitter_rng.uniform(-range, range)` is given as its
-- distance from `-range`, so it is never negative.
pub record Cadence : Type 0 where
  pub poll_interval : ℕ
  pub jitter_range : ℕ

-- `_compute_next_run_at` <= now, with the range on the other side.
abbrev pub is_past : Cadence → ℕ → ℕ → ℕ → Bool
is_past k now last drawn = leb (last + k.poll_interval + drawn) (now + k.jitter_range)

-- `_select_eligible_channels`: the loop over the channels, with the number of draws made so far. A
-- draw is made for a channel that is not paused and has succeeded before.
unfoldable pub select_from : Cadence → (ℕ → ℕ) → ℕ → List ChannelState → ℕ → List ℕ → List ℕ
unfolding get_state
select_from k draw now states drawn [] = []
select_from k draw now states drawn (c ∷ cs) =
    elim (is_paused now (paused_until_of (get_state c states))) [
      | true ↦ select_from k draw now states drawn cs
      | false ↦ elim (last_success_of (get_state c states)) [
        | none ↦ c ∷ select_from k draw now states drawn cs
        | some last ↦
            let rest = select_from k draw now states (suc drawn) cs in
            if is_past k now last (draw drawn) then c ∷ rest else rest
      ]
    ]

-- `enqueue_poll_job`.
unfoldable pub enqueue_poll_job : ℕ → List PollJob → List PollJob
unfolding next_id
enqueue_poll_job c jobs =
    jobs ++ record { id = next_id (map (λ (j : PollJob). j.id) jobs); channel_id = c } ∷ []

unfoldable pub enqueue_all : List ℕ → List PollJob → List PollJob
unfolding enqueue_poll_job
enqueue_all [] jobs = jobs
enqueue_all (c ∷ cs) jobs = enqueue_all cs (enqueue_poll_job c jobs)

-- `run_once`: the channels whose jobs are enqueued, and the tables.
unfoldable pub run_tick : Cadence → (ℕ → ℕ) → ℕ → Tables → List ℕ × Tables
unfolding list_schedulable_channels select_from enqueue_all
run_tick k draw now t =
    let eligible = select_from k draw now t.states 0 (list_schedulable_channels t) in
    (eligible, record t { jobs = enqueue_all eligible t.jobs })
