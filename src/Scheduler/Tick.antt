-- ===== src/Scheduler/Tick.antt =====
-- Which channels a tick enqueues.
use mathlib.Core.List.{append-nil, append_assoc}
use tca.Base.{
  ℕ, suc, ◌+◌, ◌*◌, ◌≤◌, ◌≡◌, refl, sym, ap, ◌∙◌, inl, inr, Bool, true, false, not, ◌&&◌, Option,
  none, some, List, [], ◌∷◌, ◌++◌, map, arith, ◌==◌, leb, if◌then◌else◌, Bool-cases, Option-cases,
  keep, exists_row, exists_row-keep, member, member-map,
}
use tca.Base.Sort.{member-sort}
use tca.Scheduler.{
  Channel, ChannelState, PollJob, Tables, Cadence, is_schedulable, list_schedulable_channels,
  get_state, paused_until_of, last_success_of, is_paused, is_past, select_from, enqueue_poll_job,
  enqueue_all, run_tick,
}

-- A schedulable channel has that key.
abbrev pub may_schedule : ℕ → Tables → Bool
may_schedule c t = exists_row (λ (r : Channel). c == r.id && is_schedulable t.accounts r) t.channels

-- Due whatever the jitter is, and due for some jitter.
abbrev pub surely_due : Cadence → ℕ → Option ℕ → Bool
surely_due k now none = true
surely_due k now (some last) = leb (last + k.poll_interval + k.jitter_range) now

abbrev pub maybe_due : Cadence → ℕ → Option ℕ → Bool
maybe_due k now none = true
maybe_due k now (some last) = leb (last + k.poll_interval) (now + k.jitter_range)

abbrev pub runs : (Option ℕ → Bool) → ℕ → List ChannelState → ℕ → Bool
runs due now states c =
    not (is_paused now (paused_until_of (get_state c states)))
    && due (last_success_of (get_state c states))

module _ (k : Cadence) (draw : ℕ → ℕ) (bounded : (n : ℕ) → draw n ≤ 2 * k.jitter_range) (now : ℕ)
    (states : List ChannelState) where
  -- The verdict on one channel, and the draws made after it.
  abbrev due_now : ℕ → Option ℕ → Bool
  due_now drawn none = true
  due_now drawn (some last) = is_past k now last (draw drawn)

  abbrev draws_on : ℕ → Option ℕ → ℕ
  draws_on drawn none = drawn
  draws_on drawn (some last) = suc drawn

  abbrev chosen : ℕ → ℕ → Bool
  chosen drawn c = runs (due_now drawn) now states c

  abbrev next_drawn : ℕ → ℕ → ℕ
  next_drawn drawn c =
      if is_paused now (paused_until_of (get_state c states))
      then drawn
      else draws_on drawn (last_success_of (get_state c states))

  select_from-nil : (drawn : ℕ) → select_from k draw now states drawn [] ≡ []
  unfolding select_from
  select_from-nil drawn = refl

  select_from-step :
      (drawn d : ℕ) (ds : List ℕ)
      → select_from k draw now states drawn (d ∷ ds) ≡ (
          if chosen drawn d
          then d ∷ select_from k draw now states (next_drawn drawn d) ds
          else select_from k draw now states (next_drawn drawn d) ds)
  unfolding select_from
  select_from-step drawn d ds =
      elim (Bool-cases (is_paused now (paused_until_of (get_state d states)))) [
        | inl paused ↦ rw (select_from, paused) refl
        | inr free ↦ elim (Option-cases (last_success_of (get_state d states))) [
          | inl fresh ↦ rw (select_from, free, fresh) refl
          | inr (last, known) ↦ rw (select_from, free, known) refl
        ]
      ]

  due_now-maybe : (drawn : ℕ) (o : Option ℕ) → due_now drawn o ≡ true → maybe_due k now o ≡ true
  due_now-maybe drawn none h = refl
  due_now-maybe drawn (some last) h = ground arith

  surely-due_now : (drawn : ℕ) (o : Option ℕ) → surely_due k now o ≡ true → due_now drawn o ≡ true
  surely-due_now drawn none h = refl
  surely-due_now drawn (some last) h = let most = bounded drawn in ground arith

  same_runs :
      (due : Option ℕ → Bool) (c d : ℕ)
      → (c == d) ≡ true
      → runs due now states c ≡ runs due now states d
  same_runs due c d h = let e : c ≡ d = ground arith in ap (runs due now states) e

  selected_only :
      (drawn : ℕ) (cs : List ℕ) (c : ℕ)
      → member c (select_from k draw now states drawn cs) ≡ true
      → (member c cs && runs (maybe_due k now) now states c) ≡ true
  unfolding member
  selected_only drawn [] c h = ground (arith, select_from-nil drawn)
  selected_only drawn (d ∷ ds) c h = ground (
    arith,
    select_from-step drawn d ds,
    selected_only (next_drawn drawn d) ds c,
    due_now-maybe drawn (last_success_of (get_state d states)),
    same_runs (maybe_due k now) c d,
  )

  selected_all :
      (drawn : ℕ) (cs : List ℕ) (c : ℕ)
      → (member c cs && runs (surely_due k now) now states c) ≡ true
      → member c (select_from k draw now states drawn cs) ≡ true
  unfolding member
  selected_all drawn [] c h = ground (arith, select_from-nil drawn)
  selected_all drawn (d ∷ ds) c h = ground (
    arith,
    select_from-step drawn d ds,
    selected_all (next_drawn drawn d) ds c,
    surely-due_now drawn (last_success_of (get_state d states)),
    same_runs (surely_due k now) c d,
  )

member-list_schedulable_channels :
    (c : ℕ) (t : Tables) → member c (list_schedulable_channels t) ≡ may_schedule c t
unfolding list_schedulable_channels
member-list_schedulable_channels c t =
    member-sort c _
    ∙ member-map (λ (r : Channel). r.id) c (keep (is_schedulable t.accounts) t.channels)
    ∙ exists_row-keep (λ (r : Channel). c == r.id) (is_schedulable t.accounts) t.channels

map-append_one :
    (rows : List PollJob) (r : PollJob)
    → map (λ (x : PollJob). x.channel_id) (rows ++ r ∷ [])
      ≡ map (λ (x : PollJob). x.channel_id) rows ++ r.channel_id ∷ []
map-append_one [] r = refl
map-append_one (x ∷ xs) r = ap (λ l. x.channel_id ∷ l) (map-append_one xs r)

enqueue_all-channels :
    (cs : List ℕ) (jobs : List PollJob)
    → map (λ (x : PollJob). x.channel_id) (enqueue_all cs jobs)
      ≡ map (λ (x : PollJob). x.channel_id) jobs ++ cs
unfolding enqueue_all
enqueue_all-channels [] jobs = sym (append-nil _)
enqueue_all-channels (c ∷ cs) jobs =
    enqueue_all-channels cs (enqueue_poll_job c jobs)
    ∙ ap (λ l. l ++ cs) (unfold enqueue_poll_job in map-append_one jobs _)
    ∙ append_assoc (map (λ (x : PollJob). x.channel_id) jobs) (c ∷ []) cs

-- What a tick at `now` enqueues, and when it must.
pub record Ticked (k : Cadence) (now : ℕ) (t : Tables) (o : List ℕ × Tables) : Type 0 where
  pub only :
      (c : ℕ)
      → (member c o.0 && not (may_schedule c t && runs (maybe_due k now) now t.states c)) ≡ false
  pub every :
      (c : ℕ)
      → (may_schedule c t && runs (surely_due k now) now t.states c && not (member c o.0)) ≡ false
  pub enqueued :
      map (λ (x : PollJob). x.channel_id) o.1.jobs
      ≡ map (λ (x : PollJob). x.channel_id) t.jobs ++ o.0

-- With jitter draws in their range, a scheduler tick appends jobs, one for each channel that it
-- selects and in their order; it selects only enabled channels that are not paused, of an account
-- that is not paused, and that are due for some jitter; and it selects every such channel that is
-- due whatever the jitter.
pub run_tick_lem :
    (k : Cadence) (draw : ℕ → ℕ) (now : ℕ) (t : Tables)
    → ((n : ℕ) → draw n ≤ 2 * k.jitter_range)
    → Ticked k now t (run_tick k draw now t)
unfolding run_tick
run_tick_lem k draw now t bounded = record {
  only = λ c. ground (
    arith,
    selected_only k draw bounded now t.states 0 (list_schedulable_channels t) c,
    member-list_schedulable_channels c t,
  );
  every = λ c. ground (
    arith,
    selected_all k draw bounded now t.states 0 (list_schedulable_channels t) c,
    member-list_schedulable_channels c t,
  );
  enqueued = enqueue_all-channels _ t.jobs;
}
