-- ===== src/Ingest/Poll.antt =====
-- The loop of a bounded fetch, and the poll as a whole.
use tca.Base.{
  ℕ, zero, suc, ◌+◌, ◌-◌, ◌≤◌, ◌<◌, ◌≡◌, refl, inl, inr, true, false, ◌||◌, Option, none, some,
  List, [], ◌∷◌, min, ltb, ◌==◌, length, All, arith, Bool-cases,
}
use tca.Ingest.{
  ChannelCursor, last_id, offset_of, extract_ids, Fetched, Round, raised, broke, went_on, extended,
  ended, with_ids, receive, fetch_pages, poll_result, fetch_bounded_messages,
}
use tca.Ingest.Bounds.{
  Failed, PollOutcome, Holds, Running, extended-Holds, extended-Running, some_ids,
}

module _ (Message : Type 0) (message_id : Message → Option ℕ)
    (get_messages : ℕ → ℕ → Option ℕ → Option (List Message))
    (at_most_limit : (k l : ℕ) (o : Option ℕ) (ms : List Message)
      → get_messages k l o ≡ some ms
      → length ms ≤ l)
    (before_offset : (k l o : ℕ) (ms : List Message) (ids : List ℕ)
      → get_messages k l (some o) ≡ some ms
      → extract_ids message_id ms ≡ some ids
      → All (λ j. j < o) ids)
    (max_messages page_size : ℕ) (start last : Option ℕ) where
  abbrev IsRunning : Fetched Message → Type 0
  IsRunning f =
      Running Message message_id get_messages at_most_limit before_offset max_messages page_size
        start last f

  abbrev IsBounded : Fetched Message → Type 0
  IsBounded f =
      Holds Message message_id get_messages at_most_limit before_offset max_messages page_size start
        last f

  -- What a round leaves.
  abbrev RoundHolds : Round Message → Type 0
  RoundHolds raised = Failed message_id get_messages max_messages
  RoundHolds (broke f) = IsBounded f
  RoundHolds (went_on f) = IsRunning f

  ended-holds : (f : Fetched Message) → IsBounded f → IsBounded (ended message_id f)
  ended-holds f h = record {
    ids = h.ids;
    extracted = h.extracted;
    at_most = h.at_most;
    newest_of = h.newest_of;
    before_start = h.before_start;
    from_offset = λ o e. cc;
  }

  module _ (f : Fetched Message) (r : IsRunning f) (page limit : ℕ)
      (room : length f.messages + limit ≤ max_messages) where
    with_ids-holds :
        (m : Message) (ms : List Message)
        → get_messages page limit f.offset_id ≡ some (m ∷ ms)
        → (o : Option (List ℕ)) → extract_ids message_id (m ∷ ms) ≡ o
        → RoundHolds (with_ids message_id limit f (m ∷ ms) o)
    with_ids-holds m ms got none e = (page, limit, f.offset_id, inr (m ∷ ms, got, e))
    with_ids-holds m ms got (some []) e = absurd (some_ids message_id m ms e)
    with_ids-holds m ms got (some (i ∷ is)) e = elim (Bool-cases (ltb (length (m ∷ ms)) limit)) [
      | inl short ↦ rw short (
          ended-holds (extended message_id f (m ∷ ms) i is) (
            extended-Holds Message message_id get_messages at_most_limit before_offset max_messages
              page_size start last f r page limit room m ms got i is e))
      | inr full ↦ rw full (
          extended-Running Message message_id get_messages at_most_limit before_offset max_messages
            page_size start last f r page limit room m ms got i is e)
    ]

    receive-holds :
        (o : Option (List Message))
        → get_messages page limit f.offset_id ≡ o
        → RoundHolds (receive message_id limit f o)
    unfolding receive
    receive-holds none got = (page, limit, f.offset_id, inl got)
    receive-holds (some []) got = ended-holds f r.holds
    receive-holds (some (m ∷ ms)) got =
        with_ids-holds m ms got (extract_ids message_id (m ∷ ms)) refl

  -- What the loop leaves, if it does not raise.
  abbrev LoopHolds : Option (Fetched Message) → Type 0
  LoopHolds none = Failed message_id get_messages max_messages
  LoopHolds (some f) = IsBounded f

  after_round : ℕ → ℕ → Round Message → Option (Fetched Message)
  after_round left page raised = none
  after_round left page (broke f) = some f
  after_round left page (went_on f) =
      fetch_pages message_id get_messages max_messages page_size left page f

  after_round-holds :
      (left page : ℕ) (o : Round Message)
      → RoundHolds o
      → ((f : Fetched Message)
          → IsRunning f
          → LoopHolds (fetch_pages message_id get_messages max_messages page_size left page f))
      → LoopHolds (after_round left page o)
  unfolding after_round
  after_round-holds left page raised h more = h
  after_round-holds left page (broke f) h more = h
  after_round-holds left page (went_on f) h more = more f h

  fetch_pages-suc :
      (left page : ℕ) (f : Fetched Message)
      → ltb (length f.messages) max_messages ≡ true
      → let limit = min page_size (max_messages - length f.messages) in
        fetch_pages message_id get_messages max_messages page_size (suc left) page f
        ≡ after_round left
            (suc page)
            (receive message_id limit f (get_messages page limit f.offset_id))
  unfolding fetch_pages after_round
  fetch_pages-suc left page f more =
      rw (fetch_pages, more)
        (let limit = min page_size (max_messages - length f.messages) in
          cases (receive message_id limit f (get_messages page limit f.offset_id)))
    where
      cases :
          (o : Round Message)
          → elim o [
            | raised ↦ none
            | broke f' ↦ some f'
            | went_on f' ↦
                fetch_pages message_id get_messages max_messages page_size left (suc page) f'
          ]
            ≡ after_round left (suc page) o
      cases raised = refl
      cases (broke f') = refl
      cases (went_on f') = refl

  fetch_pages-holds :
      (left page : ℕ) (f : Fetched Message)
      → IsRunning f
      → LoopHolds (fetch_pages message_id get_messages max_messages page_size left page f)
  fetch_pages-holds zero page f r = unfold fetch_pages in r.holds
  fetch_pages-holds (suc left) page f r = elim (Bool-cases (ltb (length f.messages) max_messages)) [
    | inr full ↦ unfold fetch_pages in rw (LoopHolds, full) r.holds
    | inl more ↦
        let limit = min page_size (max_messages - length f.messages) in
        rw (fetch_pages-suc left page f more) (
          after_round-holds left (suc page)
            (receive message_id limit f (get_messages page limit f.offset_id))
            (receive-holds f r page limit (ground arith) (get_messages page limit f.offset_id) refl)
            (λ f' r'. fetch_pages-holds left (suc page) f' r'))
  ]

  poll_result-outcome :
      (polled_at : ℕ) (o : Option (Fetched Message))
      → LoopHolds o
      → PollOutcome message_id get_messages max_messages start last
          (poll_result message_id get_messages max_messages page_size polled_at o)
  poll_result-outcome polled_at none h = h
  poll_result-outcome polled_at (some f) h = elim (Bool-cases f.exhausted) [
    | inl e ↦ rw e (ended-holds f h)
    | inr e ↦ rw e h
  ]

module _ (Message : Type 0) (message_id : Message → Option ℕ)
    (get_messages : ℕ → ℕ → Option ℕ → Option (List Message))
    (at_most_limit : (k l : ℕ) (o : Option ℕ) (ms : List Message)
      → get_messages k l o ≡ some ms
      → length ms ≤ l)
    (before_offset : (k l o : ℕ) (ms : List Message) (ids : List ℕ)
      → get_messages k l (some o) ≡ some ms
      → extract_ids message_id ms ≡ some ids
      → All (λ j. j < o) ids)
    (max_messages page_size : ℕ) where
  -- From a client that returns no more messages than asked for, all of them before the offset
  -- that it is given, a poll raises only if the client does or a message has no id; else it
  -- returns at most `max_messages` messages, all of them before the cursor's offset and none
  -- before the next one, and the cursor's newest id becomes the newest of it and theirs.
  pub fetch_bounded_messages_outcome :
      (cursor : Option ChannelCursor) (max_pages polled_at : ℕ)
      → PollOutcome message_id get_messages max_messages (offset_of cursor) (last_id cursor) (
          fetch_bounded_messages message_id get_messages max_messages page_size cursor max_pages
            polled_at)
  unfolding fetch_bounded_messages extract_ids
  fetch_bounded_messages_outcome cursor max_pages polled_at =
      elim (Bool-cases (max_pages == 0 || max_messages == 0)) [
        | inl idle ↦
            rw (fetch_bounded_messages, idle)
              (record {
                ids = [];
                extracted = refl;
                at_most = omega arith;
                newest_of = refl;
                before_start = λ o e. tt;
                from_offset = λ o e. tt;
              })
        | inr busy ↦
            rw (fetch_bounded_messages, busy)
              (poll_result-outcome Message message_id get_messages at_most_limit before_offset
                max_messages page_size (offset_of cursor) (last_id cursor) polled_at _
                (fetch_pages-holds Message message_id get_messages at_most_limit before_offset
                  max_messages page_size (offset_of cursor) (last_id cursor) max_pages 0
                  (record {
                    messages = [];
                    most_recent_id = last_id cursor;
                    offset_id = offset_of cursor;
                    exhausted = false;
                  })
                  (record {
                    holds = record {
                      ids = [];
                      extracted = refl;
                      at_most = omega arith;
                      newest_of = refl;
                      before_start = λ o e. tt;
                      from_offset = λ o e. tt;
                    };
                    going = refl;
                    within = λ o e. (o, e, omega arith);
                    nothing_yet = λ e. refl;
                  })))
      ]
