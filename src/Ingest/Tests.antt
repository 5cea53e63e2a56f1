-- ===== src/Ingest/Tests.antt =====
-- A poll of a channel of five messages, and the theorem at it.
use tca.Base.{
  ℕ, zero, suc, ◌≤◌, ◌<◌, ◌≡◌, refl, Option, none, some, List, [], ◌∷◌, ltb, keep, take, length,
  length-take, All, arith, some_inj, ◌∙◌, sym,
}
use tca.Ingest.{ChannelCursor, extract_ids, fetch_bounded_messages}
use tca.Ingest.Bounds.{PollOutcome}
use tca.Ingest.Poll.{fetch_bounded_messages_outcome}

-- A message is its id.
abbrev message_id : ℕ → Option ℕ
message_id i = some i

abbrev older_than : Option ℕ → List ℕ → List ℕ
older_than none ms = ms
older_than (some o) ms = keep (λ i. ltb i o) ms

abbrev channel : List ℕ
channel = 9 ∷ 7 ∷ 5 ∷ 4 ∷ 2 ∷ []

abbrev get_messages : ℕ → ℕ → Option ℕ → Option (List ℕ)
get_messages call limit offset = some (take limit (older_than offset channel))

at_most_limit :
    (k l : ℕ) (o : Option ℕ) (ms : List ℕ) → get_messages k l o ≡ some ms → length ms ≤ l
at_most_limit k l o ms h =
    let e : take l (older_than o channel) ≡ ms = some_inj h in
    let n = length-take l (older_than o channel) in ground arith

ids_same : (ms : List ℕ) → extract_ids message_id ms ≡ some ms
unfolding extract_ids
ids_same [] = refl
ids_same (m ∷ ms) = rw (ids_same ms)

All-take : (o l : ℕ) (ms : List ℕ) → All (λ j. j < o) ms → All (λ j. j < o) (take l ms)
All-take o zero ms h = tt
All-take o (suc l) [] h = tt
All-take o (suc l) (m ∷ ms) h = (h.0, All-take o l ms h.1)

All-keep : (o : ℕ) (ms : List ℕ) → All (λ j. j < o) (keep (λ i. ltb i o) ms)
unfolding keep
All-keep o [] = tt
All-keep o (m ∷ ms) = ground (arith, All-keep o ms)

before_offset :
    (k l o : ℕ) (ms ids : List ℕ)
    → get_messages k l (some o) ≡ some ms
    → extract_ids message_id ms ≡ some ids
    → All (λ j. j < o) ids
before_offset k l o ms ids h e =
    let same : take l (keep (λ i. ltb i o) channel) ≡ ids =
      some_inj h ∙ some_inj (sym (ids_same ms) ∙ e) in
    rw (sym same) (All-take o l (keep (λ i. ltb i o) channel) (All-keep o channel))

abbrev cursor : Option ChannelCursor
cursor = some (record { last_message_id = some 9; next_offset_id = some 9; last_polled_at = 0 })

fetch_bounded_messages_outcome_example :
    PollOutcome message_id get_messages 3
      (some 9)
      (some 9)
      (fetch_bounded_messages message_id get_messages 3 2 cursor 5 1)
fetch_bounded_messages_outcome_example =
    fetch_bounded_messages_outcome ℕ message_id get_messages at_most_limit before_offset 3 2 cursor
      5 1

-- Two pages of two and one messages.
fetch_run :
    fetch_bounded_messages message_id get_messages 3 2 cursor 5 1
    ≡ some (record {
      messages = 7 ∷ 5 ∷ 4 ∷ [];
      cursor = record { last_message_id = some 9; next_offset_id = some 4; last_polled_at = 1 };
    })
unfolding fetch_bounded_messages keep
fetch_run = refl
