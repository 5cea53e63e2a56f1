-- ===== src/Ingest.antt =====
-- tca/ingest/service.py: one bounded fetch of a channel's messages.
pub mod Bounds
pub mod Poll
mod Tests
use tca.Base.{
  ℕ, zero, suc, ◌+◌, ◌-◌, Bool, true, false, Option, none, some, List, [], ◌∷◌, ◌++◌, min, max, ltb,
  ◌||◌, ◌==◌, if◌then◌else◌, length,
}

pub record ChannelCursor : Type 0 where
  pub last_message_id : Option ℕ
  pub next_offset_id : Option ℕ
  pub last_polled_at : ℕ

-- `most_recent_id is None or batch_max > most_recent_id`.
abbrev pub newer : Option ℕ → ℕ → ℕ
newer none i = i
newer (some j) i = if ltb j i then i else j

-- `max` and `min` of a list with the first element `i`.
abbrev pub maximum : ℕ → List ℕ → ℕ
maximum i [] = i
maximum i (j ∷ js) = maximum (max i j) js

abbrev pub minimum : ℕ → List ℕ → ℕ
minimum i [] = i
minimum i (j ∷ js) = minimum (min i j) js

abbrev pub last_id : Option ChannelCursor → Option ℕ
last_id none = none
last_id (some c) = c.last_message_id

abbrev pub offset_of : Option ChannelCursor → Option ℕ
offset_of none = none
offset_of (some c) = c.next_offset_id

-- A message is an object that may have an integer `id`.
module _ {Message : Type 0} (message_id : Message → Option ℕ) where
  -- `[_extract_message_id(message) for message in batch]`; a missing id raises ValueError.
  unfoldable pub extract_ids : List Message → Option (List ℕ)
  extract_ids [] = some []
  extract_ids (m ∷ ms) = elim (message_id m) [
    | none ↦ none
    | some i ↦ elim (extract_ids ms) [ none ↦ none | some is ↦ some (i ∷ is) ]
  ]

module _ (Message : Type 0) where
  -- The variables of the loop.
  pub record Fetched : Type 0 where
    pub messages : List Message
    pub most_recent_id : Option ℕ
    pub offset_id : Option ℕ
    pub exhausted : Bool

  pub record BoundedPaginationResult : Type 0 where
    pub messages : List Message
    pub cursor : ChannelCursor

  -- A round of the loop raises, breaks, or goes on.
  pub data Round : Type 0 where
    raised : Round
    broke : Fetched → Round
    went_on : Fetched → Round

module _ {Message : Type 0} (message_id : Message → Option ℕ) where
  abbrev pub extended : Fetched Message → List Message → ℕ → List ℕ → Fetched Message
  extended f batch i is = record {
    messages = f.messages ++ batch;
    most_recent_id = some (newer f.most_recent_id (maximum i is));
    offset_id = some (minimum i is);
    exhausted = f.exhausted;
  }

  abbrev pub ended : Fetched Message → Fetched Message
  ended f = record f { offset_id = none; exhausted = true }

  abbrev pub with_ids : ℕ → Fetched Message → List Message → Option (List ℕ) → Round Message
  with_ids page_limit f batch none = raised
  with_ids page_limit f batch (some []) = raised
  with_ids page_limit f batch (some (i ∷ is)) =
      if ltb (length batch) page_limit
      then broke (ended (extended f batch i is))
      else went_on (extended f batch i is)

  -- The body of the loop, after the call of the client; `none` is an exception of the client.
  unfoldable pub receive : ℕ → Fetched Message → Option (List Message) → Round Message
  unfolding extract_ids
  receive page_limit f none = raised
  receive page_limit f (some []) = broke (ended f)
  receive page_limit f (some (m ∷ ms)) =
      with_ids page_limit f (m ∷ ms) (extract_ids message_id (m ∷ ms))

  -- The client's `get_messages`: what the call of a number returns for a limit and an offset.
  module _ (get_messages : ℕ → ℕ → Option ℕ → Option (List Message))
      (max_messages page_size : ℕ) where
    -- The loop, with the pages that it may still fetch, and the number of its next call.
    unfoldable pub fetch_pages : ℕ → ℕ → Fetched Message → Option (Fetched Message)
    unfolding receive
    fetch_pages zero page f = some f
    fetch_pages (suc left) page f = elim (ltb (length f.messages) max_messages) [
      | false ↦ some f
      | true ↦
          let page_limit = min page_size (max_messages - length f.messages) in
          elim (receive page_limit f (get_messages page page_limit f.offset_id)) [
            | raised ↦ none
            | broke f' ↦ some f'
            | went_on f' ↦ fetch_pages left (suc page) f'
          ]
    ]

    abbrev pub poll_result : ℕ → Option (Fetched Message) → Option (BoundedPaginationResult Message)
    poll_result polled_at none = none
    poll_result polled_at (some f) = some (record {
      messages = f.messages;
      cursor = record {
        last_message_id = f.most_recent_id;
        next_offset_id = if f.exhausted then none else f.offset_id;
        last_polled_at = polled_at;
      };
    })

    -- `fetch_bounded_messages`; a limit that is negative counts as 0.
    unfoldable pub fetch_bounded_messages :
        Option ChannelCursor → ℕ → ℕ → Option (BoundedPaginationResult Message)
    unfolding fetch_pages
    fetch_bounded_messages cursor max_pages polled_at =
        if max_pages == 0 || max_messages == 0
        then some (record {
          messages = [];
          cursor = record {
            last_message_id = last_id cursor;
            next_offset_id = offset_of cursor;
            last_polled_at = polled_at;
          };
        })
        else poll_result polled_at (
            fetch_pages max_pages 0 (record {
              messages = [];
              most_recent_id = last_id cursor;
              offset_id = offset_of cursor;
              exhausted = false;
            }))
