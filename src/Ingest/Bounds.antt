-- ===== src/Ingest/Bounds.antt =====
-- What a bounded fetch returns, from a client that keeps its limit and pages backwards.
use tca.Base.{
  ℕ, ◌+◌, ◌≤◌, ◌<◌, ◌≡◌, refl, sym, ap, ◌∙◌, ◌⊎◌, inl, inr, false, Option, none, some, List, [],
  ◌∷◌, ◌++◌, min, max, length, length-append, All, All-imp, All-append, arith, Option-cases,
  some_inj,
}
use tca.Ingest.{newer, maximum, minimum, extract_ids, Fetched, BoundedPaginationResult, extended}

-- The newest id, starting from one that may be known.
abbrev pub newest : Option ℕ → List ℕ → Option ℕ
newest o [] = o
newest o (i ∷ is) = newest (some (newer o i)) is

newer-max : (o : Option ℕ) (i j : ℕ) → newer (some (newer o i)) j ≡ newer o (max i j)
newer-max none i j = ground arith
newer-max (some k) i j = ground arith

newest-maximum :
    (o : Option ℕ) (i : ℕ) (is : List ℕ) → newest o (i ∷ is) ≡ some (newer o (maximum i is))
newest-maximum o i [] = refl
newest-maximum o i (j ∷ js) =
    ap (λ k. newest (some k) js) (newer-max o i j) ∙ newest-maximum o (max i j) js

newest-append : (o : Option ℕ) (xs ys : List ℕ) → newest o (xs ++ ys) ≡ newest (newest o xs) ys
newest-append o [] ys = refl
newest-append o (x ∷ xs) ys = newest-append (some (newer o x)) xs ys

minimum_le : (i : ℕ) (is : List ℕ) → (minimum i is ≤ i) × All (λ j. minimum i is ≤ j) is
minimum_le i [] = (omega arith, tt)
minimum_le i (j ∷ js) = let (a, b) = minimum_le (min i j) js in (omega arith, (omega arith, b))

module _ {Message : Type 0} (message_id : Message → Option ℕ) where
  extract_ids-append :
      (xs ys : List Message) (is js : List ℕ)
      → extract_ids message_id xs ≡ some is
      → extract_ids message_id ys ≡ some js
      → extract_ids message_id (xs ++ ys) ≡ some (is ++ js)
  unfolding extract_ids
  extract_ids-append [] ys is js h k = ground (arith, some_inj h)
  extract_ids-append (m ∷ ms) ys is js h k = elim (Option-cases (message_id m)) [
    | inl e ↦ ground arith
    | inr (i, e) ↦ elim (Option-cases (extract_ids message_id ms)) [
      | inl e' ↦ ground arith
      | inr (is', e') ↦
          let split : extract_ids message_id (m ∷ ms) ≡ some (i ∷ is') =
            rw (extract_ids, e, e') refl in
          rw (sym (some_inj (sym split ∙ h)))
            (rw (extract_ids, e, extract_ids-append ms ys is' js e' k) refl)
    ]
  ]

  pub some_ids : (m : Message) (ms : List Message) → extract_ids message_id (m ∷ ms) ≡ some [] → ⊥
  unfolding extract_ids
  some_ids m ms h = elim (Option-cases (message_id m)) [
    | inl e ↦ ground arith
    | inr (i, e) ↦ elim (Option-cases (extract_ids message_id ms)) [
      | inl e' ↦ ground arith
      | inr (is, e') ↦ ground arith
    ]
  ]

-- What holds of the messages of one fetch: `start` is the offset that it began at, `last` the newest
-- id before it, `newest_id` and `next_offset` what it leaves.
pub record Bounded {Message : Type 0} (message_id : Message → Option ℕ) (max_messages : ℕ)
    (start last : Option ℕ) (messages : List Message) (newest_id next_offset : Option ℕ)
    : Type 0 where
  pub ids : List ℕ
  pub extracted : extract_ids message_id messages ≡ some ids
  pub at_most : length messages ≤ max_messages
  pub newest_of : newest_id ≡ newest last ids
  pub before_start : (o : ℕ) → start ≡ some o → All (λ j. j < o) ids
  pub from_offset : (o : ℕ) → next_offset ≡ some o → All (λ j. o ≤ j) ids

module _ {Message : Type 0} (message_id : Message → Option ℕ)
    (get_messages : ℕ → ℕ → Option ℕ → Option (List Message)) (max_messages : ℕ) where
  -- The client raised, or a message came without an id.
  abbrev pub Failed : Type 0
  Failed =
      (k : ℕ) × (l : ℕ) × (o : Option ℕ) × ((get_messages k l o ≡ none)
        ⊎ ((ms : List Message) × (get_messages k l o ≡ some ms)
            × (extract_ids message_id ms ≡ none)))

  -- A poll raises only if the client does or a message has no id; else it returns a bounded result.
  abbrev pub PollOutcome : Option ℕ → Option ℕ → Option (BoundedPaginationResult Message) → Type 0
  PollOutcome start last none = Failed
  PollOutcome start last (some r) =
      Bounded message_id max_messages start last r.messages r.cursor.last_message_id
        r.cursor.next_offset_id

module _ (Message : Type 0) (message_id : Message → Option ℕ)
    (get_messages : ℕ → ℕ → Option ℕ → Option (List Message))
    (at_most_limit : (k l : ℕ) (o : Option ℕ) (ms : List Message)
      → get_messages k l o ≡ some ms
      → length ms ≤ l)
    (before_offset : (k l o : ℕ) (ms : List Message) (ids : List ℕ)
      → get_messages k l (some o) ≡ some ms
      → extract_ids message_id ms ≡ some ids
      → All (λ j. j < o) ids)
    (max_messages page_size : ℕ) (start last : Option ℕ) where
  abbrev pub Holds : Fetched Message → Type 0
  Holds f = Bounded message_id max_messages start last f.messages f.most_recent_id f.offset_id

  -- While the loop runs, its offset is no later than where it started, and is there once it has a
  -- message.
  pub record Running (f : Fetched Message) : Type 0 where
    pub holds : Holds f
    pub going : f.exhausted ≡ false
    pub within : (o : ℕ) → start ≡ some o → (o' : ℕ) × (f.offset_id ≡ some o') × (o' ≤ o)
    pub nothing_yet : f.offset_id ≡ none → holds.ids ≡ []

  module _ (f : Fetched Message) (r : Running f) (page limit : ℕ)
      (room : length f.messages + limit ≤ max_messages) (m : Message) (ms : List Message)
      (got : get_messages page limit f.offset_id ≡ some (m ∷ ms)) (i : ℕ) (is : List ℕ)
      (ids : extract_ids message_id (m ∷ ms) ≡ some (i ∷ is)) where
    batch_before : (o : ℕ) → f.offset_id ≡ some o → All (λ j. j < o) (i ∷ is)
    batch_before o e = before_offset page limit o (m ∷ ms) (i ∷ is) (rw (sym e) got) ids

    old_above : All (λ j. minimum i is ≤ j) r.holds.ids
    old_above = elim (Option-cases f.offset_id) [
      | inl e ↦ rw (r.nothing_yet e) tt
      | inr (o, e) ↦
          All-imp (λ j. o ≤ j) (λ j. minimum i is ≤ j) r.holds.ids
            (λ j h.
              let low = (batch_before o e).0 in let least = (minimum_le i is).0 in omega arith)
            (r.holds.from_offset o e)
    ]

    batch_before_start : (o : ℕ) → start ≡ some o → All (λ j. j < o) (i ∷ is)
    batch_before_start o e =
        let (o', e', le) = r.within o e in
        All-imp (λ j. j < o') (λ j. j < o) (i ∷ is) (λ j h. omega arith) (batch_before o' e')

    pub extended-Holds : Holds (extended message_id f (m ∷ ms) i is)
    extended-Holds = record {
      ids = r.holds.ids ++ i ∷ is;
      extracted =
          extract_ids-append message_id f.messages (m ∷ ms) r.holds.ids (i ∷ is) r.holds.extracted
            ids;
      at_most =
          let total = length-append f.messages (m ∷ ms) in
          let page_bound = at_most_limit page limit f.offset_id (m ∷ ms) got in omega arith;
      newest_of =
          sym (newest-maximum f.most_recent_id i is)
          ∙ ap (λ o. newest o (i ∷ is)) r.holds.newest_of
          ∙ sym (newest-append last r.holds.ids (i ∷ is));
      before_start = λ o e.
          All-append (λ j. j < o) r.holds.ids (i ∷ is) (r.holds.before_start o e)
            (batch_before_start o e);
      from_offset = λ o e.
          let same : minimum i is ≡ o = some_inj e in
          rw (sym same)
            (All-append (λ j. minimum i is ≤ j) r.holds.ids (i ∷ is) old_above (minimum_le i is));
    }

    pub extended-Running : Running (extended message_id f (m ∷ ms) i is)
    extended-Running = record {
      holds = extended-Holds;
      going = r.going;
      within = λ o e.
          let (o', e', le) = r.within o e in
          (
            minimum i is,
            refl,
            (let low = (batch_before o' e').0 in let least = (minimum_le i is).0 in omega arith),
          );
      nothing_yet = λ e. cc;
    }
