-- ===== src/AuthSessions/Expiry.antt =====
-- How long a session lives.
use tca.Base.{
  ℕ, ◌≤◌, ◌<◌, ◌≡◌, refl, sym, ap, ◌∙◌, inl, inr, Bool, true, false, not, Option, none, some, List,
  [], ◌∷◌, ◌++◌, arith, if◌then◌else◌, exists_row, keep, Bool-cases, find_row, find_row-append,
  find_row-keep, Text, same_refl,
}
use tca.AuthSessions.{
  AuthStatus, AuthSessionState, has_id, is_expired, Creation, opened, invalid_expiry, taken, expiry,
  create_session, delete_session, Lookup, found, missing, expired, unless_expired, get_session,
}

-- A deleted session is not found.
pub find_row-delete :
    (i : Text) (rows : List AuthSessionState) → find_row (has_id i) (delete_session i rows).1 ≡ none
unfolding delete_session
find_row-delete i rows =
    find_row-keep (has_id i) (λ s. not (has_id i s)) false rows (λ s h. rw h refl)

module _ (i phone : Text) (status : AuthStatus) (telegram : Option Text) (at : ℕ) where
  abbrev row : AuthSessionState
  row = record {
    session_id = i;
    phone_number = phone;
    status = status;
    expires_at = at;
    telegram_session = telegram;
  }

  find_new :
      (rows : List AuthSessionState)
      → exists_row (has_id i) rows ≡ false
      → find_row (has_id i) (rows ++ row ∷ []) ≡ some row
  unfolding find_row
  find_new rows free = rw (find_row-append (has_id i) rows (row ∷ []), free, same_refl i) refl

  -- Its deletion leaves the others.
  delete_new :
      (rows : List AuthSessionState)
      → exists_row (has_id i) rows ≡ false
      → (delete_session i (rows ++ row ∷ [])).1 ≡ rows
  unfolding delete_session exists_row keep
  delete_new [] free = rw (same_refl i) refl
  delete_new (x ∷ rows) free = elim (Bool-cases (has_id i x)) [
    | inl e ↦ absurd (true_false (sym (rw e refl) ∙ free))
    | inr e ↦
        rw e (ap (λ (l : List AuthSessionState). x ∷ l) (delete_new rows (sym (rw e refl) ∙ free)))
  ]
    where
      true_false : true ≡ false → ⊥
      true_false h = cc

module _ (i : Text) (now : ℕ) (rows : List AuthSessionState) where
  pub get_session-live :
      (s : AuthSessionState)
      → find_row (has_id i) rows ≡ some s
      → is_expired now s ≡ false
      → get_session i now rows ≡ (found s, rows)
  unfolding get_session
  get_session-live s e h = rw e (rw h refl)

  pub get_session-expired :
      (s : AuthSessionState)
      → find_row (has_id i) rows ≡ some s
      → is_expired now s ≡ true
      → get_session i now rows ≡ (expired, (delete_session i rows).1)
  unfolding get_session
  get_session-expired s e h = rw e (rw h refl)

  pub get_session-missing :
      find_row (has_id i) rows ≡ none → get_session i now rows ≡ (missing, rows)
  unfolding get_session
  get_session-missing e = rw e refl

-- A session that is found is there, and has not expired.
pub get_session-found :
    (i : Text) (now : ℕ) (rows : List AuthSessionState) (s : AuthSessionState)
    → (get_session i now rows).0 ≡ found s
    → (find_row (has_id i) rows ≡ some s)
      × (is_expired now s ≡ false)
      × ((get_session i now rows).1 ≡ rows)
unfolding get_session
get_session-found i now rows s h = at_row (find_row (has_id i) rows) refl h
  where
    at_row :
        (o : Option AuthSessionState)
        → find_row (has_id i) rows ≡ o
        → (unless_expired i now o rows).0 ≡ found s
        → (find_row (has_id i) rows ≡ some s)
          × (is_expired now s ≡ false)
          × ((unless_expired i now o rows).1 ≡ rows)
    at_row none e g = cc
    at_row (some r) e g = at_time (is_expired now r) refl g
      where
        at_time :
            (b : Bool)
            → is_expired now r ≡ b
            → (if◌then◌else◌ {A = Lookup × List AuthSessionState} b
                (expired, (delete_session i rows).1)
                (found r, rows)).0
              ≡ found s
            → (find_row (has_id i) rows ≡ some s)
              × (is_expired now s ≡ false)
              × ((if◌then◌else◌ {A = Lookup × List AuthSessionState} b
                    (expired, (delete_session i rows).1)
                    (found r, rows)).1
                  ≡ rows)
        at_time true t k = cc
        at_time false t k =
            let same_row : r ≡ s = cc in
            (e ∙ ap some same_row, sym (ap (is_expired now) same_row) ∙ t, refl)

-- What a new session is at a later time.
abbrev pub Lifetime : Text → ℕ → List AuthSessionState → Creation × List AuthSessionState → Type 0
Lifetime i at before (opened s, rows) =
    (exists_row (has_id i) before ≡ false)
    × (s.session_id ≡ i)
    × (s.expires_at ≡ at)
    × (rows ≡ before ++ s ∷ [])
    × ((later : ℕ) → later < at → get_session i later rows ≡ (found s, rows))
    × ((later : ℕ) → at ≤ later → get_session i later rows ≡ (expired, before))
    × ((later again : ℕ)
        → at ≤ later
        → (get_session i again (get_session i later rows).1).0 ≡ missing)
Lifetime i at before (invalid_expiry, rows) = ⊥
Lifetime i at before (taken, rows) = (exists_row (has_id i) before ≡ true) × (rows ≡ before)

-- With arguments that determine when the new session expires, `create_session` fails and changes
-- nothing when its id is taken; else the table is that of before with the session added at its
-- end; a read at a time before that one returns the session and changes nothing, and the first
-- read from then on reports it as expired and leaves exactly the table of before.
pub create_session_outcome :
    (i phone : Text) (status : AuthStatus) (telegram : Option Text) (expires_at ttl : Option ℕ)
    (now at : ℕ) (rows : List AuthSessionState)
    → expiry expires_at ttl now ≡ some at
    → Lifetime i at rows (create_session i phone status telegram expires_at ttl now rows)
unfolding create_session
create_session_outcome i phone status telegram expires_at ttl now at rows e =
    elim (Bool-cases (exists_row (has_id i) rows)) [
      | inl there ↦ rw (e, there) (there, refl)
      | inr free ↦
          let rows' = rows ++ row i phone status telegram at ∷ [] in
          let there = find_new i phone status telegram at rows free in
          rw (e, free)
            (
              free,
              refl,
              refl,
              refl,
              λ later h. get_session-live i later rows' _ there (ground arith),
              λ later h.
                  get_session-expired i later rows' _ there (ground arith)
                  ∙ ap (λ (l : List AuthSessionState). (expired, l))
                      (delete_new i phone status telegram at rows free),
              λ later again h.
                  ap (λ (x : Lookup × List AuthSessionState). (get_session i again x.1).0)
                    (get_session-expired i later rows' _ there (ground arith))
                  ∙ ap (λ (x : Lookup × List AuthSessionState). x.0)
                      (get_session-missing i again (delete_session i rows').1
                        (find_row-delete i rows')),
            )
    ]
