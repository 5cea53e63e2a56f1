-- ===== src/Login/Progress.antt =====
-- The login is a state machine: of requests that run one at a time, each moves a session forward, or leaves
-- it, or deletes it.
use tca.Base.{
  ℕ, ◌≡◌, refl, sym, ap, ◌∙◌, Bool, true, false, Option, none, some, List, [], ◌∷◌, find_row, Text,
  some_inj,
}
use tca.Secrets.{get_sensitive_operation_secret}
use tca.AuthSessions.{
  AuthStatus, code_sent, password_required, authenticated, AuthSessionState, has_id, Creation,
  opened, invalid_expiry, taken, Lookup, found, missing, expired, create_session, get_session,
  update_status,
}
use tca.AuthSessions.Expiry.{get_session-found}
use tca.AuthSessions.Changes.{
  comes_before, Advances, Follows, Follows-refl, Follows-delete, Follows-update, Follows-create,
}
use tca.Vault.{
  StoredAccount, Stored, stored, ambiguous, AccountId, no_account, ambiguous_phone, account_id,
  get_account_id_by_phone_number, upsert_account, Keyring, resolve_key_encryption_key,
}
use tca.Login.{
  PhoneError, LoginState, noted, Answer, CodeRequest, sent, not_sent, api_id_invalid, phone_refused,
  started_answer, start_telegram_auth, record_auth_failure, breach_for, breach_of_phone,
  failure_answer,
}
use tca.Login.Verify.{
  Credentials, SignIn, signed_in, password_needed, code_invalid, code_expired, wrong_api_id,
  refused_phone, PasswordSignIn, accepted, password_invalid, wrong_api, refused_number,
  updated_answer, Persisted, persisted, not_persisted, persist_account, persist_with,
  authenticate_with, authenticate_text, authenticate, password_wanted, code_signed, code_unlocked,
  code_status, code_found, verify_telegram_code, password_signed, password_unlocked,
  password_session, password_status, password_found, verify_telegram_password,
}

pub data LoginRequest : Type 0 where
  starts : Text → Text → CodeRequest → ℕ → LoginRequest
  verifies_code : SignIn → Credentials → Text → ℕ → ℕ → LoginRequest
  verifies_password : PasswordSignIn → Credentials → Text → ℕ → ℕ → LoginRequest

failed-sessions :
    (e : PhoneError) (r : Bool × LoginState) → (failure_answer e r).1.sessions ≡ r.1.sessions
failed-sessions e (true, s) = refl
failed-sessions e (false, s) = refl

breach-sessions :
    (now : ℕ) (s : LoginState) (a : AccountId) → (breach_for now s a).1.sessions ≡ s.sessions
breach-sessions now s no_account = refl
breach-sessions now s ambiguous_phone = refl
breach-sessions now s (account_id i) = refl

failure-sessions :
    (e : PhoneError) (phone : Text) (now : ℕ) (s : LoginState)
    → (record_auth_failure e phone now s).1.sessions ≡ s.sessions
unfolding record_auth_failure
failure-sessions e [] now s = failed-sessions e (breach_of_phone [] now (noted e s))
failure-sessions e (x ∷ xs) now s =
    failed-sessions e (breach_of_phone (x ∷ xs) now (noted e s))
    ∙ breach-sessions now (noted e s) (get_account_id_by_phone_number (x ∷ xs) s.accounts)

updated-sessions :
    (s : LoginState) (r : Lookup × List AuthSessionState) → (updated_answer s r).1.sessions ≡ r.1
updated-sessions s (found row, rows) = refl
updated-sessions s (missing, rows) = refl
updated-sessions s (expired, rows) = refl

started-sessions :
    (s : LoginState) (r : Creation × List AuthSessionState) → (started_answer s r).1.sessions ≡ r.1
started-sessions s (opened row, rows) = refl
started-sessions s (invalid_expiry, rows) = refl
started-sessions s (taken, rows) = refl

module _ (encrypt : Text → Text → Text) (derive : Text → Text → Text) where
  -- Requests that run one at a time: each reads the sessions that the one before left.
  unfoldable pub respond : LoginRequest → LoginState → Answer × LoginState
  unfolding start_telegram_auth verify_telegram_code verify_telegram_password
  respond (starts phone i outcome now) s = start_telegram_auth phone i outcome now s
  respond (verifies_code outcome c salt read_at now) s =
      verify_telegram_code encrypt derive outcome c salt read_at now s.sessions s
  respond (verifies_password outcome c salt read_at now) s =
      verify_telegram_password encrypt derive outcome c salt read_at now s.sessions s

  abbrev KeepsSessions : Persisted → List AuthSessionState → Type 0
  KeepsSessions (persisted s') rows = s'.sessions ≡ rows
  KeepsSessions (not_persisted e s') rows = s'.sessions ≡ rows

  account-sessions :
      (t key : Text) (s : LoginState) (r : Stored × List StoredAccount)
      → KeepsSessions (persist_account encrypt derive t key s r) s.sessions
  account-sessions t key s (ambiguous, accounts) = refl
  account-sessions t key s (stored i, accounts) = refl

  with-sessions :
      (c : Credentials) (phone : Text) (s : LoginState) (r : Option Text × Keyring)
      → KeepsSessions (persist_with encrypt derive c phone r s) s.sessions
  with-sessions c phone s (none, ring) = refl
  with-sessions c phone s (some key, ring) =
      account-sessions c.session_string key (record s { keyring = ring })
        (upsert_account encrypt c.api_id c.api_hash (some phone) key s.accounts)

  -- A session that may be authenticated.
  module _ (c : Credentials) (salt : Text) (now : ℕ) (s : LoginState) (row : AuthSessionState)
      (there : find_row (has_id c.session_id) s.sessions ≡ some row) where
    may_become :
        (status : AuthStatus)
        → comes_before row.status status ≡ true
        → (r : AuthSessionState) → find_row (has_id c.session_id) s.sessions ≡ some r
        → comes_before r.status status ≡ true
    may_become status h r found_ =
        ap (λ (x : AuthSessionState). comes_before x.status status) (some_inj (sym found_ ∙ there))
        ∙ h

    abbrev GoesOn : LoginState → Type 0
    GoesOn s' = Follows s.sessions s'.sessions

    updated_moves :
        (status : AuthStatus) (telegram : Option (Option Text)) (s' : LoginState)
        → comes_before row.status status ≡ true
        → s'.sessions ≡ s.sessions
        → GoesOn (updated_answer s' (update_status c.session_id status telegram now s'.sessions)).1
    updated_moves status telegram s' h e =
        rw (updated-sessions s' (update_status c.session_id status telegram now s'.sessions), e)
          (Follows-update c.session_id status telegram s.sessions (may_become status h) now)

    text_moves :
        (t phone : Text) (telegram : Option (Option Text))
        → comes_before row.status authenticated ≡ true
        → GoesOn (authenticate_text encrypt derive t c phone salt telegram now s).1
    text_moves [] phone telegram h = Follows-refl s.sessions
    text_moves (x ∷ xs) phone telegram h =
        after_persist
          (persist_with encrypt derive c phone (resolve_key_encryption_key derive salt s.keyring) s)
          (with-sessions c phone s (resolve_key_encryption_key derive salt s.keyring))
      where
        after_persist :
            (q : Persisted)
            → KeepsSessions q s.sessions
            → Follows s.sessions
                (authenticate_with encrypt derive c.session_id telegram now q).1.sessions
        after_persist (persisted s') e = updated_moves authenticated telegram s' h e
        after_persist (not_persisted err s') e = rw e (Follows-refl s.sessions)

    authenticated_moves :
        (phone : Text) (telegram : Option (Option Text))
        → comes_before row.status authenticated ≡ true
        → GoesOn (authenticate encrypt derive c phone salt telegram now s).1
    unfolding authenticate
    authenticated_moves phone telegram h = text_moves c.session_string phone telegram h

    wanted_moves :
        (t : Text)
        → comes_before row.status password_required ≡ true
        → GoesOn (password_wanted encrypt derive t c.session_id now s).1
    wanted_moves [] h = Follows-refl s.sessions
    wanted_moves (x ∷ xs) h = updated_moves password_required (some (some (x ∷ xs))) s h refl

    refused_moves : (e : PhoneError) (phone : Text) → GoesOn (record_auth_failure e phone now s).1
    refused_moves e phone = rw (failure-sessions e phone now s) (Follows-refl s.sessions)

    code_signed_moves :
        (outcome : SignIn)
        → row.status ≡ code_sent
        → GoesOn (code_signed encrypt derive outcome c salt row now s).1
    code_signed_moves signed_in e =
        authenticated_moves row.phone_number none (ap (λ x. comes_before x authenticated) e)
    code_signed_moves password_needed e =
        wanted_moves c.session_string (ap (λ x. comes_before x password_required) e)
    code_signed_moves code_invalid e = Follows-refl s.sessions
    code_signed_moves code_expired e =
        Follows-delete c.session_id s.sessions s.sessions (Follows-refl s.sessions)
    code_signed_moves (refused_phone err) e = refused_moves err row.phone_number
    code_signed_moves wrong_api_id e = Follows-refl s.sessions

    code_unlocked_moves :
        (outcome : SignIn) (secret : Option Text)
        → row.status ≡ code_sent
        → GoesOn (code_unlocked encrypt derive outcome c salt row now s secret).1
    code_unlocked_moves outcome none e = Follows-refl s.sessions
    code_unlocked_moves outcome (some secret) e = code_signed_moves outcome e

    code_status_moves :
        (outcome : SignIn) (status : AuthStatus)
        → row.status ≡ status
        → GoesOn (code_status encrypt derive status outcome c salt row now s).1
    code_status_moves outcome code_sent e =
        code_unlocked_moves outcome (get_sensitive_operation_secret s.keyring.unlock) e
    code_status_moves outcome password_required e = Follows-refl s.sessions
    code_status_moves outcome authenticated e = Follows-refl s.sessions

    password_signed_moves :
        (outcome : PasswordSignIn)
        → row.status ≡ password_required
        → GoesOn (password_signed encrypt derive outcome c salt row now s).1
    password_signed_moves accepted e =
        authenticated_moves row.phone_number (some none) (ap (λ x. comes_before x authenticated) e)
    password_signed_moves password_invalid e = Follows-refl s.sessions
    password_signed_moves (refused_number err) e = refused_moves err row.phone_number
    password_signed_moves wrong_api e = Follows-refl s.sessions

    password_unlocked_moves :
        (outcome : PasswordSignIn) (secret : Option Text)
        → row.status ≡ password_required
        → GoesOn (password_unlocked encrypt derive outcome c salt row now s secret).1
    password_unlocked_moves outcome none e = Follows-refl s.sessions
    password_unlocked_moves outcome (some secret) e = password_signed_moves outcome e

    password_session_moves :
        (outcome : PasswordSignIn) (telegram : Option Text)
        → row.status ≡ password_required
        → GoesOn (password_session encrypt derive outcome c salt row now s telegram).1
    password_session_moves outcome none e = Follows-refl s.sessions
    password_session_moves outcome (some []) e = Follows-refl s.sessions
    password_session_moves outcome (some (x ∷ xs)) e =
        password_unlocked_moves outcome (get_sensitive_operation_secret s.keyring.unlock) e

    password_status_moves :
        (outcome : PasswordSignIn) (status : AuthStatus)
        → row.status ≡ status
        → GoesOn (password_status encrypt derive status outcome c salt row now s).1
    password_status_moves outcome code_sent e = Follows-refl s.sessions
    password_status_moves outcome authenticated e = Follows-refl s.sessions
    password_status_moves outcome password_required e =
        password_session_moves outcome row.telegram_session e

  module _ (read_at now : ℕ) (s : LoginState) (c : Credentials) (salt : Text) where
    code_found_moves :
        (outcome : SignIn) (r : Lookup)
        → (get_session c.session_id read_at s.sessions).0 ≡ r
        → Follows s.sessions (code_found encrypt derive outcome c salt now s r).1.sessions
    code_found_moves outcome missing e = Follows-refl s.sessions
    code_found_moves outcome expired e =
        Follows-delete c.session_id s.sessions s.sessions (Follows-refl s.sessions)
    code_found_moves outcome (found row) e =
        let (there, live, same_rows) = get_session-found c.session_id read_at s.sessions row e in
        code_status_moves c salt now s row there outcome row.status refl

    password_found_moves :
        (outcome : PasswordSignIn) (r : Lookup)
        → (get_session c.session_id read_at s.sessions).0 ≡ r
        → Follows s.sessions (password_found encrypt derive outcome c salt now s r).1.sessions
    password_found_moves outcome missing e = Follows-refl s.sessions
    password_found_moves outcome expired e =
        Follows-delete c.session_id s.sessions s.sessions (Follows-refl s.sessions)
    password_found_moves outcome (found row) e =
        let (there, live, same_rows) = get_session-found c.session_id read_at s.sessions row e in
        password_status_moves c salt now s row there outcome row.status refl

  start_moves :
      (phone i : Text) (outcome : CodeRequest) (now : ℕ) (s : LoginState)
      → Follows s.sessions (start_telegram_auth phone i outcome now s).1.sessions
  unfolding start_telegram_auth
  start_moves phone i sent now s =
      rw (started-sessions s (create_session i phone code_sent none none none now s.sessions))
        (Follows-create i phone code_sent now s.sessions)
  start_moves phone i not_sent now s = Follows-refl s.sessions
  start_moves phone i api_id_invalid now s = Follows-refl s.sessions
  start_moves phone i (phone_refused e) now s =
      rw (failure-sessions e phone now s) (Follows-refl s.sessions)

  respond-Follows :
      (q : LoginRequest) (s : LoginState) → Follows s.sessions (respond q s).1.sessions
  unfolding respond verify_telegram_code verify_telegram_password
  respond-Follows (starts phone i outcome now) s = start_moves phone i outcome now s
  respond-Follows (verifies_code outcome c salt read_at now) s =
      code_found_moves read_at now s c salt outcome (get_session c.session_id read_at s.sessions).0
        refl
  respond-Follows (verifies_password outcome c salt read_at now) s =
      password_found_moves read_at now s c salt outcome
        (get_session c.session_id read_at s.sessions).0 refl

  -- When requests of the login run one at a time, so that each reads the sessions that the one
  -- before left, a request, to start the login or to verify a code or a password, whatever
  -- Telegram answers, moves a session that is there before and after it only forward in the order
  -- code sent, password required, authenticated, or leaves its status; its phone number and its
  -- expiry do not change.
  pub respond-Advances :
      (q : LoginRequest) (s : LoginState) (k : Text) (row row' : AuthSessionState)
      → find_row (has_id k) s.sessions ≡ some row
      → find_row (has_id k) (respond q s).1.sessions ≡ some row'
      → Advances row row'
  respond-Advances q s k row row' before after = respond-Follows q s k row row' before after
