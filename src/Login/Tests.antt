-- ===== src/Login/Tests.antt =====
-- Logins with a code and with a password.
use tca.Base.{◌≡◌, refl, Option, none, some, [], ◌∷◌, find_row, Text, codes, same}
use tca.Secrets.{auto_unlock}
use tca.AuthSessions.{
  AuthStatus, code_sent, password_required, authenticated, AuthSessionState, has_id,
}
use tca.AuthSessions.Changes.{Advances}
use tca.Login.{LoginState, verified, refused, locked, session_expired}
use tca.Login.Verify.{
  Credentials, signed_in, password_needed, accepted, verify_telegram_code, verify_telegram_password,
}
use tca.Login.Code.{CodeOutcome, verify_telegram_code_outcome}
use tca.Login.Password.{PasswordOutcome, verify_telegram_password_outcome}
use tca.Login.Progress.{verifies_code, respond, respond-Advances}

-- An encryption that hides nothing, and a derivation that ignores the salt.
abbrev encrypt : Text → Text → Text
encrypt key t = 1 ∷ t

abbrev decrypt : Text → Text → Option Text
decrypt key [] = none
decrypt key (c ∷ cs) = some cs

abbrev opens : (key t : Text) → decrypt key (encrypt key t) ≡ some t
opens key t = refl

abbrev derive : Text → Text → Text
derive secret salt = secret

abbrev row : Text → AuthStatus → Option Text → AuthSessionState
row i status telegram = record {
  session_id = i;
  phone_number = codes "+41";
  status = status;
  expires_at = 1000;
  telegram_session = telegram;
}

abbrev waiting : AuthSessionState
waiting = row (codes "a") code_sent none

abbrev resumed : AuthSessionState
resumed = row (codes "b") password_required (some (codes "tg"))

abbrev state : Option Text → LoginState
state secret = record {
  sessions = waiting ∷ resumed ∷ [];
  accounts = [];
  keyring = record { unlock = record { mode = auto_unlock; unlock_secret = secret }; salt = none };
  notifications = [];
  risk = record { accounts = []; breaches = λ i. []; notifications = [] };
}

abbrev open_state : LoginState
open_state = state (some (codes "secret"))

abbrev credentials : Text → Credentials
credentials i = record {
  session_id = i;
  api_id = 7;
  api_hash = codes "hash";
  session_string = codes "session";
}

verify_telegram_code_outcome_example :
    CodeOutcome encrypt decrypt opens derive signed_in
      (credentials (codes "a"))
      (codes "salt")
      900
      open_state.sessions
      open_state
      (verify_telegram_code encrypt derive signed_in
        (credentials (codes "a"))
        (codes "salt")
        900
        901
        open_state.sessions
        open_state).1
verify_telegram_code_outcome_example =
    verify_telegram_code_outcome encrypt decrypt opens derive signed_in (credentials (codes "a"))
      (codes "salt") 900 901 open_state.sessions open_state

verify_telegram_password_outcome_example :
    PasswordOutcome encrypt decrypt opens derive accepted
      (credentials (codes "b"))
      (codes "salt")
      900
      open_state.sessions
      open_state
      (verify_telegram_password encrypt derive accepted
        (credentials (codes "b"))
        (codes "salt")
        900
        901
        open_state.sessions
        open_state).1
verify_telegram_password_outcome_example =
    verify_telegram_password_outcome encrypt decrypt opens derive accepted (credentials (codes "b"))
      (codes "salt") 900 901 open_state.sessions open_state

-- A code that was right, and one for which the client wants a password.
right_code :
    (verify_telegram_code encrypt derive signed_in
      (credentials (codes "a"))
      (codes "salt")
      900
      901
      open_state.sessions
      open_state).0
    ≡ verified (codes "a") authenticated
unfolding verify_telegram_code
right_code = refl

-- A session that expires while the account is stored.
late_code :
    (verify_telegram_code encrypt derive signed_in
      (credentials (codes "a"))
      (codes "salt")
      900
      1001
      open_state.sessions
      open_state).0
    ≡ refused session_expired
unfolding verify_telegram_code
late_code = refl

-- A locked process.
locked_code :
    (verify_telegram_code encrypt derive signed_in
      (credentials (codes "a"))
      (codes "salt")
      900
      901
      (state none).sessions
      (state none)).0
    ≡ refused locked
unfolding verify_telegram_code
locked_code = refl

-- Two verifications at once: one had read the session before the other authenticated it, and Telegram
-- then answers that a password is wanted. The session goes back.
abbrev authenticated_state : LoginState
authenticated_state = record open_state { sessions = row (codes "a") authenticated none ∷ [] }

went_back :
    (verify_telegram_code encrypt derive password_needed
      (credentials (codes "a"))
      (codes "salt")
      900
      901
      open_state.sessions
      authenticated_state).0
    ≡ verified (codes "a") password_required
unfolding verify_telegram_code
went_back = refl

abbrev wanting : AuthSessionState
wanting = record waiting { status = password_required; telegram_session = some (codes "session") }

respond-Advances_example : Advances waiting wanting
unfolding same
respond-Advances_example =
    respond-Advances encrypt derive
      (verifies_code password_needed (credentials (codes "a")) (codes "salt") 900 901) open_state
      (codes "a") waiting wanting (unfold find_row in refl) moved
  where
    moved :
        find_row
          (has_id (codes "a"))
          (respond encrypt derive
            (verifies_code password_needed (credentials (codes "a")) (codes "salt") 900 901)
            open_state).1.sessions
        ≡ some wanting
    moved = unfold respond in refl
