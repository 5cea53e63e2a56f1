-- ===== src/AuthSessions/Tests.antt =====
-- A session of the login, and when it ends.
use tca.Base.{◌≡◌, refl, none, some, [], ◌∷◌, codes}
use tca.AuthSessions.{
  code_sent, authenticated, AuthSessionState, create_session, found, expired, get_session,
  update_status,
}
use tca.AuthSessions.Expiry.{Lifetime, create_session_outcome}

abbrev first : AuthSessionState
first = record {
  session_id = codes "a";
  phone_number = codes "+41";
  status = code_sent;
  expires_at = 1000;
  telegram_session = none;
}

create_session_outcome_example :
    Lifetime
      (codes "b")
      1400
      (first ∷ [])
      (create_session (codes "b") (codes "+42") code_sent none none none 500 (first ∷ []))
create_session_outcome_example =
    create_session_outcome (codes "b") (codes "+42") code_sent none none none 500 1400 (first ∷ [])
      refl

-- A session that expired is deleted by the next read, and an update of a live one is returned.
ended : get_session (codes "a") 1000 (first ∷ []) ≡ (expired, [])
unfolding get_session
ended = refl

updated : update_status (codes "a") authenticated (some none) 999 (first ∷ []) ≡ (
  found (record first { status = authenticated }),
  record first { status = authenticated } ∷ [],
)
unfolding update_status
updated = refl
