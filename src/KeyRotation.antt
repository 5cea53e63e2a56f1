-- ===== src/KeyRotation.antt =====
-- tca/auth/key_rotation.py: the metadata of a key rotation that survives crashes. Each operation
-- reads the state in one session and writes in another; the state that was read is an argument of
-- its own, so that a write between the two is not excluded.
pub mod Steps
pub mod Sweep
pub mod Resume
mod Tests
use tca.Base.{
  ℕ, zero, suc, Bool, true, false, not, ◌&&◌, Option, none, some, List, [], ◌∷◌, map, max, ◌==◌,
  ltb, leb, if◌then◌else◌, keep, exists_row,
}
use tca.Base.Int.{ℤ, pos, negsuc}
use tca.Base.Least.{least}

-- A row of `telegram_accounts`.
pub record Account : Type 0 where
  pub id : ℕ
  pub key_version : ℕ

-- The row of `auth_key_rotation`; of `completed_at`, whether it is set.
pub record KeyRotationState : Type 0 where
  pub target_key_version : ℕ
  pub last_rotated_account_id : ℕ
  pub completed : Bool

pub record Auth : Type 0 where
  pub rotation : Option KeyRotationState
  pub accounts : List Account

pub data Error : Type 0 where
  invalid_target state_missing : Error
  in_progress : ℕ → Error
  not_greater : Error
  account_not_found : ℕ → Error

pub data Result (A : Type 0) : Type 0 where
  ok : A → Result A
  err : Error → Result A

abbrev pub fresh : ℕ → KeyRotationState
fresh target = record {
  target_key_version = target;
  last_rotated_account_id = 0;
  completed = false;
}

-- The reset UPDATE, which changes the row if there is one, and the state read after it.
abbrev pub reset : ℕ → Auth → Result KeyRotationState × Auth
reset target db = elim db.rotation [
  | none ↦ (err state_missing, db)
  | some s ↦ (ok (fresh target), record db { rotation = some (fresh target) })
]

-- The INSERT: on a row that is there already, its state.
abbrev pub start : ℕ → Auth → Result KeyRotationState × Auth
start target db = elim db.rotation [
  | none ↦ (ok (fresh target), record db { rotation = some (fresh target) })
  | some s ↦ (ok s, db)
]

abbrev pub begin_from : Option KeyRotationState → ℕ → Auth → Result KeyRotationState × Auth
begin_from none target db = start target db
begin_from (some seen) target db =
    if seen.target_key_version == target
    then (ok seen, db)
    else if not seen.completed
    then (err (in_progress seen.target_key_version), db)
    else if leb target seen.target_key_version
    then (err not_greater, db)
    else reset target db

-- `begin_rotation`, with the state that it read.
unfoldable pub begin_rotation : Option KeyRotationState → ℤ → Auth → Result KeyRotationState × Auth
begin_rotation seen (negsuc n) db = (err invalid_target, db)
begin_rotation seen (pos zero) db = (err invalid_target, db)
begin_rotation seen (pos (suc n)) db = begin_from seen (suc n) db

-- `key_version < :target_key_version`.
abbrev pub is_behind : ℕ → Account → Bool
is_behind target a = ltb a.key_version target

abbrev pub is_pending : KeyRotationState → Account → Bool
is_pending s a = is_behind s.target_key_version a && ltb s.last_rotated_account_id a.id

abbrev pub pending_ids : KeyRotationState → List Account → List ℕ
pending_ids s accounts = map (λ (a : Account). a.id) (keep (is_pending s) accounts)

-- `next_pending_account_id`.
unfoldable pub next_pending_account_id : Option KeyRotationState → Auth → Option ℕ
unfolding least keep
next_pending_account_id none db = none
next_pending_account_id (some s) db = least (pending_ids s db.accounts)

-- SELECT key_version ... WHERE id = :account_id.
unfoldable pub find_version : ℕ → List Account → Option ℕ
find_version i [] = none
find_version i (a ∷ rest) = if i == a.id then some a.key_version else find_version i rest

-- `update_statement`.
abbrev pub upgrade : ℕ → ℕ → Account → Account
upgrade i target a =
    if i == a.id && is_behind target a then record a { key_version = target } else a

-- `progress_statement`.
abbrev pub advance : ℕ → Option KeyRotationState → Option KeyRotationState
advance last none = none
advance last (some s) = some (record s { last_rotated_account_id = last })

abbrev pub progress : KeyRotationState → ℕ → Option KeyRotationState → Option KeyRotationState
progress seen i rotation =
    let new_last = max seen.last_rotated_account_id i in
    if new_last == seen.last_rotated_account_id then rotation else advance new_last rotation

abbrev pub mark_found : KeyRotationState → ℕ → Auth → Option ℕ → Result Unit × Auth
mark_found seen i db none = (err (account_not_found i), db)
mark_found seen i db (some version) = (
  ok tt,
  record {
    rotation = progress seen i db.rotation;
    accounts =
        if ltb version seen.target_key_version
        then map (upgrade i seen.target_key_version) db.accounts
        else db.accounts;
  },
)

-- `mark_account_rotated`, with the state that it read.
unfoldable pub mark_account_rotated : Option KeyRotationState → ℕ → Auth → Result Unit × Auth
unfolding find_version
mark_account_rotated none i db = (err state_missing, db)
mark_account_rotated (some seen) i db = mark_found seen i db (find_version i db.accounts)

abbrev pub set_completed : Option KeyRotationState → Option KeyRotationState
set_completed none = none
set_completed (some s) = some (record s { completed = true })

-- `complete_if_finished`, with the state that it read.
unfoldable pub complete_if_finished : Option KeyRotationState → Auth → Result Bool × Auth
unfolding exists_row
complete_if_finished none db = (err state_missing, db)
complete_if_finished (some seen) db =
    if seen.completed
    then (ok true, db)
    else if exists_row (is_behind seen.target_key_version) db.accounts
    then (ok false, db)
    else (ok true, record db { rotation = set_completed db.rotation })
