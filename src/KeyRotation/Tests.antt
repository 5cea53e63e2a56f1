-- ===== src/KeyRotation/Tests.antt =====
-- Runs of a key rotation on three accounts, and the theorems at them.
use tca.Base.{ℕ, ◌≡◌, refl, true, false, none, some, List, [], ◌∷◌, arith, exists_row, count_rows}
use tca.Base.Int.{pos}
use tca.KeyRotation.{
  Account, Auth, ok, begin_rotation, mark_account_rotated, complete_if_finished,
  next_pending_account_id, fresh,
}
use tca.KeyRotation.Steps.{begins, completes, stop, more, completed_early, Steps-keeps}
use tca.KeyRotation.Sweep.{IsKeyed, state}
use tca.KeyRotation.Resume.{rotate, rotate_lem, Rotated, Begun, begin_rotation_lem}

abbrev account : ℕ → ℕ → Account
account i v = record { id = i; key_version = v }

abbrev accounts : List Account
accounts = account 3 1 ∷ account 1 1 ∷ account 2 2 ∷ []

abbrev idle : Auth
idle = record { rotation = none; accounts = accounts }

accounts-IsKeyed : IsKeyed accounts
accounts-IsKeyed = ((refl, (refl, tt)), ((refl, tt), (tt, tt)))

begin_rotation_lem_example : Begun 2 idle (begin_rotation none (pos 2) idle)
begin_rotation_lem_example =
    begin_rotation_lem 1 idle (ground arith, (ground arith, (ground arith, tt)))

rotate_lem_example : Rotated (fresh 2) accounts (rotate 3 (state (fresh 2) accounts))
unfolding exists_row count_rows
rotate_lem_example = rotate_lem 3 (fresh 2) accounts accounts-IsKeyed refl (ground arith)

-- The run, by the definitions.
rotate_run :
    rotate 3 (state (fresh 2) accounts)
    ≡ some (
      ok true,
      state
          (record { target_key_version = 2; last_rotated_account_id = 3; completed = true })
          (account 3 2 ∷ account 1 2 ∷ account 2 2 ∷ []),
    )
unfolding rotate next_pending_account_id mark_account_rotated complete_if_finished
rotate_run = refl

Steps-keeps_example :
    let db = (begin_rotation none (pos 2) idle).1 in
    completed_early
      (complete_if_finished db.rotation db).1.rotation
      (complete_if_finished db.rotation db).1.accounts
    ≡ false
Steps-keeps_example =
    let db = (begin_rotation none (pos 2) idle).1 in
    Steps-keeps (more (begins (pos 2) idle) (more (completes db) stop)) refl

-- A completion that read its state before another rotation began completes that one.
stale_completion :
    let db = state (fresh 3) (account 1 2 ∷ []) in
    let db' = (complete_if_finished (some (fresh 2)) db).1 in
    completed_early db'.rotation db'.accounts ≡ true
unfolding complete_if_finished
stale_completion = refl
