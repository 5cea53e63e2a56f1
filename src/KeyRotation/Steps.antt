-- ===== src/KeyRotation/Steps.antt =====
-- Key rotation as a sequence of operations, each of which sees what the one before wrote.
use tca.Base.{
  ℕ, ◌≡◌, refl, ◌∙◌, inl, inr, suc, zero, Bool, false, ◌&&◌, Option, none, some, List, [], ◌∷◌, map,
  arith, ◌==◌, ltb, leb, exists_row, Bool-cases, max,
}
use tca.Base.Int.{ℤ, pos, negsuc}
use tca.KeyRotation.{
  Account, KeyRotationState, Auth, is_behind, upgrade, begin_rotation, mark_account_rotated,
  mark_found, complete_if_finished, progress, find_version,
}

-- One operation: `begin_rotation`, `mark_account_rotated` or `complete_if_finished`.
pub data Step : Auth → Auth → Type 0 where
  begins : (target : ℤ) (db : Auth) → Step db (begin_rotation db.rotation target db).1
  marks : (i : ℕ) (db : Auth) → Step db (mark_account_rotated db.rotation i db).1
  completes : (db : Auth) → Step db (complete_if_finished db.rotation db).1

pub data Steps : Auth → Auth → Type 0 where
  stop : {db : Auth} → Steps db db
  more : {db_1 db_2 db_3 : Auth} → Step db_1 db_2 → Steps db_2 db_3 → Steps db_1 db_3

-- Whether a rotation counts as completed while an account is behind its target.
abbrev pub completed_early : Option KeyRotationState → List Account → Bool
completed_early none accounts = false
completed_early (some s) accounts =
    s.completed && exists_row (is_behind s.target_key_version) accounts

behind_upgrade :
    (i t u : ℕ) (accounts : List Account)
    → exists_row (is_behind u) accounts ≡ false
    → exists_row (is_behind u) (map (upgrade i t) accounts) ≡ false
unfolding exists_row
behind_upgrade i t u [] h = refl
behind_upgrade i t u (a ∷ rest) h = ground (arith, behind_upgrade i t u rest)

begin-step :
    (target : ℤ) (seen : Option KeyRotationState) (accounts : List Account)
    → completed_early seen accounts ≡ false
    → let db : Auth = record { rotation = seen; accounts = accounts } in
      let db' = (begin_rotation seen target db).1 in
      completed_early db'.rotation db'.accounts ≡ false
unfolding begin_rotation
begin-step (negsuc n) seen accounts h = h
begin-step (pos zero) seen accounts h = h
begin-step (pos (suc n)) none accounts h = refl
begin-step (pos (suc n)) (some s) accounts h = elim (Bool-cases (s.target_key_version == suc n)) [
  | inl same ↦ rw same h
  | inr other ↦ elim (Bool-cases s.completed) [
    | inr running ↦ rw (other, running) refl
    | inl closed ↦ elim (Bool-cases (leb (suc n) s.target_key_version)) [
      | inl old ↦ rw (other, closed, old) (ground arith)
      | inr new ↦ rw (other, closed, new) refl
    ]
  ]
]

progress-step :
    (seen : KeyRotationState) (i : ℕ) (accounts : List Account)
    → completed_early (progress seen i (some seen)) accounts ≡ completed_early (some seen) accounts
progress-step seen i accounts =
    elim (Bool-cases (max seen.last_rotated_account_id i == seen.last_rotated_account_id)) [
      | inl same ↦ rw same refl
      | inr other ↦ rw other refl
    ]

mark_found-step :
    (seen : KeyRotationState) (i : ℕ) (accounts : List Account) (found : Option ℕ)
    → completed_early (some seen) accounts ≡ false
    → let db : Auth = record { rotation = some seen; accounts = accounts } in
      let db' = (mark_found seen i db found).1 in completed_early db'.rotation db'.accounts ≡ false
mark_found-step seen i accounts none h = h
mark_found-step seen i accounts (some version) h =
    elim (Bool-cases (ltb version seen.target_key_version)) [
      | inr done ↦ rw done (progress-step seen i accounts ∙ h)
      | inl behind ↦ rw behind (
          progress-step seen i (map (upgrade i seen.target_key_version) accounts)
          ∙ ground
              (arith, behind_upgrade i seen.target_key_version seen.target_key_version accounts))
    ]

mark-step :
    (i : ℕ) (seen : Option KeyRotationState) (accounts : List Account)
    → completed_early seen accounts ≡ false
    → let db : Auth = record { rotation = seen; accounts = accounts } in
      let db' = (mark_account_rotated seen i db).1 in
      completed_early db'.rotation db'.accounts ≡ false
unfolding mark_account_rotated
mark-step i none accounts h = h
mark-step i (some s) accounts h = mark_found-step s i accounts (find_version i accounts) h

complete-step :
    (seen : Option KeyRotationState) (accounts : List Account)
    → completed_early seen accounts ≡ false
    → let db : Auth = record { rotation = seen; accounts = accounts } in
      let db' = (complete_if_finished seen db).1 in
      completed_early db'.rotation db'.accounts ≡ false
unfolding complete_if_finished
complete-step none accounts h = h
complete-step (some s) accounts h = elim (Bool-cases s.completed) [
  | inl closed ↦ rw closed (ground arith)
  | inr running ↦ elim (Bool-cases (exists_row (is_behind s.target_key_version) accounts)) [
    | inl some_behind ↦ rw (running, some_behind) refl
    | inr none_behind ↦ rw (running, none_behind) none_behind
  ]
]

Step-keeps :
    {db db' : Auth}
    → Step db db'
    → completed_early db.rotation db.accounts ≡ false
    → completed_early db'.rotation db'.accounts ≡ false
Step-keeps (begins target db) h = begin-step target db.rotation db.accounts h
Step-keeps (marks i db) h = mark-step i db.rotation db.accounts h
Step-keeps (completes db) h = complete-step db.rotation db.accounts h

-- After any sequence of rotation operations with any arguments, each of which sees what the one
-- before wrote, a rotation that is marked as completed leaves no account behind its target, if
-- that was so before.
pub Steps-keeps :
    {db db' : Auth}
    → Steps db db'
    → completed_early db.rotation db.accounts ≡ false
    → completed_early db'.rotation db'.accounts ≡ false
Steps-keeps stop h = h
Steps-keeps (more first rest) h = Steps-keeps rest (Step-keeps first h)
