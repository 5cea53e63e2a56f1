-- ===== src/KeyRotation/Resume.antt =====
-- The client's loop over the pending accounts: from any state that a crash can leave, it ends with
-- every account at the target.
use tca.Base.{
  ℕ, ◌≡◌, refl, ◌∙◌, ◌⊎◌, inl, inr, suc, zero, Bool, true, false, Option, none, some, List, [], ◌∷◌,
  map, arith, ◌==◌, leb, not, if◌then◌else◌, exists_row, count_rows, Bool-cases, Option-cases, ◌<◌,
  All,
}
use tca.Base.Int.{pos}
use tca.Base.Least.{least}
use tca.KeyRotation.{
  in_progress, not_greater, reset, Account, KeyRotationState, Auth, Result, ok, err, is_behind,
  is_pending, pending_ids, upgrade, begin_rotation, begin_from, mark_account_rotated,
  complete_if_finished, next_pending_account_id, fresh,
}
use tca.KeyRotation.Sweep.{
  IsKeyed, is_missed, state, at, marked, swept_after, fewer_pending, none_behind,
}

-- The loop: rotate the next pending account until there is none, then complete. The fuel runs out
-- as `none`.
unfoldable pub rotate : ℕ → Auth → Option (Result Bool × Auth)
rotate zero db = none
rotate (suc fuel) db = elim (next_pending_account_id db.rotation db) [
  | none ↦ some (complete_if_finished db.rotation db)
  | some i ↦ rotate fuel (mark_account_rotated db.rotation i db).1
]

upgrade-All :
    (i t : ℕ) (a : Account) (accounts : List Account)
    → All (λ (x : Account). (x.id == a.id) ≡ false) accounts
    → All (λ (x : Account). (x.id == (upgrade i t a).id) ≡ false) (map (upgrade i t) accounts)
upgrade-All i t a [] h = tt
upgrade-All i t a (x ∷ xs) h = (ground arith, upgrade-All i t a xs h.1)

upgrade-IsKeyed :
    (i t : ℕ) (accounts : List Account) → IsKeyed accounts → IsKeyed (map (upgrade i t) accounts)
upgrade-IsKeyed i t [] k = tt
upgrade-IsKeyed i t (a ∷ rest) k = (upgrade-All i t a rest k.0, upgrade-IsKeyed i t rest k.1)

upgrade-ids :
    (i t : ℕ) (accounts : List Account)
    → map (λ (a : Account). a.id) (map (upgrade i t) accounts)
      ≡ map (λ (a : Account). a.id) accounts
upgrade-ids i t [] = refl
upgrade-ids i t (a ∷ rest) = ground (arith, upgrade-ids i t rest)

-- What the loop leaves: the rotation is completed, and the accounts are the same ones, none of them
-- behind the target.
pub record Rotated (s : KeyRotationState) (accounts : List Account)
    (o : Option (Result Bool × Auth)) : Type 0 where
  pub s' : KeyRotationState
  pub accounts' : List Account
  pub ended : o ≡ some (ok true, state s' accounts')
  pub target : s'.target_key_version ≡ s.target_key_version
  pub completed : s'.completed ≡ true
  pub same_accounts : map (λ (a : Account). a.id) accounts' ≡ map (λ (a : Account). a.id) accounts
  pub none_behind : exists_row (is_behind s.target_key_version) accounts' ≡ false

complete_lem :
    (s : KeyRotationState) (accounts : List Account)
    → exists_row (is_behind s.target_key_version) accounts ≡ false
    → Rotated s accounts (some (complete_if_finished (some s) (state s accounts)))
unfolding complete_if_finished
complete_lem s accounts none_behind = elim (Bool-cases s.completed) [
  | inl closed ↦ record {
    s' = s;
    accounts' = accounts;
    ended = simp closed;
    target = refl;
    completed = closed;
    same_accounts = refl;
    none_behind = none_behind;
  }
  | inr running ↦ record {
    s' = record s { completed = true };
    accounts' = accounts;
    ended = rw (running, none_behind) refl;
    target = refl;
    completed = refl;
    same_accounts = refl;
    none_behind = none_behind;
  }
]

module _ (i : ℕ) (s : KeyRotationState) (accounts : List Account) where
  Rotated-on :
      {o : Option (Result Bool × Auth)}
      → Rotated (at s i) (map (upgrade i s.target_key_version) accounts) o
      → Rotated s accounts o
  Rotated-on r = record {
    s' = r.s';
    accounts' = r.accounts';
    ended = r.ended;
    target = r.target;
    completed = r.completed;
    same_accounts = r.same_accounts ∙ upgrade-ids i s.target_key_version accounts;
    none_behind = r.none_behind;
  }

-- The client's loop (take the next pending account, mark it as rotated, and when there is none
-- complete the rotation), resumed at any state in which the accounts have distinct keys and none
-- up to the last rotated one is behind the target, ends if its fuel is more than the number of
-- pending accounts: it returns true, the rotation is marked as completed, the accounts are the
-- same ones, and none is behind the target.
pub rotate_lem :
    (fuel : ℕ) (s : KeyRotationState) (accounts : List Account)
    → IsKeyed accounts
    → exists_row (is_missed s) accounts ≡ false
    → count_rows (is_pending s) accounts < fuel
    → Rotated s accounts (rotate fuel (state s accounts))
unfolding rotate next_pending_account_id
rotate_lem zero s accounts k swept enough = absurd (omega arith)
rotate_lem (suc fuel) s accounts k swept enough =
    elim (Option-cases (least (pending_ids s accounts))) [
      | inl next ↦ rw next (complete_lem s accounts (none_behind s accounts next swept))
      | inr (i, next) ↦
          rw (next, marked s accounts i next k)
            (Rotated-on i s accounts (
              rotate_lem fuel (at s i) (map (upgrade i s.target_key_version) accounts)
                (upgrade-IsKeyed i s.target_key_version accounts k)
                (swept_after s accounts i next swept)
                (let fewer = fewer_pending s accounts i next in omega arith)))
    ]

missed_fresh :
    (t : ℕ) (accounts : List Account)
    → All (λ (a : Account). 0 < a.id) accounts
    → exists_row (is_missed (fresh t)) accounts ≡ false
unfolding exists_row
missed_fresh t [] h = refl
missed_fresh t (a ∷ rest) h = ground (arith, missed_fresh t rest h.1)

-- Whether a rotation to `target` may begin: none was, or an earlier one to a smaller target is done.
abbrev pub MayBegin : ℕ → Option KeyRotationState → Type 0
MayBegin target none = Unit
MayBegin target (some old) = (old.completed ≡ true) × (old.target_key_version < target)

-- What `begin_rotation` leaves. An error: a rotation with another target is there, which is not completed
-- or has a greater one, and nothing changed. Or the rotation that was there, with nothing changed; or
-- the new one for this target, not completed, of which no account was passed over.
abbrev pub Begun : ℕ → Auth → Result KeyRotationState × Auth → Type 0
Begun target db (err e, db') =
    (db' ≡ db)
    × ((old : KeyRotationState) × (db.rotation ≡ some old)
        × (((old.completed ≡ false)
              × ((old.target_key_version == target) ≡ false)
              × (e ≡ in_progress old.target_key_version))
            ⊎ ((old.completed ≡ true) × (target < old.target_key_version) × (e ≡ not_greater))))
Begun target db (ok s, db') =
    (db'.rotation ≡ some s)
    × (s.target_key_version ≡ target)
    × (((db' ≡ db) × (db.rotation ≡ some s))
        ⊎ (MayBegin target db.rotation
            × (db'.accounts ≡ db.accounts)
            × (s.last_rotated_account_id ≡ 0)
            × (s.completed ≡ false)
            × (exists_row (is_missed s) db'.accounts ≡ false)))

-- The branches, by what the three tests give.
Begun-tests :
    (n : ℕ) (s : KeyRotationState) (accounts : List Account)
    → All (λ (a : Account). 0 < a.id) accounts
    → (same closed old : Bool) → (s.target_key_version == n) ≡ same
    → s.completed ≡ closed
    → leb n s.target_key_version ≡ old
    → let db : Auth = record { rotation = some s; accounts = accounts } in
      Begun n db (
        if same
        then (ok s, db)
        else if not closed
        then (err (in_progress s.target_key_version), db)
        else if old
        then (err not_greater, db)
        else reset n db)
Begun-tests n s accounts h true closed old e f g = (refl, ground arith, inl (refl, refl))
Begun-tests n s accounts h false false old e f g = (refl, (s, refl, inl (f, e, refl)))
Begun-tests n s accounts h false true true e f g = (refl, (s, refl, inr (f, ground arith, refl)))
Begun-tests n s accounts h false true false e f g =
    (refl, refl, inr ((f, ground arith), refl, refl, refl, missed_fresh n accounts h))

begin_from_lem :
    (n : ℕ) (seen : Option KeyRotationState) (accounts : List Account)
    → All (λ (a : Account). 0 < a.id) accounts
    → let db : Auth = record { rotation = seen; accounts = accounts } in
      Begun n db (begin_from seen n db)
begin_from_lem n none accounts h =
    (refl, refl, inr (tt, refl, refl, refl, missed_fresh n accounts h))
begin_from_lem n (some s) accounts h =
    Begun-tests n s accounts h (s.target_key_version == n) s.completed (leb n s.target_key_version)
      refl refl refl

-- `begin_rotation` for a target from 1 on, on accounts with positive keys, leaves the accounts
-- unchanged. It raises that a rotation is in progress exactly when one is stored that is not
-- completed and has another target, which it names; it raises that the target is not greater
-- exactly when a completed one of a greater target is stored; either way nothing changes. Else it
-- returns the stored state: the one of this target that was there, with nothing changed, or a new
-- one, of this target and not completed, with no account passed over, where none was stored or a
-- completed one of a smaller target.
pub begin_rotation_lem :
    (n : ℕ) (db : Auth)
    → All (λ (a : Account). 0 < a.id) db.accounts
    → Begun (suc n) db (begin_rotation db.rotation (pos (suc n)) db)
unfolding begin_rotation
begin_rotation_lem n db h = begin_from_lem (suc n) db.rotation db.accounts h
