-- ===== src/KeyRotation/Sweep.antt =====
-- One round of the client's loop: the next pending account is rotated, and nobody is passed over.
use tca.Base.{
  ℕ, ◌≡◌, refl, sym, ◌∙◌, inl, inr, Bool, true, false, not, ◌&&◌, none, some, List, [], ◌∷◌, map,
  arith, ◌==◌, ltb, leb, keep, exists_row, exists_row-map, exists_row_witness, exists_row-keep,
  count_rows, count_rows_lt, count_rows-map, member, member-map, Bool-cases, max, ◌<◌, All,
}
use tca.Base.Least.{least, member-least, least-none, least_le}
use tca.KeyRotation.{
  Account, KeyRotationState, Auth, is_behind, is_pending, pending_ids, upgrade,
  mark_account_rotated, find_version,
}

-- The keys are distinct, as a primary key's are.
abbrev pub IsKeyed : List Account → Type 0
IsKeyed [] = Unit
IsKeyed (a ∷ rest) = All (λ (x : Account). (x.id == a.id) ≡ false) rest × IsKeyed rest

-- The accounts up to the last rotated one that are still behind: there are none.
abbrev pub is_missed : KeyRotationState → Account → Bool
is_missed s a = is_behind s.target_key_version a && leb a.id s.last_rotated_account_id

abbrev pub state : KeyRotationState → List Account → Auth
state s accounts = record { rotation = some s; accounts = accounts }

abbrev pub at : KeyRotationState → ℕ → KeyRotationState
at s i = record s { last_rotated_account_id = i }

find_version-other :
    (i : ℕ) (p : Account → Bool) (accounts : List Account) (a : Account)
    → All (λ (x : Account). (x.id == a.id) ≡ false) accounts
    → (i == a.id) ≡ true
    → exists_row (λ (x : Account). i == x.id && p x) accounts ≡ false
unfolding exists_row
find_version-other i p [] a all e = refl
find_version-other i p (x ∷ xs) a all e = ground (arith, find_version-other i p xs a all.1 e)

find_version-behind :
    (i t : ℕ) (accounts : List Account)
    → IsKeyed accounts
    → exists_row (λ (a : Account). i == a.id && is_behind t a) accounts ≡ true
    → (v : ℕ) × (find_version i accounts ≡ some v) × (ltb v t ≡ true)
unfolding exists_row find_version
find_version-behind i t [] k h = cc
find_version-behind i t (a ∷ rest) k h = elim (Bool-cases (i == a.id)) [
  | inl here ↦ (
    a.key_version,
    rw here refl,
    ground (arith, find_version-other i (is_behind t) rest a k.0 here),
  )
  | inr there ↦
      let (v, e, b) = find_version-behind i t rest k.1 (ground arith) in (v, rw there e, b)
]

module _ (s : KeyRotationState) (accounts : List Account) where
  pending_member :
      (i : ℕ)
      → member i (pending_ids s accounts)
        ≡ exists_row (λ (a : Account). i == a.id && is_pending s a) accounts
  pending_member i =
      member-map (λ (a : Account). a.id) i (keep (is_pending s) accounts)
      ∙ exists_row-keep (λ (a : Account). i == a.id) (is_pending s) accounts

  module _ (i : ℕ) (next : least (pending_ids s accounts) ≡ some i) where
    found : exists_row (λ (a : Account). i == a.id && is_pending s a) accounts ≡ true
    found = sym (pending_member i) ∙ member-least (pending_ids s accounts) i next

    found_behind :
        (ltb s.last_rotated_account_id i ≡ true)
        × (exists_row (λ (a : Account). i == a.id && is_behind s.target_key_version a) accounts
            ≡ true)
    found_behind =
        let (a, p, all) = exists_row_witness _ accounts found in
        (
          ground arith,
          all (λ (x : Account). i == x.id && is_behind s.target_key_version x) (ground arith),
        )

    pub marked :
        IsKeyed accounts
        → (mark_account_rotated (some s) i (state s accounts)).1
          ≡ state (at s i) (map (upgrade i s.target_key_version) accounts)
    unfolding mark_account_rotated
    marked k =
        let (later, b) = found_behind in
        let (v, e, below) = find_version-behind i s.target_key_version accounts k b in
        let m : max s.last_rotated_account_id i ≡ i = ground arith in
        let n : (i == s.last_rotated_account_id) ≡ false = ground arith in rw (e, below, m, n) refl

    module _ (swept : exists_row (is_missed s) accounts ≡ false) where
      pub swept_after :
          exists_row (is_missed (at s i)) (map (upgrade i s.target_key_version) accounts) ≡ false
      swept_after =
          elim (Bool-cases
            (exists_row (is_missed (at s i)) (map (upgrade i s.target_key_version) accounts))) [
              | inr e ↦ e
              | inl e ↦
                  let (a, p, all) =
                    exists_row_witness _ accounts
                      (sym (exists_row-map _ (upgrade i s.target_key_version) accounts) ∙ e) in
                  ground (
                    arith,
                    all (is_missed s),
                    all (λ (x : Account). a.id == x.id && is_pending s x),
                    pending_member a.id,
                    least_le (pending_ids s accounts) i a.id next,
                  )
            ]

    pub fewer_pending :
        count_rows (is_pending (at s i)) (map (upgrade i s.target_key_version) accounts)
        < count_rows (is_pending s) accounts
    fewer_pending =
        let (a, p, all) = exists_row_witness _ accounts found in
        ground (
          arith,
          count_rows-map (is_pending (at s i)) (upgrade i s.target_key_version) accounts,
          count_rows_lt (λ (x : Account). is_pending (at s i) (upgrade i s.target_key_version x))
              (is_pending s) accounts (λ x h. ground (arith, found_behind))
              (all
                (λ (x : Account).
                  is_pending s x && not (is_pending (at s i) (upgrade i s.target_key_version x)))
                (ground arith)),
        )

  -- With nobody pending and nobody missed, nobody is behind.
  pub none_behind :
      least (pending_ids s accounts) ≡ none
      → exists_row (is_missed s) accounts ≡ false
      → exists_row (is_behind s.target_key_version) accounts ≡ false
  none_behind next swept =
      elim (Bool-cases (exists_row (is_behind s.target_key_version) accounts)) [
        | inr e ↦ e
        | inl e ↦
            let (a, p, all) = exists_row_witness _ accounts e in
            ground (
              arith,
              all (is_missed s),
              all (λ (x : Account). a.id == x.id && is_pending s x),
              pending_member a.id,
              least-none (pending_ids s accounts) a.id next,
            )
      ]
