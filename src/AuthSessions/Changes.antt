-- ===== src/AuthSessions/Changes.antt =====
-- How a session can change: its status goes forward, and its phone number and expiry stay.
use tca.Base.{
  ℕ, ◌≡◌, refl, sym, ap, ◌∙◌, inl, inr, Bool, true, false, not, Option, none, some, List, [], ◌∷◌,
  ◌++◌, map, arith, some_inj, if◌then◌else◌, exists_row, Bool-cases, find_row, find_row-keep,
  find_row-map, find_row-holds, Text, same, same_sym, same_eq,
}
use mathlib.Core.Option
use mathlib.Core.Path.{subst}
use tca.AuthSessions.{
  AuthStatus, code_sent, password_required, authenticated, AuthSessionState, has_id, is_expired,
  create_session, delete_session, unless_expired, with_status, update_status,
}

-- The order of the login's steps.
abbrev pub comes_before : AuthStatus → AuthStatus → Bool
comes_before code_sent later = true
comes_before password_required code_sent = false
comes_before password_required password_required = true
comes_before password_required authenticated = true
comes_before authenticated code_sent = false
comes_before authenticated password_required = false
comes_before authenticated authenticated = true

comes_before_refl : (a : AuthStatus) → comes_before a a ≡ true
comes_before_refl code_sent = refl
comes_before_refl password_required = refl
comes_before_refl authenticated = refl

abbrev pub Advances : AuthSessionState → AuthSessionState → Type 0
Advances row row' =
    (row'.phone_number ≡ row.phone_number)
    × (row'.expires_at ≡ row.expires_at)
    × (comes_before row.status row'.status ≡ true)

-- Every session that is there before and after has advanced.
abbrev pub Follows : List AuthSessionState → List AuthSessionState → Type 0
Follows rows rows' =
    (k : Text) (row row' : AuthSessionState)
    → find_row (has_id k) rows ≡ some row
    → find_row (has_id k) rows' ≡ some row'
    → Advances row row'

Advances-same : (row row' : AuthSessionState) → row ≡ row' → Advances row row'
Advances-same row row' e = rw (sym e) (refl, refl, comes_before_refl row.status)

pub Follows-refl : (rows : List AuthSessionState) → Follows rows rows
Follows-refl rows k row row' before after = Advances-same row row' (some_inj (sym before ∙ after))

find_row-delete_any :
    (i k : Text) (rows : List AuthSessionState)
    → find_row (has_id k) (delete_session i rows).1
      ≡ (if same k i then none else find_row (has_id k) rows)
unfolding delete_session
find_row-delete_any i k rows = elim (Bool-cases (same k i)) [
  | inl e ↦
      let eq = same_eq k i e in
      rw e (rw eq (find_row-keep (has_id i) (λ s. not (has_id i s)) false rows (λ s h. rw h refl)))
  | inr e ↦ rw e (
      find_row-keep (has_id k) (λ s. not (has_id i s)) true rows
        (λ s h. rw (sym (same_eq k s.session_id h), same_sym i k, e) refl))
]

pub Follows-delete :
    (i : Text) (rows rows' : List AuthSessionState)
    → Follows rows rows'
    → Follows rows (delete_session i rows').1
Follows-delete i rows rows' f k row row' before after = elim (Bool-cases (same k i)) [
  | inl e ↦ absurd (none_some (sym (find_row-delete_any i k rows' ∙ rw e refl) ∙ after))
  | inr e ↦ f k row row' before (sym (find_row-delete_any i k rows' ∙ rw e refl) ∙ after)
]
  where
    none_some : {r : AuthSessionState} → none ≡ some r → ⊥
    none_some h = cc

with_status-id :
    (i : Text) (status : AuthStatus) (telegram : Option (Option Text)) (k : Text)
    (s : AuthSessionState)
    → has_id k (with_status i status telegram s) ≡ has_id k s
with_status-id i status none k s = elim (Bool-cases (has_id i s)) [
  | inl e ↦ rw e refl
  | inr e ↦ rw e refl
]
with_status-id i status (some t) k s = elim (Bool-cases (has_id i s)) [
  | inl e ↦ rw e refl
  | inr e ↦ rw e refl
]

advanced :
    (i : Text) (status : AuthStatus) (telegram : Option (Option Text)) (row : AuthSessionState)
    → (has_id i row ≡ true → comes_before row.status status ≡ true)
    → Advances row (with_status i status telegram row)
advanced i status none row h = elim (Bool-cases (has_id i row)) [
  | inl e ↦ rw e (refl, refl, h e)
  | inr e ↦ rw e (refl, refl, comes_before_refl row.status)
]
advanced i status (some t) row h = elim (Bool-cases (has_id i row)) [
  | inl e ↦ rw e (refl, refl, h e)
  | inr e ↦ rw e (refl, refl, comes_before_refl row.status)
]

module _ (i : Text) (status : AuthStatus) (telegram : Option (Option Text))
    (rows : List AuthSessionState)
    (h : (row : AuthSessionState)
      → find_row (has_id i) rows ≡ some row
      → comes_before row.status status ≡ true) where
  Follows-with_status : Follows rows (map (with_status i status telegram) rows)
  Follows-with_status k row row' before after =
      subst (Advances row) changed
        (advanced i status telegram row (λ mine. h row (rw (same_key mine) before)))
    where
      changed : with_status i status telegram row ≡ row'
      changed = some_inj (
          sym (
            find_row-map (has_id k) (with_status i status telegram) rows
              (with_status-id i status telegram k)
            ∙ ap (Option.map (with_status i status telegram)) before)
          ∙ after)

      same_key : has_id i row ≡ true → i ≡ k
      same_key mine =
          same_eq i row.session_id mine
          ∙ sym (same_eq k row.session_id (find_row-holds (has_id k) rows row before))

  -- An update of a session whose status may become the new one.
  pub Follows-update : (now : ℕ) → Follows rows (update_status i status telegram now rows).1
  unfolding update_status
  Follows-update now = at_row (find_row (has_id i) rows')
    where
      rows' : List AuthSessionState
      rows' = map (with_status i status telegram) rows

      at_row : (o : Option AuthSessionState) → Follows rows (unless_expired i now o rows').1
      at_row none = Follows-with_status
      at_row (some s) = elim (Bool-cases (is_expired now s)) [
        | inl e ↦ rw e (Follows-delete i rows rows' Follows-with_status)
        | inr e ↦ rw e Follows-with_status
      ]

find_first :
    (p : AuthSessionState → Bool) (xs ys : List AuthSessionState) (x : AuthSessionState)
    → find_row p xs ≡ some x
    → find_row p (xs ++ ys) ≡ some x
unfolding find_row
find_first p [] ys x h = cc
find_first p (y ∷ xs) ys x h = ground (arith, find_first p xs ys x)

-- A new session changes no other.
pub Follows-create :
    (i phone : Text) (status : AuthStatus) (now : ℕ) (rows : List AuthSessionState)
    → Follows rows (create_session i phone status none none none now rows).1
unfolding create_session
Follows-create i phone status now rows = elim (Bool-cases (exists_row (has_id i) rows)) [
  | inl e ↦ rw e (Follows-refl rows)
  | inr e ↦ rw e (λ k row row' before after.
      Advances-same row row' (some_inj (sym (find_first (has_id k) rows _ row before) ∙ after)))
]
