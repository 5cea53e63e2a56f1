-- ===== src/AccountRisk/Pauses.antt =====
-- When an account is paused.
use Prim.Native.String.{String}
use tca.Base.{
  ℕ, suc, ◌+◌, ◌≤◌, ◌<◌, ◌≡◌, refl, sym, ap, ◌∙◌, ◌⊎◌, inl, inr, Bool, true, false, Option, none,
  some, List, [], ◌∷◌, ◌++◌, map, arith, ◌==◌, ==_refl, ltb, if◌then◌else◌, is_some, keep, length,
  length-append, length-keep, count_rows, Bool-cases, Option-cases,
}
use tca.AccountRisk.{
  PausableAccount, Risk, window, get_pause_state, set_pause, pause_account, is_recent,
  store_breaches, escalated, breach_of, record_account_risk_breach,
}

abbrev pub is_paused_row : Option PausableAccount → Bool
is_paused_row none = false
is_paused_row (some a) = is_some a.paused_at

abbrev pub is_account : ℕ → Risk → Bool
is_account i s = is_some (get_pause_state i s.accounts)

-- The account is there, and paused.
abbrev pub is_account_paused : ℕ → Risk → Bool
is_account_paused i s = is_paused_row (get_pause_state i s.accounts)

get_pause_state-set_pause :
    (i now : ℕ) (reason : String) (accounts : List PausableAccount)
    → is_paused_row (get_pause_state i (map (set_pause i (some now) (some reason)) accounts))
      ≡ is_some (get_pause_state i accounts)
unfolding get_pause_state
get_pause_state-set_pause i now reason [] = refl
get_pause_state-set_pause i now reason (a ∷ rest) = elim (Bool-cases (i == a.id)) [
  | inl here ↦ rw (here, here) refl
  | inr there ↦ rw (there, there) (get_pause_state-set_pause i now reason rest)
]

count_rows_recent :
    (now later : ℕ) (xs : List ℕ)
    → now ≤ later
    → count_rows (is_recent later) (keep (is_recent now) xs) ≡ count_rows (is_recent later) xs
unfolding count_rows keep
count_rows_recent now later [] h = refl
count_rows_recent now later (x ∷ xs) h = ground (arith, count_rows_recent now later xs h)

count_rows-append :
    (p : ℕ → Bool) (xs : List ℕ) (y : ℕ)
    → count_rows p (xs ++ y ∷ []) ≡ count_rows p xs + (if p y then 1 else 0)
unfolding count_rows
count_rows-append p [] y = ground arith
count_rows-append p (x ∷ xs) y = ground (arith, count_rows-append p xs y)

module _ (i : ℕ) (reason : String) (now : ℕ) (s : Risk) where
  abbrev counted : List ℕ
  counted = keep (is_recent now) (s.breaches i) ++ now ∷ []

  length-counted : length counted ≡ suc (count_rows (is_recent now) (s.breaches i))
  length-counted =
      length-append (keep (is_recent now) (s.breaches i)) (now ∷ [])
      ∙ ground (arith, length-keep (is_recent now) (s.breaches i))

  module _ (a : PausableAccount) (there : get_pause_state i s.accounts ≡ some a) where
    -- A breach of a paused account changes nothing.
    breach-paused : is_some a.paused_at ≡ true → (breach_of i reason now s (some a)).1 ≡ s
    breach-paused paused = rw paused refl

    breach-counted :
        is_some a.paused_at ≡ false
        → count_rows (is_recent now) (s.breaches i) < 2
        → (breach_of i reason now s (some a)).1
          ≡ record s { breaches = store_breaches i counted s.breaches }
    breach-counted free few =
        let short : ltb (length counted) 3 ≡ true = ground (arith, length-counted) in
        rw (free, short) refl

    breach-pauses :
        is_some a.paused_at ≡ false
        → 2 ≤ count_rows (is_recent now) (s.breaches i)
        → is_account_paused i (breach_of i reason now s (some a)).1 ≡ true
    unfolding pause_account
    breach-pauses free many =
        let long : ltb (length counted) 3 ≡ false = ground (arith, length-counted) in
        rw (free, long) (escalated-pauses (get_pause_state i accounts'))
      where
        accounts' : List PausableAccount
        accounts' = map (set_pause i (some now) (some "account-risk")) s.accounts

        escalated-pauses :
            (o : Option PausableAccount)
            → is_account_paused i (escalated i reason counted s (o, accounts')).1 ≡ true
        escalated-pauses none =
            get_pause_state-set_pause i now "account-risk" s.accounts ∙ rw there refl
        escalated-pauses (some b) =
            get_pause_state-set_pause i now "account-risk" s.accounts ∙ rw there refl

-- The account is paused, or there with at least `n` breaches that are recent at `later`.
abbrev IsWatched : ℕ → ℕ → ℕ → Risk → Type 0
IsWatched i later n s =
    (is_account_paused i s ≡ true)
    ⊎ ((is_account i s ≡ true) × (n ≤ count_rows (is_recent later) (s.breaches i)))

module _ (i : ℕ) (reason : String) (now : ℕ) (s : Risk) where
  stored_count :
      (later : ℕ)
      → now ≤ later
      → later ≤ now + window
      → count_rows (is_recent later) (store_breaches i (counted i reason now s) s.breaches i)
        ≡ suc (count_rows (is_recent later) (s.breaches i))
  stored_count later h k = rw (==_refl i) (
      count_rows-append (is_recent later) (keep (is_recent now) (s.breaches i)) now
      ∙ ground (arith, count_rows_recent now later (s.breaches i) h))

  IsWatched-some :
      (a : PausableAccount) (later n : ℕ)
      → get_pause_state i s.accounts ≡ some a
      → now ≤ later
      → later ≤ now + window
      → IsWatched i later n s
      → IsWatched i later (suc n) (breach_of i reason now s (some a)).1
  IsWatched-some a later n there h k (inl paused) =
      rw (breach-paused i reason now s a there (sym (ap is_paused_row there) ∙ paused)) (inl paused)
  IsWatched-some a later n there h k (inr (known, many)) = elim (Bool-cases (is_some a.paused_at)) [
    | inl paused ↦
        rw (breach-paused i reason now s a there paused) (inl (ap is_paused_row there ∙ paused))
    | inr free ↦ elim (Bool-cases (ltb (count_rows (is_recent now) (s.breaches i)) 2)) [
      | inl few ↦
          rw (breach-counted i reason now s a there free (ground arith))
            (inr (known, (let c = stored_count later h k in ground (arith, c))))
      | inr enough ↦ inl (breach-pauses i reason now s a there free (ground arith))
    ]
  ]

  watched :
      (later n : ℕ)
      → now ≤ later
      → later ≤ now + window
      → IsWatched i later n s
      → IsWatched i later (suc n) (record_account_risk_breach i reason now s).1
  unfolding record_account_risk_breach get_pause_state count_rows
  watched later n h k w = elim (Option-cases (get_pause_state i s.accounts)) [
    | inr (a, there) ↦ rw (record_account_risk_breach, there) (IsWatched-some a later n there h k w)
    | inl missing ↦ absurd (unwatched missing w)
  ]
    where
      unwatched : get_pause_state i s.accounts ≡ none → IsWatched i later n s → ⊥
      unwatched missing (inl paused) = ground (arith, ap is_paused_row missing)
      unwatched missing (inr (known, many)) = ground (arith, ap is_some missing)

  -- The third recent breach.
  third :
      IsWatched i now 2 s → is_account_paused i (record_account_risk_breach i reason now s).1 ≡ true
  unfolding record_account_risk_breach get_pause_state count_rows
  third w = elim (Option-cases (get_pause_state i s.accounts)) [
    | inr (a, there) ↦ rw (record_account_risk_breach, there) (third_some a there w)
    | inl missing ↦ absurd (unwatched missing w)
  ]
    where
      unwatched : get_pause_state i s.accounts ≡ none → IsWatched i now 2 s → ⊥
      unwatched missing (inl paused) = ground (arith, ap is_paused_row missing)
      unwatched missing (inr (known, many)) = ground (arith, ap is_some missing)

      third_some :
          (a : PausableAccount)
          → get_pause_state i s.accounts ≡ some a
          → IsWatched i now 2 s
          → is_account_paused i (breach_of i reason now s (some a)).1 ≡ true
      third_some a there (inl paused) =
          rw (breach-paused i reason now s a there (sym (ap is_paused_row there) ∙ paused)) paused
      third_some a there (inr (known, many)) = elim (Bool-cases (is_some a.paused_at)) [
        | inl paused ↦
            rw (breach-paused i reason now s a there paused) (ap is_paused_row there ∙ paused)
        | inr free ↦ breach-pauses i reason now s a there free many
      ]

-- After three breaches of an account that is there, recorded one after another at times that do
-- not decrease and lie within one hour, the account is paused, whatever breaches were stored
-- before.
pub three_breaches-pause :
    (i : ℕ) (reason_1 reason_2 reason_3 : String) (t_1 t_2 t_3 : ℕ) (s : Risk)
    → is_account i s ≡ true
    → t_1 ≤ t_2
    → t_2 ≤ t_3
    → t_3 ≤ t_1 + window
    → let s_1 = (record_account_risk_breach i reason_1 t_1 s).1 in
      let s_2 = (record_account_risk_breach i reason_2 t_2 s_1).1 in
      is_account_paused i (record_account_risk_breach i reason_3 t_3 s_2).1 ≡ true
three_breaches-pause i reason_1 reason_2 reason_3 t_1 t_2 t_3 s known h k l =
    let s_1 = (record_account_risk_breach i reason_1 t_1 s).1 in
    let s_2 = (record_account_risk_breach i reason_2 t_2 s_1).1 in
    third i reason_3 t_3 s_2 (
      watched i reason_2 t_2 s_1 t_3 1 k (omega arith)
        (watched i reason_1 t_1 s t_3 0 (omega arith) l (inr (known, omega arith))))
