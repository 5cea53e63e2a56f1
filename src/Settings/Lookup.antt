-- ===== src/Settings/Lookup.antt =====
-- The value of each key in a table, and what changed tables hold.
use tca.Base.{
  ◌≡◌, refl, sym, ◌∙◌, inl, inr, Bool, true, false, not, Option, none, some, List, [], ◌∷◌, ◌++◌,
  map, arith, if◌then◌else◌, is_some, keep, exists_row, Bool-cases, find_row, Text, same, same_sym,
  same_eq,
}
use tca.Settings.{SettingRecord, has_key, get_by_key, set_value}

-- Keys that are the same have the same rows.
pub same_left : (j k x : Text) → same j k ≡ true → same j x ≡ same k x
same_left j k x h = rw (same_eq j k h) refl

pub same_join : (j k x : Text) → same j x ≡ true → same k x ≡ true → same j k ≡ true
same_join j k x h g = rw (same_eq j x h) (sym (same_sym k x) ∙ g)

module _ {V : Type 0} where
  abbrev pub value_in : Option (SettingRecord V) → Option V
  value_in none = none
  value_in (some r) = some r.value

  -- The dictionary of a table.
  abbrev pub lookup : List (SettingRecord V) → Text → Option V
  lookup rows k = value_in (get_by_key k rows)

  -- Distinct keys: UNIQUE (key).
  abbrev pub AreDistinct : List (SettingRecord V) → Type 0
  AreDistinct [] = Unit
  AreDistinct (r ∷ rs) = (exists_row (has_key r.key) rs ≡ false) × AreDistinct rs

module _ {V : Type 0} where
  pub is_some-lookup :
      (k : Text) (rows : List (SettingRecord V))
      → is_some (lookup rows k) ≡ exists_row (has_key k) rows
  unfolding get_by_key find_row exists_row
  is_some-lookup k [] = refl
  is_some-lookup k (r ∷ rs) = ground (arith, is_some-lookup k rs)

  pub lookup-set :
      (j k : Text) (v : V) (rows : List (SettingRecord V))
      → lookup (map (set_value k v) rows) j ≡ (
          if same j k
          then (if exists_row (has_key k) rows then some v else none)
          else lookup rows j)
  unfolding get_by_key find_row exists_row
  lookup-set j k v [] = ground arith
  lookup-set j k v (r ∷ rs) =
      ground (arith, lookup-set j k v rs, same_left j k r.key, same_join j k r.key)

  pub lookup-snoc :
      (j k : Text) (v : V) (rows : List (SettingRecord V))
      → exists_row (has_key k) rows ≡ false
      → lookup (rows ++ record { key = k; value = v } ∷ []) j
        ≡ (if same j k then some v else lookup rows j)
  unfolding get_by_key find_row exists_row
  lookup-snoc j k v [] h = ground arith
  lookup-snoc j k v (r ∷ rs) h =
      ground (arith, lookup-snoc j k v rs, same_left j k r.key, same_join j k r.key)

  pub lookup-delete :
      (j k : Text) (rows : List (SettingRecord V))
      → lookup (keep (λ r. not (has_key k r)) rows) j ≡ (if same j k then none else lookup rows j)
  unfolding get_by_key find_row keep
  lookup-delete j k [] = ground arith
  lookup-delete j k (r ∷ rs) =
      ground (arith, lookup-delete j k rs, same_left j k r.key, same_join j k r.key)

  lookup-none :
      (k : Text) (rows : List (SettingRecord V))
      → exists_row (has_key k) rows ≡ false
      → lookup rows k ≡ none
  unfolding get_by_key find_row exists_row
  lookup-none k [] h = refl
  lookup-none k (r ∷ rs) h = ground (arith, lookup-none k rs)

  exists_row-keep_no :
      (k : Text) (p : SettingRecord V → Bool) (rows : List (SettingRecord V))
      → exists_row (has_key k) rows ≡ false
      → exists_row (has_key k) (keep p rows) ≡ false
  unfolding exists_row keep
  exists_row-keep_no k p [] h = refl
  exists_row-keep_no k p (r ∷ rs) h = ground (arith, exists_row-keep_no k p rs)

  pub keep-AreDistinct :
      (p : SettingRecord V → Bool) (rows : List (SettingRecord V))
      → AreDistinct rows
      → AreDistinct (keep p rows)
  unfolding keep
  keep-AreDistinct p [] u = tt
  keep-AreDistinct p (r ∷ rs) u = elim (Bool-cases (p r)) [
    | inl e ↦ rw e (exists_row-keep_no r.key p rs u.0, keep-AreDistinct p rs u.1)
    | inr e ↦ rw e (keep-AreDistinct p rs u.1)
  ]

  pub exists_row-set :
      (j k : Text) (v : V) (rows : List (SettingRecord V))
      → exists_row (has_key j) (map (set_value k v) rows) ≡ exists_row (has_key j) rows
  unfolding exists_row
  exists_row-set j k v [] = refl
  exists_row-set j k v (r ∷ rs) = ground (arith, exists_row-set j k v rs)

  pub set-AreDistinct :
      (k : Text) (v : V) (rows : List (SettingRecord V))
      → AreDistinct rows
      → AreDistinct (map (set_value k v) rows)
  set-AreDistinct k v [] u = tt
  set-AreDistinct k v (r ∷ rs) u = elim (Bool-cases (same k r.key)) [
    | inl e ↦ rw e (exists_row-set r.key k v rs ∙ u.0, set-AreDistinct k v rs u.1)
    | inr e ↦ rw e (exists_row-set r.key k v rs ∙ u.0, set-AreDistinct k v rs u.1)
  ]

  exists_row-last :
      (j k : Text) (v : V) (rows : List (SettingRecord V))
      → exists_row (has_key j) rows ≡ false
      → same j k ≡ false
      → exists_row (has_key j) (rows ++ record { key = k; value = v } ∷ []) ≡ false
  unfolding exists_row
  exists_row-last j k v [] h g = ground arith
  exists_row-last j k v (r ∷ rs) h g = ground (arith, exists_row-last j k v rs)

  pub snoc-AreDistinct :
      (k : Text) (v : V) (rows : List (SettingRecord V))
      → exists_row (has_key k) rows ≡ false
      → AreDistinct rows
      → AreDistinct (rows ++ record { key = k; value = v } ∷ [])
  unfolding exists_row
  snoc-AreDistinct k v [] h u = (refl, tt)
  snoc-AreDistinct k v (r ∷ rs) h u = (
    exists_row-last r.key k v rs u.0 (same_sym r.key k ∙ ground arith),
    snoc-AreDistinct k v rs (ground arith) u.1,
  )

  pub none_left :
      (k : Text) (r : SettingRecord V) (rs : List (SettingRecord V))
      → exists_row (has_key r.key) rs ≡ false
      → same k r.key ≡ true
      → lookup rs k ≡ none
  none_left k r rs h e = lookup-none k rs (rw (same_eq k r.key e) h)
