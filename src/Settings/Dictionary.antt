-- ===== src/Settings/Dictionary.antt =====
-- The table is a dictionary: what each operation answers and does, in terms of the value of each key.
use mathlib.Core.Path.{fun_ext}
use tca.Base.{
  ◌≡◌, refl, sym, ◌∙◌, inl, inr, Bool, true, false, not, Option, none, some, List, [], ◌∷◌, map,
  arith, if◌then◌else◌, is_some, keep, exists_row, Bool-cases, find_row, Text, same, same_eq,
}
use tca.Settings.{
  SettingRecord, has_key, create, get_by_key, set_value, update, upsert, matches,
  delete_if_value_matches, delete,
}
use tca.Settings.Lookup.{
  value_in, lookup, AreDistinct, same_left, same_join, is_some-lookup, lookup-set, lookup-snoc,
  lookup-delete, keep-AreDistinct, set-AreDistinct, snoc-AreDistinct, none_left, exists_row-set,
}

pub data Operation (V : Type 0) : Type 0 where
  creates updates upserts deletes_value : Text → V → Operation V
  deletes : Text → Operation V

module _ {V : Type 0} (encode : V → Text) where
  unfoldable pub run_one : Operation V → List (SettingRecord V) → Bool × List (SettingRecord V)
  unfolding create update upsert delete_if_value_matches delete
  run_one (creates k v) rows = let (r, rows') = create k v rows in (is_some r, rows')
  run_one (updates k v) rows = let (r, rows') = update k v rows in (is_some r, rows')
  run_one (upserts k v) rows = (true, (upsert k v rows).1)
  run_one (deletes_value k v) rows = delete_if_value_matches encode k v rows
  run_one (deletes k) rows = (true, delete k rows)

  abbrev pub holds : V → Option V → Bool
  holds v none = false
  holds v (some w) = same (encode v) (encode w)

  -- The same on a dictionary: whether the operation succeeds, and the value of a key after it.
  abbrev pub succeeds : Operation V → (Text → Option V) → Bool
  succeeds (creates k v) d = not (is_some (d k))
  succeeds (updates k v) d = is_some (d k)
  succeeds (upserts k v) d = true
  succeeds (deletes_value k v) d = holds v (d k)
  succeeds (deletes k) d = true

  abbrev pub changed : Operation V → (Text → Option V) → Text → Option V
  changed (creates k v) d j = if same j k then (if is_some (d k) then d k else some v) else d j
  changed (updates k v) d j = if same j k then (if is_some (d k) then some v else none) else d j
  changed (upserts k v) d j = if same j k then some v else d j
  changed (deletes_value k v) d j = if same j k then (if holds v (d k) then none else d k) else d j
  changed (deletes k) d j = if same j k then none else d j

module _ {V : Type 0} (encode : V → Text) where
  pub lookup-matches :
      (j k : Text) (v : V) (rows : List (SettingRecord V))
      → AreDistinct rows
      → lookup (keep (λ r. not (matches encode k v r)) rows) j ≡ (
          if same j k
          then (if holds encode v (lookup rows k) then none else lookup rows k)
          else lookup rows j)
  unfolding get_by_key find_row keep
  lookup-matches j k v [] u = ground arith
  lookup-matches j k v (r ∷ rs) u = ground (
    arith,
    lookup-matches j k v rs u.1,
    same_left j k r.key,
    same_join j k r.key,
    none_left k r rs u.0,
    none_left j r rs u.0,
  )

  exists_row-matches :
      (k : Text) (v : V) (rows : List (SettingRecord V))
      → AreDistinct rows
      → exists_row (matches encode k v) rows ≡ holds encode v (lookup rows k)
  unfolding get_by_key find_row exists_row
  exists_row-matches k v [] u = refl
  exists_row-matches k v (r ∷ rs) u =
      ground (arith, exists_row-matches k v rs u.1, none_left k r rs u.0)

  unchanged :
      (j k : Text) (rows : List (SettingRecord V))
      → lookup rows j ≡ (if same j k then lookup rows k else lookup rows j)
  unchanged j k rows = elim (Bool-cases (same j k)) [
    | inl e ↦ rw (e, same_eq j k e) refl
    | inr e ↦ rw e refl
  ]

  -- One operation answers and acts as it does on the dictionary, and keeps the keys distinct.
  run_one_lem :
      (o : Operation V) (rows : List (SettingRecord V))
      → AreDistinct rows
      → ((run_one encode o rows).0 ≡ succeeds encode o (lookup rows))
        × (((j : Text) → lookup (run_one encode o rows).1 j ≡ changed encode o (lookup rows) j)
            × AreDistinct (run_one encode o rows).1)
  unfolding run_one create update upsert delete_if_value_matches delete
  run_one_lem (creates k v) rows u = elim (Bool-cases (exists_row (has_key k) rows)) [
    | inl e ↦ rw (create, is_some-lookup k rows, e) (refl, (λ j. unchanged j k rows, u))
    | inr e ↦
        rw (create, is_some-lookup k rows, e)
          (refl, (λ j. lookup-snoc j k v rows e, snoc-AreDistinct k v rows e u))
  ]
  run_one_lem (updates k v) rows u = (
    is_some_in (get_by_key k (map (set_value k v) rows)) ∙ set_there,
    (λ j. rw (is_some-lookup k rows) (lookup-set j k v rows), set-AreDistinct k v rows u),
  )
    where
      is_some_in : (o : Option (SettingRecord V)) → is_some o ≡ is_some (value_in o)
      is_some_in none = refl
      is_some_in (some r) = refl

      set_there : is_some (lookup (map (set_value k v) rows) k) ≡ is_some (lookup rows k)
      set_there =
          is_some-lookup k (map (set_value k v) rows)
          ∙ exists_row-set k k v rows
          ∙ sym (is_some-lookup k rows)
  run_one_lem (upserts k v) rows u = elim (Bool-cases (exists_row (has_key k) rows)) [
    | inl e ↦ rw e (refl, (λ j. lookup-set j k v rows ∙ rw e refl, set-AreDistinct k v rows u))
    | inr e ↦ rw e (refl, (λ j. lookup-snoc j k v rows e, snoc-AreDistinct k v rows e u))
  ]
  run_one_lem (deletes_value k v) rows u = (
    exists_row-matches k v rows u,
    (λ j. lookup-matches j k v rows u, keep-AreDistinct (λ r. not (matches encode k v r)) rows u),
  )
  run_one_lem (deletes k) rows u =
      (refl, (λ j. lookup-delete j k rows, keep-AreDistinct (λ r. not (has_key k r)) rows u))

  -- Any operations, one after another.
  unfoldable pub run_all :
      List (Operation V) → List (SettingRecord V) → List Bool × List (SettingRecord V)
  unfolding run_one
  run_all [] rows = ([], rows)
  run_all (o ∷ os) rows =
      let (b, rows') = run_one encode o rows in
      let (bs, rows'') = run_all os rows' in (b ∷ bs, rows'')

  unfoldable pub answers : List (Operation V) → (Text → Option V) → List Bool
  answers [] d = []
  answers (o ∷ os) d = succeeds encode o d ∷ answers os (changed encode o d)

  unfoldable pub changed_all : List (Operation V) → (Text → Option V) → Text → Option V
  changed_all [] d = d
  changed_all (o ∷ os) d = changed_all os (changed encode o d)

  -- On a table whose keys are distinct, any operations of the settings repository, one after
  -- another, answer as on a dictionary from keys to values, and leave the values that the
  -- dictionary then has. On the dictionary a creation succeeds when the key has no value, an
  -- update when it has one, a conditional deletion when the value's text is the expected one;
  -- each changes the value of its own key only, and when it fails that of none.
  pub run_all_lem :
      (os : List (Operation V)) (rows : List (SettingRecord V))
      → AreDistinct rows
      → ((run_all os rows).0 ≡ answers os (lookup rows))
        × ((k : Text) → lookup (run_all os rows).1 k ≡ changed_all os (lookup rows) k)
  unfolding run_all answers changed_all
  run_all_lem [] rows u = (refl, λ k. refl)
  run_all_lem (o ∷ os) rows u =
      let (a, (b, w)) = run_one_lem o rows u in
      let (c, d) = run_all_lem os (run_one encode o rows).1 w in
      let same_after : lookup (run_one encode o rows).1 ≡ changed encode o (lookup rows) =
        fun_ext b in
      (rw (sym same_after) rw (a, c) refl, λ k. rw (sym same_after) (d k))
