-- ===== src/Settings.antt =====
-- tca/storage/settings_repo.py: the table `settings`. A row's value is of any type of JSON values, and
-- `encode` is the text that json.dumps gives for one; decoding it gives the value back.
pub mod Lookup
pub mod Dictionary
mod Tests
use tca.Base.{
  Bool, true, false, not, ◌&&◌, Option, none, some, List, [], ◌∷◌, ◌++◌, map, if◌then◌else◌, keep,
  exists_row, find_row, Text, same,
}

pub record SettingRecord (V : Type 0) : Type 0 where
  pub key : Text
  pub value : V

module _ {V : Type 0} where
  abbrev pub has_key : Text → SettingRecord V → Bool
  has_key k r = same k r.key

  -- `create`: `none` stands for SettingAlreadyExistsError, after which nothing is written.
  unfoldable pub create :
      Text → V → List (SettingRecord V) → Option (SettingRecord V) × List (SettingRecord V)
  unfolding exists_row same
  create k v rows =
      if exists_row (has_key k) rows then (none, rows) else (some row, rows ++ row ∷ [])
    where
      row : SettingRecord V
      row = record { key = k; value = v }

  -- `get_by_key`.
  unfoldable pub get_by_key : Text → List (SettingRecord V) → Option (SettingRecord V)
  unfolding find_row same
  get_by_key k rows = find_row (has_key k) rows

  abbrev pub set_value : Text → V → SettingRecord V → SettingRecord V
  set_value k v r = if same k r.key then record { key = r.key; value = v } else r

  -- `update`.
  unfoldable pub update :
      Text → V → List (SettingRecord V) → Option (SettingRecord V) × List (SettingRecord V)
  unfolding get_by_key
  update k v rows = let rows' = map (set_value k v) rows in (get_by_key k rows', rows')

  -- `upsert`.
  unfoldable pub upsert :
      Text → V → List (SettingRecord V) → SettingRecord V × List (SettingRecord V)
  unfolding exists_row same
  upsert k v rows =
      (row, if exists_row (has_key k) rows then map (set_value k v) rows else rows ++ row ∷ [])
    where
      row : SettingRecord V
      row = record { key = k; value = v }

  abbrev pub matches : (V → Text) → Text → V → SettingRecord V → Bool
  matches encode k v r = same k r.key && same (encode v) (encode r.value)

  -- `delete_if_value_matches`.
  unfoldable pub delete_if_value_matches :
      (V → Text) → Text → V → List (SettingRecord V) → Bool × List (SettingRecord V)
  unfolding exists_row keep same
  delete_if_value_matches encode k v rows =
      (exists_row (matches encode k v) rows, keep (λ r. not (matches encode k v r)) rows)

  -- `delete`.
  unfoldable pub delete : Text → List (SettingRecord V) → List (SettingRecord V)
  unfolding keep same
  delete k rows = keep (λ r. not (has_key k r)) rows
