-- ===== src/Retention.antt =====
-- tca/ops/prune_job.py: how many days rows are kept, from the stored settings.
pub mod Days
use tca.Base.{ℕ, zero, suc, Bool, true, false, Option, none, some, if◌then◌else◌}
use tca.Base.Int.{ℤ, pos, negsuc}

-- A stored setting, as the resolution looks at it: a float is known by `is_integer` and the integer
-- that it is.
pub data SettingValue : Type 0 where
  boolean : Bool → SettingValue
  integer : ℤ → SettingValue
  float : Option ℤ → SettingValue
  other : SettingValue

pub record RetentionPruneSettings : Type 0 where
  pub raw_messages_days : ℕ
  pub items_days : ℕ
  pub ingest_errors_days : ℕ

-- `_resolve_days_numeric`.
unfoldable pub resolve_days_numeric : ℤ → Bool → ℕ → ℕ
resolve_days_numeric (negsuc n) allow_zero default_value = default_value
resolve_days_numeric (pos zero) allow_zero default_value = if allow_zero then 0 else default_value
resolve_days_numeric (pos (suc n)) allow_zero default_value = suc n

-- `_resolve_positive_days_setting`, on the stored row.
unfoldable pub resolve_positive_days_setting : Option SettingValue → ℕ → Bool → ℕ
unfolding resolve_days_numeric
resolve_positive_days_setting none default_value allow_zero = default_value
resolve_positive_days_setting (some (boolean b)) default_value allow_zero = default_value
resolve_positive_days_setting (some (integer n)) default_value allow_zero =
    resolve_days_numeric n allow_zero default_value
resolve_positive_days_setting (some (float none)) default_value allow_zero = default_value
resolve_positive_days_setting (some (float (some n))) default_value allow_zero =
    resolve_days_numeric n allow_zero default_value
resolve_positive_days_setting (some other) default_value allow_zero = default_value

-- The three rows that `_resolve_settings` reads.
pub record StoredSettings : Type 0 where
  pub raw_messages : Option SettingValue
  pub items : Option SettingValue
  pub ingest_errors : Option SettingValue

-- `_resolve_settings`.
unfoldable pub resolve_settings : StoredSettings → RetentionPruneSettings
unfolding resolve_positive_days_setting
resolve_settings s = record {
  raw_messages_days = resolve_positive_days_setting s.raw_messages 30 false;
  items_days = resolve_positive_days_setting s.items 365 true;
  ingest_errors_days = resolve_positive_days_setting s.ingest_errors 90 false;
}
