-- ===== src/Retention/Days.antt =====
-- The days that the settings give.
use tca.Base.{ℕ, zero, suc, ◌<◌, false, Option, none, some, arith}
use tca.Base.Int.{pos, negsuc}
use tca.Retention.{
  SettingValue, boolean, integer, float, other, StoredSettings, resolve_positive_days_setting,
  resolve_settings,
}

resolve_days_numeric_pos :
    (v : SettingValue) (d : ℕ) → 0 < d → 0 < resolve_positive_days_setting (some v) d false
unfolding resolve_positive_days_setting
resolve_days_numeric_pos (boolean b) d h = h
resolve_days_numeric_pos (integer (negsuc n)) d h = h
resolve_days_numeric_pos (integer (pos zero)) d h = h
resolve_days_numeric_pos (integer (pos (suc n))) d h = omega arith
resolve_days_numeric_pos (float none) d h = h
resolve_days_numeric_pos (float (some (negsuc n))) d h = h
resolve_days_numeric_pos (float (some (pos zero))) d h = h
resolve_days_numeric_pos (float (some (pos (suc n)))) d h = omega arith
resolve_days_numeric_pos other d h = h

days_pos : (o : Option SettingValue) (d : ℕ) → 0 < d → 0 < resolve_positive_days_setting o d false
unfolding resolve_positive_days_setting
days_pos none d h = h
days_pos (some v) d h = resolve_days_numeric_pos v d h

-- Whatever is stored in the settings, raw messages and ingest errors are kept for a day at least.
pub resolve_settings_pos :
    (s : StoredSettings)
    → (0 < (resolve_settings s).raw_messages_days) × (0 < (resolve_settings s).ingest_errors_days)
unfolding resolve_settings
resolve_settings_pos s =
    (days_pos s.raw_messages 30 (omega arith), days_pos s.ingest_errors 90 (omega arith))
