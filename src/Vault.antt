-- ===== src/Vault.antt =====
-- Stored Telegram accounts: tca/auth/account_storage.py, tca/auth/session_storage.py and
-- tca/auth/key_material.py. The envelope encryption and the key derivation are parameters.
pub mod Sealed
pub mod Persist
mod Tests
use tca.Base.{
  ℕ, Bool, true, false, ◌&&◌, Option, none, some, List, [], ◌∷◌, ◌++◌, map, ◌==◌, if◌then◌else◌,
  is_some, keep, find_row, Text, same,
}
use tca.Store.{next_id}
use tca.Secrets.{UnlockState, get_sensitive_operation_secret}

-- The columns of `telegram_accounts` that hold credentials.
pub record StoredAccount : Type 0 where
  pub id : ℕ
  pub api_id : ℕ
  pub api_hash_encrypted : Text
  pub phone_number : Option Text
  pub session_encrypted : Option Text

abbrev pub is_phone : Text → StoredAccount → Bool
is_phone p a = elim a.phone_number [ none ↦ false | some q ↦ same p q ]

-- `one_or_none`: no row, one, or MultipleResultsFound.
pub data Rows : Type 0 where
  no_row multiple_rows : Rows
  one_row : StoredAccount → Rows

abbrev pub one_or_none : List StoredAccount → Rows
one_or_none [] = no_row
one_or_none (a ∷ []) = one_row a
one_or_none (a ∷ b ∷ rest) = multiple_rows

-- The id, or MultipleResultsFound.
pub data Stored : Type 0 where
  stored : ℕ → Stored
  ambiguous : Stored

-- `get_account_id_by_phone_number`.
pub data AccountId : Type 0 where
  no_account ambiguous_phone : AccountId
  account_id : ℕ → AccountId

abbrev pub id_of_rows : Rows → AccountId
id_of_rows no_row = no_account
id_of_rows multiple_rows = ambiguous_phone
id_of_rows (one_row a) = account_id a.id

unfoldable pub get_account_id_by_phone_number : Text → List StoredAccount → AccountId
unfolding keep same
get_account_id_by_phone_number p accounts = id_of_rows (one_or_none (keep (is_phone p) accounts))

abbrev pub is_account_id : ℕ → StoredAccount → Bool
is_account_id i a = i == a.id

abbrev pub set_session : ℕ → Text → StoredAccount → StoredAccount
set_session i sealed a = if i == a.id then record a { session_encrypted = some sealed } else a

-- `encrypt_with_envelope`, from the key and the plain text.
module _ (encrypt : Text → Text → Text) where
  abbrev pub set_credentials : ℕ → Text → Text → Text → StoredAccount → StoredAccount
  set_credentials api api_hash p key a =
      if is_phone p a
      then record a { api_id = api; api_hash_encrypted = encrypt key api_hash }
      else a

  abbrev pub new_account : ℕ → Text → Option Text → Text → List StoredAccount → StoredAccount
  new_account api api_hash phone key accounts = record {
    id = next_id (map (λ (a : StoredAccount). a.id) accounts);
    api_id = api;
    api_hash_encrypted = encrypt key api_hash;
    phone_number = phone;
    session_encrypted = none;
  }

  abbrev pub upsert_rows :
      ℕ → Text → Text → Text → List StoredAccount → Rows → Stored × List StoredAccount
  upsert_rows api api_hash p key accounts multiple_rows = (ambiguous, accounts)
  upsert_rows api api_hash p key accounts (one_row a) =
      (stored a.id, map (set_credentials api api_hash p key) accounts)
  upsert_rows api api_hash p key accounts no_row =
      let a = new_account api api_hash (some p) key accounts in (stored a.id, accounts ++ a ∷ [])

  -- `upsert_account`: an account with this phone number is updated; an error writes nothing.
  unfoldable pub upsert_account :
      ℕ → Text → Option Text → Text → List StoredAccount → Stored × List StoredAccount
  unfolding next_id keep same
  upsert_account api api_hash none key accounts =
      let a = new_account api api_hash none key accounts in (stored a.id, accounts ++ a ∷ [])
  upsert_account api api_hash (some p) key accounts =
      upsert_rows api api_hash p key accounts (one_or_none (keep (is_phone p) accounts))

  -- `persist_session`: whether the account is there, else TelegramAccountNotFoundError.
  unfoldable pub persist_session : ℕ → Text → Text → List StoredAccount → Bool × List StoredAccount
  unfolding find_row
  persist_session i session key accounts =
      let accounts' = map (set_session i (encrypt key session)) accounts in
      (is_some (find_row (is_account_id i) accounts'), accounts')

-- A session, none, a payload that the key does not open, or no such account.
pub data Loaded : Type 0 where
  session : Text → Loaded
  no_session unreadable no_such_account : Loaded

abbrev pub decrypted : Option Text → Loaded
decrypted none = unreadable
decrypted (some t) = session t

-- `decrypt_with_envelope`, `none` for a payload that it refuses.
module _ (decrypt : Text → Text → Option Text) where
  abbrev pub loaded : Text → Option StoredAccount → Loaded
  loaded key none = no_such_account
  loaded key (some a) = elim a.session_encrypted [
    | none ↦ no_session
    | some sealed ↦ decrypted (decrypt key sealed)
  ]

  -- `load_session`.
  unfoldable pub load_session : ℕ → Text → List StoredAccount → Loaded
  unfolding find_row
  load_session i key accounts = loaded key (find_row (is_account_id i) accounts)

-- The unlock state, and the stored salt of the key derivation.
pub record Keyring : Type 0 where
  pub unlock : UnlockState
  pub salt : Option Text

abbrev pub salt_of : Text → Option Text → Text
salt_of new none = new
salt_of new (some old) = old

-- `resolve_key_encryption_key` with the random salt that it stores when there is none; `none` stands for
-- SensitiveOperationLockedError.
abbrev pub key_from : (Text → Text → Text) → Text → Keyring → Option Text → Option Text × Keyring
key_from derive new ring none = (none, ring)
key_from derive new ring (some secret) = (
  some (derive secret (salt_of new ring.salt)),
  record ring { salt = some (salt_of new ring.salt) },
)

unfoldable pub resolve_key_encryption_key :
    (Text → Text → Text) → Text → Keyring → Option Text × Keyring
resolve_key_encryption_key derive new ring =
    key_from derive new ring (get_sensitive_operation_secret ring.unlock)
