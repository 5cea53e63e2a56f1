-- ===== src/Secrets/Token.antt =====
-- The bootstrap token is made once, and is what the API then asks for.
use tca.Base.{
  ◌≡◌, refl, sym, ap, ◌∙◌, inl, inr, Bool, true, false, not, ◌&&◌, ◌||◌, some_inj, Option, none,
  some, [], ◌∷◌, ◌++◌, arith, if◌then◌else◌, keep, exists_row, Bool-cases, Text, same, same_refl,
  same_eq, is_some,
}
use tca.Settings.{SettingRecord, has_key, create, get_by_key, matches, delete_if_value_matches}
use tca.Settings.Lookup.{
  value_in, lookup, AreDistinct, lookup-snoc, is_some-lookup, snoc-AreDistinct,
}
use tca.Settings.Dictionary.{lookup-matches}
use tca.Secrets.{
  Value, string, Settings, digest_key, Ensured, present, created, write_failed, accepts,
  ensure_bootstrap_bearer_token, token_absent, token_created, require_bearer_auth,
}

-- A row with a new key, and its removal.
module _ (encode : Value → Text) (key : Text) (v : Value) (rows : Settings)
    (e : exists_row (has_key key) rows ≡ false) where
  abbrev row : SettingRecord Value
  row = record { key = key; value = v }

  lookup_new :
      (k : Text) → lookup (rows ++ row ∷ []) k ≡ (if same k key then some v else lookup rows k)
  lookup_new k = lookup-snoc k key v rows e

  lookup_absent : lookup rows key ≡ none
  lookup_absent = absent (lookup rows key) (is_some-lookup key rows ∙ e)
    where
      absent : (o : Option Value) → is_some o ≡ false → o ≡ none
      absent none h = refl
      absent (some w) h = cc

  at_key :
      (k : Text)
      → (if same k key then none else if same k key then some v else lookup rows k) ≡ lookup rows k
  at_key k = elim (Bool-cases (same k key)) [
    | inl h ↦ rw h (rw (same_eq k key h) (sym lookup_absent))
    | inr h ↦ rw h refl
  ]

  rolled_back :
      AreDistinct rows
      → (k : Text)
      → lookup (keep (λ r. not (matches encode key v r)) (rows ++ row ∷ [])) k ≡ lookup rows k
  rolled_back u k =
      lookup-matches encode k key v (rows ++ row ∷ []) (snoc-AreDistinct key v rows e u)
      ∙ rw (lookup_new key, same_refl key, same_refl (encode v), lookup_new k) (at_key k)

module _ (encode : Value → Text) (digest : Text → Text) (token : Text) where
  -- How a start can end: a token is there already and nothing changes; or the token is new, its file is
  -- written, and requests are let through exactly when they have a token with its digest; or the file
  -- cannot be written and every setting has the value that it had.
  abbrev pub TokenOutcome : Bool → Settings → Settings → Ensured × Settings → Type 0
  TokenOutcome written seen rows (present, rows') =
      ((is_some (lookup seen digest_key) || is_some (lookup rows digest_key)) ≡ true)
      × (rows' ≡ rows)
  TokenOutcome written seen rows (created, rows') =
      (written ≡ true)
      × ((presented : Text)
          → require_bearer_auth encode digest (some presented) rows'
            ≡ (not (same presented []) && same (digest token) (digest presented)))
      × ((k : Text) → same k digest_key ≡ false → lookup rows' k ≡ lookup rows k)
  TokenOutcome written seen rows (write_failed, rows') =
      (written ≡ false) × ((k : Text) → lookup rows' k ≡ lookup rows k)

  accepts_value :
      (t d : Text) (o : Option (SettingRecord Value))
      → value_in o ≡ some (string d)
      → accepts encode digest t o ≡ same d (digest t)
  accepts_value t d none h = cc
  accepts_value t d (some r) h = rw (some_inj h) refl

  module _ (seen rows : Settings) (u : AreDistinct rows) where
    abbrev grown : Settings
    grown = rows ++ record { key = digest_key; value = string (digest token) } ∷ []

    found :
        exists_row (has_key digest_key) rows ≡ false
        → (presented : Text)
        → require_bearer_auth encode digest (some presented) grown
          ≡ (not (same presented []) && same (digest token) (digest presented))
    unfolding require_bearer_auth same
    found e [] = refl
    found e (c ∷ cs) = accepts_value (c ∷ cs) (digest token) (get_by_key digest_key grown) (
        lookup_new encode digest_key (string (digest token)) rows e digest_key
        ∙ ap (λ b. if b then some (string (digest token)) else lookup rows digest_key)
            (same_refl digest_key))

    wrote :
        (written : Bool)
        → exists_row (has_key digest_key) rows ≡ false
        → TokenOutcome written seen rows (
            token_created encode digest token written
              (some (record { key = digest_key; value = string (digest token) }), grown))
    unfolding delete_if_value_matches
    wrote true e = (
      refl,
      found e,
      λ k h.
          lookup_new encode digest_key (string (digest token)) rows e k
          ∙ ap (λ b. if b then some (string (digest token)) else lookup rows k) h,
    )
    wrote false e = (refl, rolled_back encode digest_key (string (digest token)) rows e u)

    new_token :
        (written : Bool)
        → TokenOutcome written seen rows (token_absent encode digest token written rows none)
    unfolding create
    new_token written = elim (Bool-cases (exists_row (has_key digest_key) rows)) [
      | inl there ↦ rw there (
        or_right (is_some (lookup seen digest_key)) (is_some-lookup digest_key rows ∙ there),
        refl,
      )
      | inr free ↦ rw free (wrote written free)
    ]
      where
        or_right : (a : Bool) {b : Bool} → b ≡ true → (a || b) ≡ true
        or_right a h = ground arith

    -- On settings with distinct keys, whatever the first look at them saw, the creation of the
    -- bootstrap token ends in one of three ways: a digest was seen or is there, and nothing
    -- changes; or the token's file is written, and then a request is let through exactly when its
    -- token is not empty and has the digest of the new one, every other setting keeping its
    -- value; or the file could not be written, and every setting has the value that it had.
    pub ensure_bootstrap_bearer_token_outcome :
        (written : Bool)
        → TokenOutcome written seen rows
            (ensure_bootstrap_bearer_token encode digest token written seen rows)
    unfolding ensure_bootstrap_bearer_token
    ensure_bootstrap_bearer_token_outcome written = seen_or_not (get_by_key digest_key seen) refl
      where
        or_left : {a : Bool} (b : Bool) → a ≡ true → (a || b) ≡ true
        or_left b h = ground arith

        seen_or_not :
            (o : Option (SettingRecord Value))
            → get_by_key digest_key seen ≡ o
            → TokenOutcome written seen rows (token_absent encode digest token written rows o)
        seen_or_not none e = new_token written
        seen_or_not (some r) e =
            (or_left (is_some (lookup rows digest_key)) (ap (λ o. is_some (value_in o)) e), refl)
