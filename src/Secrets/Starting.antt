-- ===== src/Secrets/Starting.antt =====
-- A start ends unlocked exactly in one case.
use tca.Base.{◌≡◌, refl, Bool, true, false, Option, none, some, [], ◌∷◌, Text, strip}
use tca.Secrets.{
  Mode, secure_interactive, auto_unlock, unsupported, UnlockState, SecretFile, not_set, missing,
  unreadable, contents, Startup, started, bootstrap_after, unlocked_with, startup,
  unlock_with_passphrase, initialize_startup_unlock_mode,
}

-- The secret of a file's text without the white space around it, if something is left.
abbrev pub nonblank : Text → Option Text
nonblank [] = none
nonblank (c ∷ cs) = some (c ∷ cs)

-- The secret that a start leaves.
abbrev pub secret_after : Mode → SecretFile → Bool → Option Text
secret_after auto_unlock (contents t) true = nonblank (strip t)
secret_after auto_unlock (contents t) false = none
secret_after auto_unlock not_set ok = none
secret_after auto_unlock missing ok = none
secret_after auto_unlock unreadable ok = none
secret_after secure_interactive file ok = none
secret_after unsupported file ok = none

-- A start that leaves a secret has ended well, and one without the bootstrap hook has not.
abbrev pub StartOutcome : Mode → SecretFile → Bool → Startup × UnlockState → Type 0
StartOutcome mode file ok (r, s) =
    (s.mode ≡ mode)
    × (s.unlock_secret ≡ secret_after mode file ok)
    × ((t : Text) → s.unlock_secret ≡ some t → r ≡ started)
    × (r ≡ started → ok ≡ true)

-- The case of a file that is read.
with_text :
    (u : Text) (ok : Bool)
    → let (r, s) =
        bootstrap_after ok
          (unlocked_with u (record { mode = auto_unlock; unlock_secret = none })) in
      (s.mode ≡ auto_unlock)
      × (s.unlock_secret ≡ (elim ok [ true ↦ nonblank u | false ↦ none ]))
      × ((t : Text) → s.unlock_secret ≡ some t → r ≡ started)
      × (r ≡ started → ok ≡ true)
unfolding unlock_with_passphrase
with_text [] true = (refl, refl, λ t h. cc, λ h. refl)
with_text [] false = (refl, refl, λ t h. cc, λ h. cc)
with_text (c ∷ cs) true = (refl, refl, λ t h. refl, λ h. refl)
with_text (c ∷ cs) false = (refl, refl, λ t h. cc, λ h. cc)

-- A start leaves the state in the configured mode. It leaves a secret only in the mode
-- auto-unlock, from a secret file that is read and is not blank, and when the bootstrap hook ends
-- without an error: the file's text without the white space around it; then the start has ended
-- well, and a start that ends well has a hook that did.
pub startup_outcome :
    (mode : Mode) (file : SecretFile) (ok : Bool) (s : UnlockState)
    → StartOutcome mode file ok (startup mode file ok s)
unfolding startup initialize_startup_unlock_mode
startup_outcome secure_interactive file true s = (refl, refl, λ t h. cc, λ h. refl)
startup_outcome secure_interactive file false s = (refl, refl, λ t h. cc, λ h. cc)
startup_outcome unsupported file ok s = (refl, refl, λ t h. cc, λ h. cc)
startup_outcome auto_unlock not_set ok s = (refl, refl, λ t h. cc, λ h. cc)
startup_outcome auto_unlock missing ok s = (refl, refl, λ t h. cc, λ h. cc)
startup_outcome auto_unlock unreadable ok s = (refl, refl, λ t h. cc, λ h. cc)
startup_outcome auto_unlock (contents t) true s = with_text (strip t) true
startup_outcome auto_unlock (contents t) false s = with_text (strip t) false
