-- ===== src/Prune/Once.antt =====
-- `run_once`: the settings, the cutoffs and the transaction.
use tca.Base.{ℕ, ◌≡◌, ◌⊎◌, Option, none, some}
use tca.Store.{Database}
use tca.Prune.{RunResult, overflow, out_of_fuel, done}
use tca.Prune.Run.{Pruned}

-- A run that is done has pruned at its three cutoffs; one that overflows has a cutoff that does not
-- exist; none runs out of fuel.
abbrev pub RunOutcome : (ℕ → ℕ) → Option ℕ → Option ℕ → Option ℕ → Database → RunResult → Type 0
RunOutcome stored raw items errors db (done s db') =
    (a : ℕ) × (b : ℕ) × (c : ℕ) × (raw ≡ some a)
    × (items ≡ some b)
    × (errors ≡ some c)
    × Pruned (stored a) (stored b) (stored c) db s db'
RunOutcome stored raw items errors db overflow = (raw ≡ none) ⊎ ((items ≡ none) ⊎ (errors ≡ none))
RunOutcome stored raw items errors db out_of_fuel = ⊥
