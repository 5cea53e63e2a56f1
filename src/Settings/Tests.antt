-- ===== src/Settings/Tests.antt =====
-- Operations on two settings, and the theorem at them.
use tca.Base.{◌≡◌, refl, true, false, List, [], ◌∷◌, Text, codes, exists_row, same}
use tca.Settings.{SettingRecord}
use tca.Settings.Lookup.{lookup, AreDistinct}
use tca.Settings.Dictionary.{
  Operation, creates, updates, upserts, deletes_value, deletes, run_all, answers, changed_all,
  run_all_lem,
}

abbrev rows : List (SettingRecord Text)
rows =
    record { key = codes "a"; value = codes "1" }
    ∷ record { key = codes "b"; value = codes "2" }
    ∷ []

rows-AreDistinct : AreDistinct rows
unfolding exists_row same
rows-AreDistinct = (refl, (refl, tt))

abbrev operations : List (Operation Text)
operations =
    creates (codes "a") (codes "3")
    ∷ upserts (codes "c") (codes "4")
    ∷ updates (codes "b") (codes "5")
    ∷ deletes_value (codes "a") (codes "9")
    ∷ deletes (codes "a")
    ∷ updates (codes "a") (codes "6")
    ∷ []

run_all_lem_example :
    ((run_all (λ v. v) operations rows).0 ≡ answers (λ v. v) operations (lookup rows))
    × ((k : Text)
        → lookup (run_all (λ v. v) operations rows).1 k
          ≡ changed_all (λ v. v) operations (lookup rows) k)
run_all_lem_example = run_all_lem (λ v. v) operations rows rows-AreDistinct

ran : (run_all (λ v. v) operations rows).0 ≡ false ∷ true ∷ true ∷ false ∷ true ∷ false ∷ []
unfolding run_all
ran = refl
