-- ===== src/Dedupe/Exact.antt =====
-- The exact URL strategy (tca/dedupe/exact_url_strategy.py) against a description of it.
use tca.Base.{
  ◌≡◌, refl, ap, Bool, true, false, ◌||◌, Option, none, some, Text, same, same_sym, if◌then◌else◌,
}
use tca.Dedupe.{
  Floats, StrategyResult, compared, by_hash, evaluate_exact_url, exact_url_match,
  exact_url_mismatch, exact_url_missing,
}

-- Both are there; both are there and the same.
abbrev pub comparable : Option Text → Option Text → Bool
comparable (some a) (some b) = true
comparable (some a) none = false
comparable none b = false

abbrev pub equal : Option Text → Option Text → Bool
equal (some a) (some b) = same a b
equal (some a) none = false
equal none b = false

-- What is known of one comparison.
abbrev Agrees : Option Bool → Bool → Bool → Type 0
Agrees (some b) comparable equal = (comparable ≡ true) × (equal ≡ b)
Agrees none comparable equal = (comparable ≡ false) × (equal ≡ false)

Agrees-compared : (a b : Option Text) → Agrees (compared a b) (comparable a b) (equal a b)
Agrees-compared (some a) (some b) = (refl, refl)
Agrees-compared (some a) none = (refl, refl)
Agrees-compared none b = (refl, refl)

compared_sym : (a b : Option Text) → compared a b ≡ compared b a
compared_sym (some a) (some b) = ap some (same_sym a b)
compared_sym (some a) none = refl
compared_sym none (some b) = refl
compared_sym none none = refl

module _ (F : Floats) (Object : Type 0) where
  -- The verdict from four tests.
  abbrev pub verdict : Bool → Bool → StrategyResult F Object
  verdict any_equal any_comparable =
      if any_equal
      then exact_url_match F Object
      else if any_comparable
      then exact_url_mismatch F Object
      else exact_url_missing F Object

  by_hash_lem :
      (hashes urls : Option Bool) (hash_comparable hash_equal url_comparable url_equal : Bool)
      → Agrees hashes hash_comparable hash_equal
      → Agrees urls url_comparable url_equal
      → by_hash F Object hashes urls
        ≡ verdict (hash_equal || url_equal) (hash_comparable || url_comparable)
  unfolding by_hash
  by_hash_lem (some true) urls c e c' e' h k = rw h.1 refl
  by_hash_lem (some false) (some true) c e c' e' h k = rw (h.1, k.1) refl
  by_hash_lem (some false) (some false) c e c' e' h k = rw (h.0, h.1, k.1) refl
  by_hash_lem (some false) none c e c' e' h k = rw (h.0, h.1, k.1) refl
  by_hash_lem none (some true) c e c' e' h k = rw (h.1, k.1) refl
  by_hash_lem none (some false) c e c' e' h k = rw (h.0, h.1, k.0, k.1) refl
  by_hash_lem none none c e c' e' h k = rw (h.0, h.1, k.0, k.1) refl

  -- The exact URL strategy finds a duplicate when the two hashes or the two URLs are there and
  -- the same, a distinct item when else the two hashes or the two URLs are there, and abstains
  -- when neither pair is.
  pub evaluate_exact_url_lem :
      (left_url right_url left_hash right_hash : Option Text)
      → evaluate_exact_url F Object left_url right_url left_hash right_hash
        ≡ verdict
            (equal left_hash right_hash || equal left_url right_url)
            (comparable left_hash right_hash || comparable left_url right_url)
  unfolding evaluate_exact_url
  evaluate_exact_url_lem left_url right_url left_hash right_hash =
      by_hash_lem (compared left_hash right_hash) (compared left_url right_url)
        (comparable left_hash right_hash) (equal left_hash right_hash)
        (comparable left_url right_url) (equal left_url right_url)
        (Agrees-compared left_hash right_hash) (Agrees-compared left_url right_url)

  -- The exact URL strategy gives the same result for the two items in either order.
  pub evaluate_exact_url_sym :
      (left_url right_url left_hash right_hash : Option Text)
      → evaluate_exact_url F Object left_url right_url left_hash right_hash
        ≡ evaluate_exact_url F Object right_url left_url right_hash left_hash
  unfolding evaluate_exact_url
  evaluate_exact_url_sym left_url right_url left_hash right_hash =
      rw (compared_sym left_hash right_hash, compared_sym left_url right_url) refl
