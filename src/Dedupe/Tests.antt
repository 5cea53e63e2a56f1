-- ===== src/Dedupe/Tests.antt =====
-- A chain of strategies on small inputs, and the theorems at it.
use tca.Base.{
  ◌↔◌, ℕ, ◌≡◌, refl, ◌||◌, not, ◌==◌, is_space, Bool, Option, none, some, List, [], ◌∷◌, Text,
  codes, same,
}
use Prim.Native.String.{String}
use tca.Base.Int.{ℤ, pos, negsuc}
use tca.Dedupe.{
  Floats, nothing, text, integer, RawResult, a_mapping, not_a_mapping, StrategyResult, duplicate,
  ok, Strategy, coerce_strategy_result, execute_strategy_chain_with_trace, evaluate_exact_url,
}
use tca.Dedupe.Contract.{Fits, coerce_strategy_result_lem}
use tca.Dedupe.Chain.{ChainRun, execute_strategy_chain_outcome}
use tca.Dedupe.Exact.{comparable, equal, verdict, evaluate_exact_url_lem, evaluate_exact_url_sym}

-- Floats that are integers, all finite but 7.
abbrev of_integer : ℤ → Option ℕ
of_integer (pos n) = some n
of_integer (negsuc n) = none

abbrev is_finite : ℕ → Bool
is_finite n = not (n == 7)

abbrev floats : Floats
floats = record { Float = ℕ; of_integer = of_integer; is_finite = is_finite; one = 1 }

abbrev answer : Text → Text → RawResult floats ℕ
answer status reason = a_mapping (record {
  status = text status;
  reason = text reason;
  score = integer (pos 1);
  metadata = nothing;
})

abbrev strategy : String → Text → Text → Strategy floats ℕ
strategy name status reason = record { name = name; call = ok (answer status reason) }

abbrev chain : List (Strategy floats ℕ)
chain =
    strategy "url" (codes "ABSTAIN") (codes "no url")
    ∷ strategy "hash" (codes "DUPLICATE") (codes " same ")
    ∷ record { name = "title"; call = ok not_a_mapping }
    ∷ []

abbrev same_hash : StrategyResult floats ℕ
same_hash = duplicate 1 (codes "same") none

execute_strategy_chain_outcome_example :
    ChainRun floats ℕ chain (execute_strategy_chain_with_trace floats ℕ chain)
execute_strategy_chain_outcome_example = execute_strategy_chain_outcome floats ℕ chain

coerce_strategy_result_lem_example :
    (coerce_strategy_result floats ℕ (answer (codes "DUPLICATE") (codes " same ")) ≡ ok same_hash)
    ↔ Fits floats ℕ (answer (codes "DUPLICATE") (codes " same ")) same_hash
coerce_strategy_result_lem_example =
    coerce_strategy_result_lem floats ℕ (answer (codes "DUPLICATE") (codes " same ")) same_hash

accepted :
    coerce_strategy_result floats ℕ (answer (codes "DUPLICATE") (codes " same ")) ≡ ok same_hash
unfolding coerce_strategy_result same is_space
accepted = refl

evaluate_exact_url_lem_example :
    evaluate_exact_url floats ℕ (some (codes "a")) (some (codes "b")) none (some (codes "h"))
    ≡ verdict floats ℕ
        (equal none (some (codes "h")) || equal (some (codes "a")) (some (codes "b")))
        (comparable none (some (codes "h")) || comparable (some (codes "a")) (some (codes "b")))
evaluate_exact_url_lem_example =
    evaluate_exact_url_lem floats ℕ (some (codes "a")) (some (codes "b")) none (some (codes "h"))

evaluate_exact_url_sym_example :
    evaluate_exact_url floats ℕ (some (codes "a")) (some (codes "b")) none (some (codes "h"))
    ≡ evaluate_exact_url floats ℕ (some (codes "b")) (some (codes "a")) (some (codes "h")) none
evaluate_exact_url_sym_example =
    evaluate_exact_url_sym floats ℕ (some (codes "a")) (some (codes "b")) none (some (codes "h"))
