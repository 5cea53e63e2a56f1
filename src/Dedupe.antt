-- ===== src/Dedupe.antt =====
-- tca/dedupe: the contract of a strategy's result (strategy_contract.py), the chain of strategies
-- (strategy_chain.py), and the exact strategies.
pub mod Contract
pub mod Chain
pub mod Exact
mod Tests
use tca.Base.{
  ℕ, ◌+◌, Bool, true, false, not, ◌&&◌, ◌||◌, Option, none, some, List, [], ◌∷◌, ◌++◌, map, Text,
  codes, same, strip, if◌then◌else◌,
}
use Prim.Native.String.{String}
use tca.Base.Int.{ℤ}

-- Python's floats, as far as the contract looks at them: `float(n)` of an int, which is `none` where
-- Python raises OverflowError, and `math.isfinite`.
pub record Floats : Type 1 where
  pub Float : Type 0
  pub of_integer : ℤ → Option Float
  pub is_finite : Float → Bool
  pub one : Float

-- A key of a mapping.
pub data Key : Type 0 where
  text_key : Text → Key
  other_key : Key

-- The contract's errors (with the strategy's name once `run_strategy` has it), an error of the strategy itself, and OverflowError.
pub data Error : Type 0 where
  contract : String → Error
  invalid_result : String → String → Error
  raised : String → Error
  overflow : Error

pub data Checked (A : Type 0) : Type 0 where
  ok : A → Checked A
  err : Error → Checked A

abbrev pub then_do : {A B : Type 0} → Checked A → (A → Checked B) → Checked B
then_do (ok a) f = f a
then_do (err e) f = err e

pub data Status : Type 0 where
  is_duplicate is_distinct is_abstain : Status

abbrev pub named : {A : Type 0} → String → Checked A → Checked A
named name (ok a) = ok a
named name (err (contract message)) = err (invalid_result name message)
named name (err e) = err e

-- `status_obj not in STRATEGY_STATUSES`, and the comparisons of the status.
unfoldable pub status_of : Text → Option Status
unfolding same
status_of s =
    if same s (codes "DUPLICATE")
    then some is_duplicate
    else if same s (codes "DISTINCT")
    then some is_distinct
    else if same s (codes "ABSTAIN")
    then some is_abstain
    else none

abbrev pub known_status : Option Status → Checked Status
known_status (some s) = ok s
known_status none = err (contract "unknown status")

abbrev pub nonempty : Text → Checked Text
nonempty [] = err (contract "empty reason")
nonempty (c ∷ cs) = ok (c ∷ cs)

-- `left is not None and right is not None`, with what is then compared.
abbrev pub compared : Option Text → Option Text → Option Bool
compared (some a) (some b) = some (same a b)
compared (some a) none = none
compared none b = none

module _ (F : Floats) (Object : Type 0) where
  -- An object, as the contract looks at it; the values of a mapping are passed on unseen.
  pub data Value : Type 0 where
    nothing other : Value
    boolean : Bool → Value
    integer : ℤ → Value
    float : F.Float → Value
    text : Text → Value
    mapping : List (Key × Object) → Value

  -- What `get` returns for the four fields of a mapping; a missing key reads as `nothing`.
  pub record Fields : Type 0 where
    pub status : Value
    pub reason : Value
    pub score : Value
    pub metadata : Value

  -- What a strategy returns.
  pub data RawResult : Type 0 where
    not_a_mapping : RawResult
    a_mapping : Fields → RawResult

  abbrev pub Metadata : Type 0
  Metadata = List (Text × Object)

  -- `StrategyResult`.
  pub data StrategyResult : Type 0 where
    duplicate : F.Float → Text → Option Metadata → StrategyResult
    distinct : Text → Option Metadata → StrategyResult
    abstain : Text → Option Metadata → StrategyResult

  abbrev pub check_status : Value → Checked Status
  check_status (text s) = known_status (status_of s)
  check_status _ = err (contract "status is no string")

  abbrev pub check_reason : Value → Checked Text
  check_reason (text s) = nonempty (strip s)
  check_reason _ = err (contract "reason is no string")

  abbrev pub finite_score : F.Float → Checked F.Float
  finite_score x = if F.is_finite x then ok x else err (contract "score is not finite")

  abbrev pub converted : Option F.Float → Checked F.Float
  converted none = err overflow
  converted (some x) = finite_score x

  -- `_coerce_score`.
  unfoldable pub coerce_score : Value → Checked F.Float
  coerce_score (integer n) = converted (F.of_integer n)
  coerce_score (float x) = finite_score x
  coerce_score _ = err (contract "score is not numeric")

  -- The loop over the items of the mapping.
  unfoldable pub text_keys : List (Key × Object) → Checked Metadata
  text_keys [] = ok []
  text_keys ((text_key k, v) ∷ m) = then_do (text_keys m) (λ rest. ok ((k, v) ∷ rest))
  text_keys ((other_key, v) ∷ m) = err (contract "metadata keys must be strings")

  -- `_coerce_metadata`.
  unfoldable pub coerce_metadata : Value → Checked (Option Metadata)
  unfolding text_keys
  coerce_metadata nothing = ok none
  coerce_metadata (mapping m) = then_do (text_keys m) (λ rest. ok (some rest))
  coerce_metadata _ = err (contract "metadata is no mapping")

  abbrev pub build : Value → Text → Option Metadata → Status → Checked StrategyResult
  build score reason metadata is_duplicate =
      then_do (coerce_score score) (λ x. ok (duplicate x reason metadata))
  build score reason metadata is_distinct = ok (distinct reason metadata)
  build score reason metadata is_abstain = ok (abstain reason metadata)

  -- `coerce_strategy_result`.
  unfoldable pub coerce_strategy_result : RawResult → Checked StrategyResult
  unfolding status_of strip coerce_score coerce_metadata
  coerce_strategy_result not_a_mapping = err (contract "no mapping")
  coerce_strategy_result (a_mapping r) = then_do (check_status r.status) (λ status.
      then_do (check_reason r.reason) (λ reason.
        then_do (coerce_metadata r.metadata) (λ metadata. build r.score reason metadata status)))

  -- What calling a strategy does: it returns, or it raises.
  pub record Strategy : Type 0 where
    pub name : String
    pub call : Checked RawResult

  -- `run_strategy`.
  unfoldable pub run_strategy : Strategy → Checked StrategyResult
  unfolding coerce_strategy_result
  run_strategy s = then_do s.call (λ raw. named s.name (coerce_strategy_result raw))

  abbrev pub status_name : StrategyResult → String
  status_name (duplicate x r m) = "DUPLICATE"
  status_name (distinct r m) = "DISTINCT"
  status_name (abstain r m) = "ABSTAIN"

  abbrev pub reason_of : StrategyResult → Text
  reason_of (duplicate x r m) = r
  reason_of (distinct r m) = r
  reason_of (abstain r m) = r

  abbrev pub score_of : StrategyResult → Option F.Float
  score_of (duplicate x r m) = some x
  score_of (distinct r m) = none
  score_of (abstain r m) = none

  abbrev pub abstained : StrategyResult → Bool
  abstained (abstain r m) = true
  abstained _ = false

  pub record StrategyDecisionAttempt : Type 0 where
    pub strategy_name : String
    pub outcome : String
    pub reason : Text
    pub score : Option F.Float

  abbrev pub attempt : String → StrategyResult → StrategyDecisionAttempt
  attempt name r = record {
    strategy_name = name;
    outcome = status_name r;
    reason = reason_of r;
    score = score_of r;
  }

  abbrev pub no_strategy_match : StrategyResult
  no_strategy_match = distinct (codes "no_strategy_match") none

  -- The loop of `execute_strategy_chain_with_trace`, from the attempts so far.
  unfoldable pub chain_from :
      List StrategyDecisionAttempt
      → List Strategy
      → Checked (StrategyResult × List StrategyDecisionAttempt)
  unfolding run_strategy
  chain_from attempts [] = ok (no_strategy_match, attempts)
  chain_from attempts (s ∷ rest) = then_do (run_strategy s) (λ r. elim (abstained r) [
    | true ↦ chain_from (attempts ++ attempt s.name r ∷ []) rest
    | false ↦ ok (r, attempts ++ attempt s.name r ∷ [])
  ])

  -- `execute_strategy_chain_with_trace`.
  unfoldable pub execute_strategy_chain_with_trace :
      List Strategy → Checked (StrategyResult × List StrategyDecisionAttempt)
  unfolding chain_from
  execute_strategy_chain_with_trace strategies = chain_from [] strategies

  -- `execute_strategy_chain`.
  unfoldable pub execute_strategy_chain : List Strategy → Checked StrategyResult
  unfolding execute_strategy_chain_with_trace
  execute_strategy_chain strategies =
      then_do (execute_strategy_chain_with_trace strategies) (λ p. ok p.0)

  abbrev pub exact_url_match : StrategyResult
  exact_url_match = duplicate F.one (codes "exact_url_match") none

  abbrev pub exact_url_mismatch : StrategyResult
  exact_url_mismatch = distinct (codes "exact_url_mismatch") none

  abbrev pub exact_url_missing : StrategyResult
  exact_url_missing = abstain (codes "exact_url_missing") none

  -- The second comparison, after `compared_any`.
  unfoldable pub by_url : Bool → Option Bool → StrategyResult
  by_url compared_any (some true) = exact_url_match
  by_url compared_any (some false) = exact_url_mismatch
  by_url true none = exact_url_mismatch
  by_url false none = exact_url_missing

  unfoldable pub by_hash : Option Bool → Option Bool → StrategyResult
  unfolding by_url
  by_hash (some true) urls = exact_url_match
  by_hash (some false) urls = by_url true urls
  by_hash none urls = by_url false urls

  -- `evaluate_exact_url`, of the two URLs and the two hashes.
  unfoldable pub evaluate_exact_url :
      Option Text → Option Text → Option Text → Option Text → StrategyResult
  unfolding by_hash same
  evaluate_exact_url left_url right_url left_hash right_hash =
      by_hash (compared left_hash right_hash) (compared left_url right_url)
