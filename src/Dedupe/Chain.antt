-- ===== src/Dedupe/Chain.antt =====
-- What the chain of strategies returns (tca/dedupe/strategy_chain.py).
use mathlib.Core.List.{append-nil, append_assoc}
use tca.Base.{◌≡◌, refl, sym, ◌⊎◌, inl, inr, true, false, List, [], ◌∷◌, ◌++◌}
use tca.Dedupe.{
  Floats, Checked, ok, duplicate, distinct, abstain, err, Error, Strategy, StrategyResult,
  StrategyDecisionAttempt, attempt, abstained, run_strategy, no_strategy_match, chain_from,
  execute_strategy_chain_with_trace,
}

module _ (F : Floats) (Object : Type 0) where
  abbrev Result : Type 0
  Result = StrategyResult F Object

  abbrev Attempts : Type 0
  Attempts = List (StrategyDecisionAttempt F Object)

  abbrev Strategies : Type 0
  Strategies = List (Strategy F Object)

  -- Every strategy ran and abstained, and left its attempt.
  pub data Abstained : Strategies → Attempts → Type 0 where
    nobody : Abstained [] []
    one_more :
        (s : Strategy F Object) (r : Result) {rest : Strategies} {attempts : Attempts}
        → run_strategy F Object s ≡ ok r
        → abstained F Object r ≡ true
        → Abstained rest attempts
        → Abstained (s ∷ rest) (attempt F Object s.name r ∷ attempts)

  -- The chain stops at `s`: the ones before it abstained.
  pub record StopsAt (strategies : Strategies) (s : Strategy F Object) (before : Attempts)
      : Type 0 where
    pub passed : Strategies
    pub skipped : Strategies
    pub order : strategies ≡ passed ++ s ∷ skipped
    pub all_abstained : Abstained passed before

  -- A chain returns the first result that is no abstention, with the attempts up to it, or the
  -- default after as many attempts as strategies; it raises what the first strategy that does not
  -- abstain raised.
  abbrev pub ChainRun : Strategies → Checked (Result × Attempts) → Type 0
  ChainRun strategies (ok (r, attempts)) =
      ((r ≡ no_strategy_match F Object) × Abstained strategies attempts)
      ⊎ ((s : Strategy F Object) × (before : Attempts) × StopsAt strategies s before
          × (run_strategy F Object s ≡ ok r)
          × (abstained F Object r ≡ false)
          × (attempts ≡ before ++ attempt F Object s.name r ∷ []))
  ChainRun strategies (err e) =
      (s : Strategy F Object) × (before : Attempts) × StopsAt strategies s before
      × (run_strategy F Object s ≡ err e)

  Abstained-append :
      (s : Strategy F Object) (r : Result) {passed : Strategies} {before : Attempts}
      → run_strategy F Object s ≡ ok r
      → abstained F Object r ≡ true
      → Abstained passed before
      → Abstained (passed ++ s ∷ []) (before ++ attempt F Object s.name r ∷ [])
  Abstained-append s r e h nobody = one_more s r e h nobody
  Abstained-append s r e h (one_more s' r' e' h' a) =
      one_more s' r' e' h' (Abstained-append s r e h a)

  outcome_cases : (o : Checked Result) → ((r : Result) × (o ≡ ok r)) ⊎ ((e : Error) × (o ≡ err e))
  outcome_cases (ok r) = inl (r, refl)
  outcome_cases (err e) = inr (e, refl)

  -- The loop, after `passed` have abstained.
  chain_from_lem :
      (passed strategies : Strategies) (before : Attempts)
      → Abstained passed before
      → ChainRun (passed ++ strategies) (chain_from F Object before strategies)
  unfolding chain_from
  chain_from_lem passed [] before a = inl (refl, rw (append-nil passed) a)
  chain_from_lem passed (s ∷ rest) before a = elim (outcome_cases (run_strategy F Object s)) [
    | inr (e, raised) ↦ rw raised (s, before, at_head, raised)
    | inl (duplicate x m n, ran) ↦ rw ran (inr (s, before, at_head, ran, refl, refl))
    | inl (distinct m n, ran) ↦ rw ran (inr (s, before, at_head, ran, refl, refl))
    | inl (abstain m n, ran) ↦ rw ran (
        rw (sym (append_assoc passed (s ∷ []) rest)) (
          chain_from_lem (passed ++ s ∷ []) rest
            (before ++ attempt F Object s.name (abstain m n) ∷ [])
            (Abstained-append s (abstain m n) ran refl a)))
  ]
    where
      at_head : StopsAt (passed ++ s ∷ rest) s before
      at_head = record { passed = passed; skipped = rest; order = refl; all_abstained = a }

  -- A chain of strategies returns either the default after as many attempts as strategies, all of
  -- which abstained, or the result, no abstention, of a strategy that comes after strategies that
  -- all abstained, with their attempts and its own; and it raises only what such a strategy
  -- raised.
  pub execute_strategy_chain_outcome :
      (strategies : Strategies)
      → ChainRun strategies (execute_strategy_chain_with_trace F Object strategies)
  unfolding execute_strategy_chain_with_trace
  execute_strategy_chain_outcome strategies = chain_from_lem [] strategies [] nobody
