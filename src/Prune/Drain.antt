-- ===== src/Prune/Drain.antt =====
-- The batch loop: with the expired rows as fuel it ends, and its tally is exact.
use tca.Base.{
  ℕ, zero, suc, ◌+◌, ◌≤◌, ◌<◌, ◌≡◌, refl, Option, some, List, [], ◌∷◌, sum, sum-append, All,
  All-append, List-cases, inl, inr, arith,
}
use tca.Prune.{delete_batch_size, Tally, add_batch, drain}

-- The sizes add up to the total, and each is positive and bounded.
pub record IsTally (t : Tally) : Type 0 where
  pub total : sum t.batch_sizes ≡ t.deleted_total
  pub sizes : All (λ n. (0 < n) × (n ≤ delete_batch_size)) t.batch_sizes

abbrev pub empty_tally : Tally
empty_tally = record { deleted_total = 0; batch_sizes = [] }

pub empty_tally-IsTally : IsTally empty_tally
unfolding sum
empty_tally-IsTally = record { total = refl; sizes = tt }

add_batch-IsTally :
    (n : ℕ) (t : Tally) → 0 < n → n ≤ delete_batch_size → IsTally t → IsTally (add_batch n t)
unfolding sum
add_batch-IsTally n t h k v = record {
  total = omega (arith, sum-append t.batch_sizes (n ∷ []), v.total);
  sizes =
      All-append (λ n. (0 < n) × (n ≤ delete_batch_size)) t.batch_sizes (n ∷ []) v.sizes
        ((h, k), tt);
}

module _ {ℓ} {S : Type ℓ} (select : S → List ℕ) (delete : List ℕ → S → ℕ × S) (Q : S → Type 0)
    (left : S → ℕ)
    (step : (s : S) (i : ℕ) (is : List ℕ)
      → select s ≡ i ∷ is
      → Q s
      → Q (delete (i ∷ is) s).1
        × (0 < (delete (i ∷ is) s).0)
        × ((delete (i ∷ is) s).0 ≤ delete_batch_size)
        × ((delete (i ∷ is) s).0 + left (delete (i ∷ is) s).1 ≡ left s))
    (stop : (s : S) → select s ≡ [] → left s ≡ 0) where
  -- What the loop returns: a state with nothing left, and the number of rows that were left before.
  abbrev pub Drained : Tally → S → Option (Tally × S) → Type ℓ
  Drained t s o =
      (t' : Tally) × (s' : S) × (o ≡ some (t', s'))
      × Q s'
      × (left s' ≡ 0)
      × IsTally t'
      × (t'.deleted_total ≡ t.deleted_total + left s)

  pub drain_lem :
      (fuel : ℕ) (t : Tally) (s : S)
      → left s < fuel
      → Q s
      → IsTally t
      → Drained t s (drain select delete fuel t s)
  unfolding drain
  drain_lem zero t s h q v = absurd (omega arith)
  drain_lem (suc fuel) t s h q v = elim (List-cases (select s)) [
    | inl e ↦ rw (e, drain) (t, s, refl, q, stop s e, v, omega (arith, stop s e))
    | inr (i, is, e) ↦
        let (q', some_rows, StartsAbove, counted) = step s i is e q in
        let (n, s') = delete (i ∷ is) s in
        let (t', s'', ran, r, none_left, v', total) =
          drain_lem fuel (add_batch n t) s' (omega arith) q'
            (add_batch-IsTally n t some_rows StartsAbove v) in
        rw (e, drain) (t', s'', ran, r, none_left, v', omega arith)
  ]
