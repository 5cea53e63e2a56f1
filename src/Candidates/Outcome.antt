-- ===== src/Candidates/Outcome.antt =====
-- What `select_candidates` returns, or why it raises an error.
use mathlib.Core.Path.{subst}
use tca.Base.{
  ℕ, zero, suc, ◌≤◌, ◌≡◌, refl, sym, ap, ◌⊎◌, inl, inr, true, false, ◌&&◌, Option, none, some, List,
  [], ◌∷◌, map, arith, ◌==◌, keep, length, All, IsIn, exists_row, order_rows, member, Text,
}
use tca.Base.Int.{ℤ, pos, negsuc}
use tca.Candidates.{
  ItemRow, CandidateRecord, Condition, blocking_conditions, is_selected, query, selected_rows,
  split_domain, domain_of, candidate_with, add_candidate, candidates, select_candidates,
}
use tca.Candidates.Members.{IsIn-take, IsIn-order_rows, IsIn-keep, exists_row-IsIn, IsIn-exists_row}
use tca.Candidates.Order.{IsAscending, IsPlaced}
use tca.Candidates.Ids.{is_wanted, limit_of, selected_lem, any_condition-blocking}
use tca.Candidates.Wanted.{IsWanted, is_wanted-holds, is_wanted-test}

module _ (netloc : Text → Option Text) (new : CandidateRecord) (horizon : ℤ)
    (rows : List ItemRow) where
  -- A wanted item whose URL is malformed.
  abbrev pub IsMalformed : ItemRow → Type 0
  IsMalformed r = (url : Text) × (r.canonical_url ≡ some url) × (netloc url ≡ none)

  -- A key among the ids, or not, and why.
  abbrev pub IsJustified : ℕ → List ℕ → ℕ → Type 0
  IsJustified n ids k =
      ((member k ids ≡ true) × ((r : ItemRow) × IsIn r rows × (r.id ≡ k) × IsWanted new horizon r))
      ⊎ ((member k ids ≡ false)
          × (((r : ItemRow) → IsIn r rows → r.id ≡ k → ¬ IsWanted new horizon r)
              ⊎ ((length ids ≡ n) × All (λ i. i ≤ k) ids)))

  abbrev pub Selected : ℤ → Option (List CandidateRecord) → Type 0
  Selected m none = (r : ItemRow) × IsIn r rows × IsWanted new horizon r × IsMalformed r
  Selected m (some cs) =
      (length (map (λ (c : CandidateRecord). c.item_id) cs) ≤ limit_of m)
      × IsAscending (map (λ (c : CandidateRecord). c.item_id) cs)
      × ((k : ℕ) → IsJustified (limit_of m) (map (λ (c : CandidateRecord). c.item_id) cs) k)

  is_selected-IsWanted :
      (r : ItemRow)
      → is_selected new horizon (blocking_conditions new) r ≡ true
      → IsWanted new horizon r
  is_selected-IsWanted r h =
      is_wanted-holds new r horizon (ground (arith, any_condition-blocking new r))

  queried :
      (n : ℕ) (conditions : List Condition) (r : ItemRow)
      → IsIn r (query new horizon n rows conditions)
      → IsIn r rows × (is_selected new horizon conditions r ≡ true)
  unfolding query
  queried n [] r h = absurd h
  queried n (c ∷ cs) r h = IsIn-keep (is_selected new horizon (c ∷ cs)) r rows (
      IsIn-order_rows r (keep (is_selected new horizon (c ∷ cs)) rows)
        (IsIn-take n r (order_rows (λ x. x.id) (keep (is_selected new horizon (c ∷ cs)) rows)) h))

  selected-IsWanted :
      (m : ℤ) (r : ItemRow)
      → IsIn r (selected_rows new horizon m rows)
      → IsIn r rows × IsWanted new horizon r
  selected-IsWanted (negsuc n) r h = absurd h
  selected-IsWanted (pos zero) r h = absurd h
  selected-IsWanted (pos (suc n)) r h =
      let (i, e) = queried (suc n) (blocking_conditions new) r h in (i, is_selected-IsWanted r e)

  -- The loop gives a candidate for each row, or stops at one with a malformed URL.
  abbrev Looped : List ItemRow → Option (List CandidateRecord) → Type 0
  Looped rs none = (r : ItemRow) × IsIn r rs × IsMalformed r
  Looped rs (some cs) = map (λ (c : CandidateRecord). c.item_id) cs ≡ map (λ (s : ItemRow). s.id) rs

  added :
      (r : ItemRow) (rs : List ItemRow) (url : Option Text)
      → r.canonical_url ≡ url
      → (o : Option (List CandidateRecord)) → Looped rs o
      → Looped (r ∷ rs) (add_candidate (candidate_with new r (domain_of netloc url)) o)
  added r rs none e none (x, i, bad) = (x, inr i, bad)
  added r rs none e (some cs) h = ap (λ (l : List ℕ). r.id ∷ l) h
  added r rs (some []) e none (x, i, bad) = (x, inr i, bad)
  added r rs (some []) e (some cs) h = ap (λ (l : List ℕ). r.id ∷ l) h
  added r rs (some (c ∷ cs)) e o h = split (netloc (c ∷ cs)) refl o h
    where
      split :
          (d : Option Text)
          → netloc (c ∷ cs) ≡ d
          → (p : Option (List CandidateRecord)) → Looped rs p
          → Looped (r ∷ rs) (add_candidate (candidate_with new r (split_domain d)) p)
      split none f p l = (r, inl refl, (c ∷ cs, e, f))
      split (some d) f none (x, i, bad) = (x, inr i, bad)
      split (some d) f (some ds) l = ap (λ (l : List ℕ). r.id ∷ l) l

  looped : (rs : List ItemRow) → Looped rs (candidates netloc new rs)
  unfolding candidates
  looped [] = refl
  looped (r ∷ rs) = added r rs r.canonical_url refl (candidates netloc new rs) (looped rs)

  justified :
      (n k : ℕ) (ids : List ℕ)
      → IsPlaced n k (exists_row (λ r. k == r.id && is_wanted new horizon r) rows) ids
      → IsJustified n ids k
  justified n k ids (inl (here, there)) =
      let (r, i, e) = exists_row-IsIn (λ r. k == r.id && is_wanted new horizon r) rows there in
      inl (here, (r, i, ground arith, is_wanted-holds new r horizon (ground arith)))
  justified n k ids (inr (out, inr full)) = inr (out, inr full)
  justified n k ids (inr (out, inl absent)) = inr (
    out,
    inl (λ r i e w.
        let there =
          IsIn-exists_row (λ x. k == x.id && is_wanted new horizon x) r rows i
            (ground (arith, is_wanted-test new r horizon w)) in
        cc),
  )

  returned :
      (m : ℤ) (o : Option (List CandidateRecord))
      → Looped (selected_rows new horizon m rows) o
      → Selected m o
  returned m none (r, i, bad) = let (j, w) = selected-IsWanted m r i in (r, j, w, bad)
  returned m (some cs) e =
      subst
        (λ (ids : List ℕ).
          (length ids ≤ limit_of m) × IsAscending ids × ((k : ℕ) → IsJustified (limit_of m) ids k))
        (sym e)
        (
          (selected_lem new horizon rows 0 m).0,
          (selected_lem new horizon rows 0 m).1,
          λ k.
              justified (limit_of m) k
                (map (λ (s : ItemRow). s.id) (selected_rows new horizon m rows))
                (selected_lem new horizon rows k m).2,
        )

  -- For any items and any limit, `select_candidates` either raises an error, and then urlsplit
  -- raises one on the URL of a wanted item; or the ids of the candidates are at most as many as
  -- the limit and in increasing order, and any key either is among them, and then a wanted item
  -- has it, or is not, and then no wanted item has it or the ids are as many as the limit and
  -- none is greater than it. An item is wanted when its key is not the new item's, it lies within
  -- the horizon if both times are known, and it has the new item's hash, or a URL that matches
  -- the LIKE patterns of the new item's domain, or a title that matches the pattern of one of its
  -- rare tokens; matching is a relation, in which % stands for any text, _ for any character, and
  -- an ASCII letter for either case.
  pub select_candidates_outcome :
      (max_candidates : ℤ)
      → Selected max_candidates (select_candidates netloc new horizon max_candidates rows)
  unfolding select_candidates
  select_candidates_outcome m =
      returned m (candidates netloc new (selected_rows new horizon m rows))
        (looped (selected_rows new horizon m rows))
