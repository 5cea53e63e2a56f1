-- ===== src/Candidates/Ids.antt =====
-- The ids that the query selects, in terms of its tests.
use mathlib.Core.Path.{subst}
use tca.Base.{
  ℕ, zero, suc, ◌≤◌, ◌≡◌, refl, sym, ap, ◌∙◌, inl, inr, Bool, false, not, ◌&&◌, ◌||◌, Option, none,
  some, List, [], ◌∷◌, ◌++◌, map, arith, ◌==◌, keep, take, length, exists_row, order_rows, member,
  length-take, Text,
}
use tca.Base.Int.{ℤ, pos, negsuc}
use tca.Base.Sort.{sort, member-sort}
use tca.Candidates.{
  ItemRow, CandidateRecord, Condition, has_hash, hash_conditions, is_of_domain, domain_conditions,
  has_token, blocking_conditions, any_condition, is_near, is_selected, query, selected_rows,
}
use tca.Candidates.Order.{
  IsAscending, IsPlaced, sort-IsAscending, take-IsAscending, take-IsPlaced, map-order_rows,
  map-take, member-keep,
}

-- A blocking key that both have.
abbrev pub nonempty : (Text → Bool) → Option Text → Bool
nonempty f none = false
nonempty f (some []) = false
nonempty f (some (c ∷ cs)) = f (c ∷ cs)

abbrev pub shares_key : CandidateRecord → ItemRow → Bool
shares_key new r =
    nonempty (λ h. has_hash h r) new.canonical_url_hash
    || (nonempty (λ d. is_of_domain d r) new.url_domain
        || exists_row (λ t. has_token t r) new.rare_title_tokens)

-- Another item, not too far in time, with a common key.
abbrev pub is_wanted : CandidateRecord → ℤ → ItemRow → Bool
is_wanted new horizon r =
    not (r.id == new.item_id)
    && (is_near horizon r.published_at new.published_at && shares_key new r)

abbrev pub limit_of : ℤ → ℕ
limit_of (pos n) = n
limit_of (negsuc n) = 0

any_condition-append :
    (cs ds : List Condition) (r : ItemRow)
    → any_condition (cs ++ ds) r ≡ (any_condition cs r || any_condition ds r)
unfolding any_condition
any_condition-append [] ds r = refl
any_condition-append (c ∷ cs) ds r = ground (arith, any_condition-append cs ds r)

any_condition-tokens :
    (ts : List Text) (r : ItemRow)
    → any_condition (map has_token ts) r ≡ exists_row (λ t. has_token t r) ts
unfolding any_condition exists_row
any_condition-tokens [] r = refl
any_condition-tokens (t ∷ ts) r = ap (λ b. has_token t r || b) (any_condition-tokens ts r)

any_condition-hash :
    (h : Option Text) (r : ItemRow)
    → any_condition (hash_conditions h) r ≡ nonempty (λ g. has_hash g r) h
unfolding any_condition
any_condition-hash none r = refl
any_condition-hash (some []) r = refl
any_condition-hash (some (c ∷ cs)) r = or_false (has_hash (c ∷ cs) r)
  where
    or_false : (b : Bool) → (b || false) ≡ b
    or_false b = ground arith

any_condition-domain :
    (d : Option Text) (r : ItemRow)
    → any_condition (domain_conditions d) r ≡ nonempty (λ g. is_of_domain g r) d
unfolding any_condition
any_condition-domain none r = refl
any_condition-domain (some []) r = refl
any_condition-domain (some (c ∷ cs)) r = or_false (is_of_domain (c ∷ cs) r)
  where
    or_false : (b : Bool) → (b || false) ≡ b
    or_false b = ground arith

pub any_condition-blocking :
    (new : CandidateRecord) (r : ItemRow)
    → any_condition (blocking_conditions new) r ≡ shares_key new r
any_condition-blocking new r =
    any_condition-append (hash_conditions new.canonical_url_hash)
      (domain_conditions new.url_domain ++ map has_token new.rare_title_tokens) r
    ∙ rw
        (
          any_condition-append (domain_conditions new.url_domain)
              (map has_token new.rare_title_tokens) r,
          any_condition-hash new.canonical_url_hash r,
          any_condition-domain new.url_domain r,
          any_condition-tokens new.rare_title_tokens r,
        )
        refl

module _ (new : CandidateRecord) (horizon : ℤ) (rows : List ItemRow) (k : ℕ) where
  -- The ids that are selected when `n` are asked for: at most so many, in increasing order, and this one exactly
  -- when a wanted item has it, unless the ids are as many as asked for and none is greater.
  abbrev pub AreSelected : ℕ → List ℕ → Type 0
  AreSelected n ids =
      (length ids ≤ n)
      × IsAscending ids
      × IsPlaced n k (exists_row (λ r. k == r.id && is_wanted new horizon r) rows) ids

  unwanted :
      ((r : ItemRow) → shares_key new r ≡ false)
      → (rs : List ItemRow) → exists_row (λ r. k == r.id && is_wanted new horizon r) rs ≡ false
  unfolding exists_row
  unwanted h [] = refl
  unwanted h (r ∷ rs) = rw (h r) (ground (arith, unwanted h rs))

  query_lem :
      (n : ℕ) (conditions : List Condition)
      → ((r : ItemRow) → any_condition conditions r ≡ shares_key new r)
      → AreSelected n (map (λ (s : ItemRow). s.id) (query new horizon n rows conditions))
  unfolding query any_condition member
  query_lem n [] h = (omega arith, tt, inr (refl, inl (unwanted (λ r. sym (h r)) rows)))
  query_lem n (c ∷ cs) h = subst (AreSelected n) (sym ids) (
    ground (arith, length-take n (sort found)),
    take-IsAscending n (sort found) (sort-IsAscending found),
    subst (λ b. IsPlaced n k b (take n (sort found))) placed
        (take-IsPlaced n k (sort found) (sort-IsAscending found)),
  )
    where
      found : List ℕ
      found = map (λ (s : ItemRow). s.id) (keep (is_selected new horizon (c ∷ cs)) rows)

      ids :
          map
            (λ (s : ItemRow). s.id)
            (take n (order_rows (λ s. s.id) (keep (is_selected new horizon (c ∷ cs)) rows)))
          ≡ take n (sort found)
      ids =
          map-take n (order_rows (λ s. s.id) (keep (is_selected new horizon (c ∷ cs)) rows))
          ∙ ap (take n) (map-order_rows (keep (is_selected new horizon (c ∷ cs)) rows))

      placed : member k (sort found) ≡ exists_row (λ r. k == r.id && is_wanted new horizon r) rows
      placed =
          member-sort k found
          ∙ member-keep k (is_selected new horizon (c ∷ cs)) (is_wanted new horizon) rows (λ r.
            ap
              (λ b.
                not (r.id == new.item_id) && (is_near horizon r.published_at new.published_at && b))
              (h r))

  pub selected_lem :
      (m : ℤ)
      → AreSelected (limit_of m) (map (λ (s : ItemRow). s.id) (selected_rows new horizon m rows))
  unfolding member
  selected_lem (negsuc n) = (omega arith, tt, inr (refl, inr (refl, tt)))
  selected_lem (pos zero) = (omega arith, tt, inr (refl, inr (refl, tt)))
  selected_lem (pos (suc n)) =
      query_lem (suc n) (blocking_conditions new) (any_condition-blocking new)
