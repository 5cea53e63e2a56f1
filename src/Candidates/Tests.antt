-- ===== src/Candidates/Tests.antt =====
-- Candidates among four items.
use tca.Base.{
  ℕ, ◌≡◌, refl, true, Option, none, some, List, [], ◌∷◌, ◌++◌, map, Text, codes, same,
  if◌then◌else◌,
}
use tca.Base.Int.{pos}
use tca.Candidates.{ItemRow, CandidateRecord, like, select_candidates}
use tca.Candidates.Outcome.{Selected, select_candidates_outcome}

abbrev item : ℕ → Option ℕ → Text → Text → ItemRow
item i at url title = record {
  id = i;
  published_at = at;
  canonical_url = some url;
  canonical_url_hash = some url;
  title = some title;
}

abbrev items : List ItemRow
items =
    item 4 (some 100) (codes "https://b.org/x") (codes "Rare news")
    ∷ item 1 (some 90) (codes "https://a.org/y") (codes "old news")
    ∷ item 2 none (codes "https://c.org") (codes "RARELY")
    ∷ item 3 (some 900) (codes "https://a.org") (codes "far away")
    ∷ []

abbrev new : CandidateRecord
new = record {
  item_id = 4;
  published_at = some 110;
  canonical_url_hash = none;
  url_domain = some (codes "a.org");
  rare_title_tokens = codes "rare" ∷ [];
}

-- It raises an error on one URL.
abbrev no_netloc : Text → Option Text
no_netloc url = if same url (codes "https://[bad") then none else some []

select_candidates_outcome_example :
    Selected no_netloc new
      (pos 60)
      items
      (pos 1)
      (select_candidates no_netloc new (pos 60) (pos 1) items)
select_candidates_outcome_example = select_candidates_outcome no_netloc new (pos 60) items (pos 1)

abbrev ids_of : Option (List CandidateRecord) → Option (List ℕ)
ids_of none = none
ids_of (some cs) = some (map (λ (c : CandidateRecord). c.item_id) cs)

-- By domain, and by a token that is part of a word; the new item itself and a far one are left out.
both : ids_of (select_candidates no_netloc new (pos 60) (pos 50) items) ≡ some (1 ∷ 2 ∷ [])
unfolding select_candidates same
both = refl

-- An item with a malformed URL.
malformed :
    select_candidates no_netloc new
      (pos 60)
      (pos 50)
      (item 5 none (codes "https://[bad") (codes "rare") ∷ items)
    ≡ none
unfolding select_candidates same
malformed = refl

-- A token's underscore stands for any character.
wildcard : like (codes "%" ++ (codes "a_b" ++ codes "%")) (codes "see axb") ≡ true
unfolding like
wildcard = refl
