-- ===== src/Candidates.antt =====
-- tca/dedupe/candidate_selection.py: the items with which a new one is compared, by SQL's LIKE and the
-- horizon. Times are seconds.
pub mod Members
pub mod Order
pub mod Ids
pub mod Like
pub mod Wanted
pub mod Outcome
mod Tests
use tca.Base.{
  ℕ, zero, suc, ◌+◌, ◌-◌, Bool, true, false, not, ◌&&◌, ◌||◌, Option, none, some, List, [], ◌∷◌,
  ◌++◌, map, leb, ◌==◌, if◌then◌else◌, keep, take, exists_row, order_rows, Text, codes, same,
  is_space,
}
use tca.Base.Int.{ℤ, pos, negsuc}

-- The columns of `items` that the query reads.
pub record ItemRow : Type 0 where
  pub id : ℕ
  pub published_at : Option ℕ
  pub canonical_url : Option Text
  pub canonical_url_hash : Option Text
  pub title : Option Text

-- `CandidateRecord`, with the set of tokens in the order of its iteration.
pub record CandidateRecord : Type 0 where
  pub item_id : ℕ
  pub published_at : Option ℕ
  pub canonical_url_hash : Option Text
  pub url_domain : Option Text
  pub rare_title_tokens : List Text

-- LIKE: % stands for any text, _ for any character, and letters of ASCII match in either case.
abbrev pub fold_case : ℕ → ℕ
fold_case c = if leb 65 c && leb c 90 then c + 32 else c

unfoldable pub any_suffix : (Text → Bool) → Text → Bool
any_suffix f [] = f []
any_suffix f (c ∷ cs) = f (c ∷ cs) || any_suffix f cs

abbrev pub like_one : ℕ → (Text → Bool) → Text → Bool
like_one p f [] = false
like_one p f (c ∷ cs) = (p == 95 || fold_case p == fold_case c) && f cs

unfoldable pub like : Text → Text → Bool
unfolding any_suffix
like [] [] = true
like [] (c ∷ cs) = false
like (p ∷ ps) t = if p == 37 then any_suffix (like ps) t else like_one p (like ps) t

abbrev pub matches_like : Text → Option Text → Bool
matches_like p none = false
matches_like p (some t) = like p t

-- The conditions on an item's blocking keys.
abbrev pub Condition : Type 0
Condition = ItemRow → Bool

abbrev pub equals_column : Text → Option Text → Bool
equals_column h none = false
equals_column h (some g) = same h g

abbrev pub has_hash : Text → Condition
has_hash h r = equals_column h r.canonical_url_hash

abbrev pub hash_conditions : Option Text → List Condition
hash_conditions none = []
hash_conditions (some []) = []
hash_conditions (some (c ∷ cs)) = has_hash (c ∷ cs) ∷ []

abbrev pub is_of_domain : Text → Condition
is_of_domain d r =
    matches_like (codes "%//" ++ (d ++ codes "/%")) r.canonical_url
    || matches_like (codes "%//" ++ d) r.canonical_url

abbrev pub domain_conditions : Option Text → List Condition
domain_conditions none = []
domain_conditions (some []) = []
domain_conditions (some (c ∷ cs)) = is_of_domain (c ∷ cs) ∷ []

abbrev pub has_token : Text → Condition
has_token t r = matches_like (codes "%" ++ (t ++ codes "%")) r.title

abbrev pub blocking_conditions : CandidateRecord → List Condition
blocking_conditions new =
    hash_conditions new.canonical_url_hash
    ++ (domain_conditions new.url_domain ++ map has_token new.rare_title_tokens)

unfoldable pub any_condition : List Condition → Condition
any_condition [] r = false
any_condition (c ∷ cs) r = c r || any_condition cs r

-- The time filter; a horizon below zero admits no distance.
abbrev pub within : ℤ → ℕ → Bool
within (pos n) d = leb d n
within (negsuc n) d = false

abbrev pub is_near : ℤ → Option ℕ → Option ℕ → Bool
is_near horizon none b = true
is_near horizon (some a) none = true
is_near horizon (some a) (some b) = within horizon ((a - b) + (b - a))

abbrev pub is_selected : CandidateRecord → ℤ → List Condition → Condition
is_selected new horizon conditions r =
    not (r.id == new.item_id)
    && (is_near horizon r.published_at new.published_at && any_condition conditions r)

-- The query, and `if not blocking_conditions: return []`.
unfoldable pub query : CandidateRecord → ℤ → ℕ → List ItemRow → List Condition → List ItemRow
unfolding any_condition keep order_rows
query new horizon n rows [] = []
query new horizon n rows (c ∷ cs) =
    take n (order_rows (λ r. r.id) (keep (is_selected new horizon (c ∷ cs)) rows))

abbrev pub selected_rows : CandidateRecord → ℤ → ℤ → List ItemRow → List ItemRow
selected_rows new horizon (negsuc n) rows = []
selected_rows new horizon (pos zero) rows = []
selected_rows new horizon (pos (suc n)) rows =
    query new horizon (suc n) rows (blocking_conditions new)

-- `title.split()`.
abbrev pub add_word : Text → List Text → List Text
add_word [] ws = ws
add_word (c ∷ cs) ws = (c ∷ cs) ∷ ws

unfoldable pub split_from : Text → Text × List Text
unfolding is_space
split_from [] = ([], [])
split_from (c ∷ cs) =
    let (w, ws) = split_from cs in if is_space c then ([], add_word w ws) else (c ∷ w, ws)

abbrev pub words : Text → List Text
words t = let (w, ws) = split_from t in add_word w ws

abbrev pub tokens_of : List Text → Option Text → List Text
tokens_of tokens none = []
tokens_of tokens (some []) = []
tokens_of tokens (some (c ∷ cs)) = keep (λ t. exists_row (same t) (words (c ∷ cs))) tokens

-- `urlsplit(url).netloc` is the parameter, with no value where urlsplit raises a ValueError.
abbrev pub given_domain : Text → Option Text
given_domain [] = none
given_domain (d ∷ ds) = some (d ∷ ds)

abbrev pub split_domain : Option Text → Option (Option Text)
split_domain none = none
split_domain (some d) = some (given_domain d)

abbrev pub domain_of : (Text → Option Text) → Option Text → Option (Option Text)
domain_of netloc none = some none
domain_of netloc (some []) = some none
domain_of netloc (some (c ∷ cs)) = split_domain (netloc (c ∷ cs))

abbrev pub candidate_with :
    CandidateRecord → ItemRow → Option (Option Text) → Option CandidateRecord
candidate_with new r none = none
candidate_with new r (some domain) = some (record {
  item_id = r.id;
  published_at = r.published_at;
  canonical_url_hash = r.canonical_url_hash;
  url_domain = domain;
  rare_title_tokens = tokens_of new.rare_title_tokens r.title;
})

abbrev pub candidate : (Text → Option Text) → CandidateRecord → ItemRow → Option CandidateRecord
candidate netloc new r = candidate_with new r (domain_of netloc r.canonical_url)

abbrev pub add_candidate :
    Option CandidateRecord → Option (List CandidateRecord) → Option (List CandidateRecord)
add_candidate none rest = none
add_candidate (some c) none = none
add_candidate (some c) (some cs) = some (c ∷ cs)

-- The loop over the rows: an error in one of them is raised.
unfoldable pub candidates :
    (Text → Option Text) → CandidateRecord → List ItemRow → Option (List CandidateRecord)
unfolding split_from
candidates netloc new [] = some []
candidates netloc new (r ∷ rs) = add_candidate (candidate netloc new r) (candidates netloc new rs)

-- `select_candidates`, with the horizon in seconds.
unfoldable pub select_candidates :
    (Text → Option Text) → CandidateRecord → ℤ → ℤ → List ItemRow → Option (List CandidateRecord)
unfolding query like candidates
select_candidates netloc new horizon max_candidates rows =
    candidates netloc new (selected_rows new horizon max_candidates rows)
