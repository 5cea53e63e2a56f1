-- ===== src/Store/Rank.antt =====
-- The order in which a cluster's representative is chosen: the ORDER BY of the window function that
-- tca/storage/dedupe_clusters_repo.py and tca/ops/prune_job.py share.
use mathlib.Core.Path.{subst}
use tca.Base.{
  ℕ, suc, ◌+◌, ◌≡◌, refl, Bool, true, false, not, Option, none, some, List, [], ◌∷◌, ◌==◌, ltb,
  if◌then◌else◌, keep, exists_row, exists_row-keep, exists_row_at, ◌∙◌, All, All-imp, sym, some_inj,
  arith, Option-cases, inl, inr,
}
use tca.Base.{Text}
use tca.Store.{Item, Database, has_member, has_item}

-- SQLite's LENGTH of a text: the characters before the first NUL.
unfoldable pub sql_length : Text → ℕ
sql_length [] = 0
sql_length (c ∷ cs) = let rest = sql_length cs in if c == 0 then 0 else suc rest

-- COALESCE(LENGTH(text), 0).
unfoldable pub length_or_zero : Option Text → ℕ
length_or_zero none = 0
length_or_zero (some t) = sql_length t

-- CASE WHEN COALESCE(canonical_url, '') != '' THEN 0 ELSE 1 END.
unfoldable pub url_rank : Option Text → ℕ
url_rank none = 1
url_rank (some []) = 1
url_rank (some (c ∷ cs)) = 0

unfoldable pub null_rank : Option ℕ → ℕ
null_rank none = 1
null_rank (some t) = 0

unfoldable pub ticks : Option ℕ → ℕ
ticks none = 0
ticks (some t) = t

unfoldable pub text_length : Item → ℕ
text_length a = length_or_zero a.title + length_or_zero a.body

-- Whether `a` stands before `b`: a URL first, then the longer text, then a publication time, the
-- earlier one, and the smaller id.
unfoldable pub ranks_before : Item → Item → Bool
ranks_before a b =
    if not (url_rank a.canonical_url == url_rank b.canonical_url)
    then ltb (url_rank a.canonical_url) (url_rank b.canonical_url)
    else if not (text_length a == text_length b)
    then ltb (text_length b) (text_length a)
    else if not (null_rank a.published_at == null_rank b.published_at)
    then ltb (null_rank a.published_at) (null_rank b.published_at)
    else if not (ticks a.published_at == ticks b.published_at)
    then ltb (ticks a.published_at) (ticks b.published_at)
    else ltb a.id b.id

-- The better of an item and the best of the rest.
unfoldable pub better : Item → Option Item → Item
better x none = x
better x (some y) = if ranks_before y x then y else x

-- The row with `row_rank = 1`.
unfoldable pub best : List Item → Option Item
unfolding better
best [] = none
best (x ∷ xs) = some (better x (best xs))

-- The rows that the join of `dedupe_members` and `items` has for one cluster. The pair of ids is
-- the members' primary key, so the join lists each item once.
unfoldable pub cluster_items : ℕ → Database → List Item
cluster_items c db = keep (λ (i : Item). has_member c i.id db) db.items

abbrev pub item_id : Option Item → Option ℕ
item_id none = none
item_id (some i) = some i.id

-- The value that the UPDATE gives to `representative_item_id`.
unfoldable pub representative : ℕ → Database → Option ℕ
unfolding best cluster_items
representative c db = item_id (best (cluster_items c db))

pub ranks_before_irrefl : (a : Item) → ranks_before a a ≡ false
unfolding ranks_before
ranks_before_irrefl a = ground arith

-- Two items of which neither stands before the other have one id.
pub ranks_before_total :
    (a b : Item) → ranks_before a b ≡ false → ranks_before b a ≡ false → a.id ≡ b.id
unfolding ranks_before
ranks_before_total a b h k = ground arith

-- What does not stand before `b` does not stand before what `b` is not behind.
pub ranks_before_trans :
    (a b c : Item) → ranks_before a b ≡ false → ranks_before b c ≡ false → ranks_before a c ≡ false
unfolding ranks_before
ranks_before_trans a b c h k = ground arith

pub ranks_before_asym : (a b : Item) → ranks_before a b ≡ true → ranks_before b a ≡ false
unfolding ranks_before
ranks_before_asym a b h = ground arith

best_least_step :
    (i x y : Item) → ranks_before i y ≡ false → ranks_before i (better x (some y)) ≡ false
unfolding better
best_least_step i x y h = ground (arith, ranks_before_asym y x, ranks_before_trans i y x)

better_head : (x : Item) (o : Option Item) → ranks_before x (better x o) ≡ false
unfolding better
better_head x none = ranks_before_irrefl x
better_head x (some y) = ground (arith, ranks_before_irrefl x, ranks_before_asym y x)

-- No item of the list stands before `r`.
abbrev pub IsLeast : Item → List Item → Type 0
IsLeast r xs = All (λ i. ranks_before i r ≡ false) xs

better_tail :
    (x : Item) (xs : List Item) (o : Option Item)
    → best xs ≡ o
    → ((y : Item) → o ≡ some y → IsLeast y xs)
    → IsLeast (better x o) xs
better_tail x [] none e h = tt
better_tail x (z ∷ zs) none e h = absurd (unfold best in cc)
better_tail x xs (some y) e h =
    All-imp (λ i. ranks_before i y ≡ false) (λ i. ranks_before i (better x (some y)) ≡ false) xs
      (λ i. best_least_step i x y) (h y refl)

pub best-IsLeast : (xs : List Item) (r : Item) → best xs ≡ some r → IsLeast r xs
unfolding best
best-IsLeast [] r e = tt
best-IsLeast (x ∷ xs) r e =
    subst (λ s. IsLeast s (x ∷ xs)) (some_inj e)
      (better_head x (best xs), better_tail x xs (best xs) refl (best-IsLeast xs))

better_picks :
    (p : Item → Bool) (x : Item) (xs : List Item) (o : Option Item)
    → ((y : Item) → o ≡ some y → p y ≡ true → exists_row p xs ≡ true)
    → p (better x o) ≡ true
    → exists_row p (x ∷ xs) ≡ true
unfolding better exists_row
better_picks p x xs none h e = ground arith
better_picks p x xs (some y) h e = ground (arith, h y)

-- The best item is one of the list: what it satisfies, some item of the list does.
best_picks :
    (p : Item → Bool) (xs : List Item) (r : Item)
    → best xs ≡ some r
    → p r ≡ true
    → exists_row p xs ≡ true
unfolding best
best_picks p [] r e h = cc
best_picks p (x ∷ xs) r e h =
    better_picks p x xs (best xs) (best_picks p xs) (subst (λ s. p s ≡ true) (sym (some_inj e)) h)

-- The representative that a cluster's rank query finds is an item of the cluster, and no item of
-- the cluster stands before it in the order of the query.
pub representative_lem :
    (c k : ℕ) (db : Database)
    → representative c db ≡ some k
    → (r : Item) × (r.id ≡ k)
      × (has_member c k db ≡ true)
      × (has_item k db ≡ true)
      × IsLeast r (cluster_items c db)
unfolding representative
representative_lem c k db e = elim (Option-cases (best (cluster_items c db))) [
  | inl nothing ↦ absurd (ground arith)
  | inr (r, chosen) ↦
      let same : r.id ≡ k = ground arith in
      let found =
        sym (exists_row-keep (λ (i : Item). k == i.id) (λ i. has_member c i.id db) db.items)
        ∙ best_picks (λ i. k == i.id) (cluster_items c db) r chosen (ground arith) in
      let both =
        sym (exists_row_at (λ (i : Item). i.id) (λ i. has_member c i db) k db.items) ∙ found in
      (r, same, ground arith, ground arith, best-IsLeast (cluster_items c db) r chosen)
]

best-none : (xs : List Item) → best xs ≡ none → xs ≡ []
unfolding best
best-none [] e = refl
best-none (x ∷ xs) e = cc

-- A cluster has no representative exactly when it has no items.
pub representative-none :
    (c : ℕ) (db : Database) → representative c db ≡ none → cluster_items c db ≡ []
unfolding representative best
representative-none c db e = best-none (cluster_items c db) (ground arith)
