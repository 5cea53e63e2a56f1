-- ===== src/Prune/Batch.antt =====
-- One batch of a retention loop, on rows with distinct ids: it takes only expired rows, at least one
-- if there are any and at most `delete_batch_size`, and spares the others.
use mathlib.Core.Path.{subst}
use tca.Base.{
  ℕ, zero, suc, ◌+◌, ◌≤◌, ◌<◌, ◌≡◌, refl, sym, ap, ◌∙◌, min, Bool, true, false, not, ◌&&◌, List, [],
  ◌∷◌, map, ◌==◌, ==_refl, keep, exists_row, exists_row-keep, exists_row-count, count_rows, member,
  member-map, take, length, length-take, length-map, length-keep, All, All-imp, All-zip,
  exists_row_mono, arith, Bool-cases, inl, inr,
}
use tca.Base.Sort.{sort, member-sort, length-sort}
use tca.Store.{Stamped}
use tca.Prune.{delete_batch_size, expired, select_ids, listed_count}

-- The primary key: no id occurs twice.
abbrev pub IsDistinct : List Stamped → Type 0
IsDistinct [] = Unit
IsDistinct (r ∷ rs) = All (λ (x : Stamped). (x.id == r.id) ≡ false) rs × IsDistinct rs

-- The rows that a batch leaves.
abbrev pub spared : List ℕ → List Stamped → List Stamped
spared ids rows = keep (λ (r : Stamped). not (member r.id ids)) rows

-- The rows that are to stay.
abbrev pub current : ℕ → List Stamped → List Stamped
current cutoff rows = keep (λ r. not (expired cutoff r)) rows

abbrev expired_id : ℕ → List Stamped → ℕ → Bool
expired_id cutoff rows k = exists_row (λ (x : Stamped). k == x.id && expired cutoff x) rows

absent :
    (cutoff k : ℕ) (rows : List Stamped)
    → All (λ (x : Stamped). (x.id == k) ≡ false) rows
    → expired_id cutoff rows k ≡ false
unfolding exists_row
absent cutoff k [] h = refl
absent cutoff k (x ∷ xs) h = ground (arith, absent cutoff k xs h.1)

-- With distinct ids, a row whose id is that of an expired row is that row.
expired_of_id :
    (cutoff : ℕ) (rows : List Stamped)
    → IsDistinct rows
    → All (λ r. expired_id cutoff rows r.id ≡ true → expired cutoff r ≡ true) rows
unfolding exists_row
expired_of_id cutoff [] d = tt
expired_of_id cutoff (x ∷ xs) d = (
  λ h. ground (arith, absent cutoff x.id xs d.0),
  All-zip (λ (r : Stamped). (r.id == x.id) ≡ false)
      (λ r. expired_id cutoff xs r.id ≡ true → expired cutoff r ≡ true)
      (λ r. expired_id cutoff (x ∷ xs) r.id ≡ true → expired cutoff r ≡ true) xs
      (λ r other f h. f (ground arith)) d.0 (expired_of_id cutoff xs d.1),
)

member-take : (n k : ℕ) (xs : List ℕ) → member k (take n xs) ≡ true → member k xs ≡ true
unfolding member
member-take zero k xs h = cc
member-take (suc n) k [] h = h
member-take (suc n) k (x ∷ xs) h = ground (arith, member-take n k xs)

-- A selected id is the id of an expired row.
member-select_ids :
    (cutoff k : ℕ) (rows : List Stamped)
    → member k (select_ids cutoff rows) ≡ true
    → expired_id cutoff rows k ≡ true
unfolding select_ids
member-select_ids cutoff k rows h =
    sym (exists_row-keep (λ (r : Stamped). k == r.id) (expired cutoff) rows)
    ∙ sym (member-map (λ (r : Stamped). r.id) k (keep (expired cutoff) rows))
    ∙ sym (member-sort k (map (λ (r : Stamped). r.id) (keep (expired cutoff) rows)))
    ∙ member-take delete_batch_size k _ h

pub length-select_ids :
    (cutoff : ℕ) (rows : List Stamped)
    → length (select_ids cutoff rows) ≡ min delete_batch_size (count_rows (expired cutoff) rows)
unfolding select_ids
length-select_ids cutoff rows =
    length-take delete_batch_size (sort (map (λ (r : Stamped). r.id) (keep (expired cutoff) rows)))
    ∙ ap (min delete_batch_size) (
        length-sort (map (λ (r : Stamped). r.id) (keep (expired cutoff) rows))
        ∙ length-map (λ (r : Stamped). r.id) (keep (expired cutoff) rows)
        ∙ length-keep (expired cutoff) rows)

-- All the rows that the ids list are expired.
abbrev IsExpiredBatch : ℕ → List ℕ → List Stamped → Type 0
IsExpiredBatch cutoff ids rows = All (λ r. member r.id ids ≡ true → expired cutoff r ≡ true) rows

listed_expired :
    (cutoff : ℕ) (rows : List Stamped)
    → IsDistinct rows
    → IsExpiredBatch cutoff (select_ids cutoff rows) rows
listed_expired cutoff rows d =
    All-imp _ (λ r. member r.id (select_ids cutoff rows) ≡ true → expired cutoff r ≡ true) rows
      (λ r f h. f (member-select_ids cutoff r.id rows h)) (expired_of_id cutoff rows d)

count_split :
    (cutoff : ℕ) (ids : List ℕ) (rows : List Stamped)
    → IsExpiredBatch cutoff ids rows
    → listed_count ids rows + count_rows (expired cutoff) (spared ids rows)
      ≡ count_rows (expired cutoff) rows
unfolding count_rows keep
count_split cutoff ids [] h = omega arith
count_split cutoff ids (r ∷ rs) h = ground (arith, h.0, count_split cutoff ids rs h.1)

current-spared :
    (cutoff : ℕ) (ids : List ℕ) (rows : List Stamped)
    → IsExpiredBatch cutoff ids rows
    → current cutoff (spared ids rows) ≡ current cutoff rows
unfolding keep
current-spared cutoff ids [] h = refl
current-spared cutoff ids (r ∷ rs) h = ground (arith, h.0, current-spared cutoff ids rs h.1)

All-keep :
    (P : Stamped → Type 0) (p : Stamped → Bool) (rows : List Stamped)
    → All P rows
    → All P (keep p rows)
unfolding keep
All-keep P p [] h = tt
All-keep P p (r ∷ rs) h = elim (Bool-cases (p r)) [
  | inl stays ↦ rw stays (h.0, All-keep P p rs h.1)
  | inr goes ↦ rw goes (All-keep P p rs h.1)
]

pub keep-IsDistinct :
    (p : Stamped → Bool) (rows : List Stamped) → IsDistinct rows → IsDistinct (keep p rows)
unfolding keep
keep-IsDistinct p [] d = tt
keep-IsDistinct p (r ∷ rs) d = elim (Bool-cases (p r)) [
  | inl stays ↦
      rw stays
        (All-keep (λ (x : Stamped). (x.id == r.id) ≡ false) p rs d.0, keep-IsDistinct p rs d.1)
  | inr goes ↦ rw goes (keep-IsDistinct p rs d.1)
]

count_absent :
    (k : ℕ) (rows : List Stamped)
    → All (λ (x : Stamped). (x.id == k) ≡ false) rows
    → count_rows (λ (x : Stamped). x.id == k) rows ≡ 0
unfolding count_rows
count_absent k [] h = refl
count_absent k (x ∷ xs) h = ground (arith, count_absent k xs h.1)

count_one :
    (k : ℕ) (rows : List Stamped)
    → IsDistinct rows
    → count_rows (λ (x : Stamped). x.id == k) rows ≤ 1
unfolding count_rows
count_one k [] d = omega arith
count_one k (x ∷ xs) d = ground (arith, count_one k xs d.1, count_absent x.id xs d.0)

count_add :
    (i : ℕ) (is : List ℕ) (rows : List Stamped)
    → listed_count (i ∷ is) rows
      ≤ count_rows (λ (x : Stamped). x.id == i) rows + listed_count is rows
unfolding count_rows member
count_add i is [] = omega arith
count_add i is (x ∷ xs) = ground (arith, count_add i is xs)

listed_none : (rows : List Stamped) → listed_count [] rows ≡ 0
unfolding count_rows member
listed_none [] = refl
listed_none (x ∷ xs) = listed_none xs

listed_le :
    (ids : List ℕ) (rows : List Stamped) → IsDistinct rows → listed_count ids rows ≤ length ids
listed_le [] rows d = omega (arith, listed_none rows)
listed_le (i ∷ is) rows d =
    omega (arith, count_add i is rows, count_one i rows d, listed_le is rows d)

-- A batch counts the rows that it deletes, at least one and at most `delete_batch_size`; the current
-- rows stay, in their order.
pub record IsBatch (cutoff : ℕ) (ids : List ℕ) (rows : List Stamped) : Type 0 where
  pub some_deleted : 0 < listed_count ids rows
  pub StartsAbove : listed_count ids rows ≤ delete_batch_size
  pub counted :
      listed_count ids rows + count_rows (expired cutoff) (spared ids rows)
      ≡ count_rows (expired cutoff) rows
  pub current_kept : current cutoff (spared ids rows) ≡ current cutoff rows
  pub distinct : IsDistinct (spared ids rows)

listed_some :
    (cutoff i : ℕ) (is : List ℕ) (rows : List Stamped)
    → select_ids cutoff rows ≡ i ∷ is
    → 0 < listed_count (i ∷ is) rows
unfolding member
listed_some cutoff i is rows e =
    exists_row-count (λ (r : Stamped). member r.id (i ∷ is)) rows
      (exists_row_mono (λ (x : Stamped). i == x.id && expired cutoff x) (λ x. member x.id (i ∷ is))
        rows (λ x h. ground arith)
        (member-select_ids cutoff i rows (ap (member i) e ∙ ground (arith, ==_refl i))))

pub select_ids-IsBatch :
    (cutoff i : ℕ) (is : List ℕ) (rows : List Stamped)
    → IsDistinct rows
    → select_ids cutoff rows ≡ i ∷ is
    → IsBatch cutoff (i ∷ is) rows
select_ids-IsBatch cutoff i is rows d e =
    let old = subst (λ ids. IsExpiredBatch cutoff ids rows) e (listed_expired cutoff rows d) in
    record {
      some_deleted = listed_some cutoff i is rows e;
      StartsAbove = omega (
        arith,
        listed_le (i ∷ is) rows d,
        ap (λ (l : List ℕ). length l) e,
        length-select_ids cutoff rows,
      );
      counted = count_split cutoff (i ∷ is) rows old;
      current_kept = current-spared cutoff (i ∷ is) rows old;
      distinct = keep-IsDistinct (λ (r : Stamped). not (member r.id (i ∷ is))) rows d;
    }

-- The selection is empty only when nothing is expired.
pub select_ids-nil :
    (cutoff : ℕ) (rows : List Stamped)
    → select_ids cutoff rows ≡ []
    → count_rows (expired cutoff) rows ≡ 0
select_ids-nil cutoff rows e =
    omega (arith, length-select_ids cutoff rows, ap (λ (l : List ℕ). length l) e)
