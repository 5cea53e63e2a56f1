-- ===== src/Delivery/Entries.antt =====
-- The listed clusters: each once, each there, and none delivered yet.
use tca.Base.{
  ℕ, zero, suc, ◌≡◌, sym, ◌∙◌, true, false, ◌&&◌, List, [], ◌∷◌, map, arith, ◌==◌, keep, exists_row,
  exists_row-keep, exists_row_witness, take, member, member-map,
}
use tca.Base.Sort.{member-sort}
use tca.Store.Unique.{IsUnique, sort-IsUnique, keep-IsUnique}
use tca.Base.Int.{ℤ, pos, negsuc}
use tca.Store.{Cluster, Database, has_cluster}
use tca.Delivery.{has_been_delivered, is_undelivered, limited, list_undelivered_entries}

member-take : (n c : ℕ) (xs : List ℕ) → member c (take n xs) ≡ true → member c xs ≡ true
unfolding member
member-take zero c xs h = cc
member-take (suc n) c [] h = h
member-take (suc n) c (x ∷ xs) h = ground (arith, member-take n c xs)

take-IsUnique : (n : ℕ) (xs : List ℕ) → IsUnique xs → IsUnique (take n xs)
take-IsUnique zero xs u = tt
take-IsUnique (suc n) [] u = tt
take-IsUnique (suc n) (x ∷ xs) u = (ground (arith, member-take n x xs, u.0), take-IsUnique n xs u.1)

limited-IsUnique : (l : ℤ) (xs : List ℕ) → IsUnique xs → IsUnique (limited l xs)
limited-IsUnique (pos n) xs u = take-IsUnique n xs u
limited-IsUnique (negsuc n) xs u = u

member-limited : (l : ℤ) (c : ℕ) (xs : List ℕ) → member c (limited l xs) ≡ true → member c xs ≡ true
member-limited (pos n) c xs h = member-take n c xs h
member-limited (negsuc n) c xs h = h

-- The clusters `cs` are each there, not delivered, and listed once.
abbrev pub AreFresh : List ℕ → Database → Type 0
AreFresh [] db = Unit
AreFresh (c ∷ cs) db =
    (has_been_delivered c db ≡ false)
    × (has_cluster c db ≡ true)
    × (member c cs ≡ false)
    × AreFresh cs db

fresh_all :
    (cs : List ℕ) (db : Database)
    → IsUnique cs
    → ((c : ℕ) → member c cs ≡ true → (has_been_delivered c db ≡ false) × (has_cluster c db ≡ true))
    → AreFresh cs db
unfolding member
fresh_all [] db u h = tt
fresh_all (c ∷ cs) db u h =
    let (a, b) = h c (ground arith) in (a, b, u.0, fresh_all cs db u.1 (λ d e. h d (ground arith)))

listed :
    (c : ℕ) (db : Database) (rows : List Cluster)
    → exists_row (λ (r : Cluster). c == r.id && is_undelivered db r) rows ≡ true
    → (has_been_delivered c db ≡ false) × (exists_row (λ (r : Cluster). c == r.id) rows ≡ true)
listed c db rows h =
    let (r, p, all) = exists_row_witness _ rows h in
    let same : c ≡ r.id = ground arith in
    (rw same (ground arith), all (λ (x : Cluster). c == x.id) (ground arith))

pub list_undelivered_entries-AreFresh :
    (l : ℤ) (db : Database)
    → IsUnique (map (λ (r : Cluster). r.id) db.clusters)
    → AreFresh (list_undelivered_entries l db) db
unfolding list_undelivered_entries
list_undelivered_entries-AreFresh l db u =
    fresh_all (list_undelivered_entries l db) db
      (limited-IsUnique l _
        (sort-IsUnique _ (keep-IsUnique (λ (r : Cluster). r.id) (is_undelivered db) db.clusters u)))
      (λ c h.
        let m = member-limited l c _ h in
        listed c db db.clusters (
          sym (exists_row-keep (λ (r : Cluster). c == r.id) (is_undelivered db) db.clusters)
          ∙ sym (member-map (λ (r : Cluster). r.id) c (keep (is_undelivered db) db.clusters))
          ∙ sym (member-sort c _)
          ∙ m))
