-- ===== src/Store/First.antt =====
-- The representative against a description of the order: the ORDER BY of the rank query in terms of the
-- items' columns.
use mathlib.Core.Path.{subst}
use tca.Base.{
  ℕ, suc, ◌+◌, ◌≤◌, ◌<◌, ◌≡◌, refl, sym, ap, ◌∙◌, ◌⊎◌, inl, inr, Bool, true, false, not, Option,
  none, some, some_inj, List, [], ◌∷◌, ◌==◌, ltb, IsIn, if◌then◌else◌, keep, All, arith, length,
  Text, Bool-cases, Option-cases,
}
use tca.Store.{Item, Database, has_member}
use tca.Store.Rank.{
  sql_length, length_or_zero, url_rank, null_rank, ticks, text_length, ranks_before, better, best,
  cluster_items, representative, IsLeast, best-IsLeast,
}

-- A URL that is there and not empty.
abbrev pub has_url : Option Text → Bool
has_url none = false
has_url (some []) = false
has_url (some (c ∷ cs)) = true

-- What SQLite takes a text to be: its characters before the first NUL.
unfoldable pub before_nul : Text → Text
before_nul [] = []
before_nul (c ∷ cs) = let rest = before_nul cs in if c == 0 then [] else c ∷ rest

abbrev pub characters_of : Option Text → ℕ
characters_of none = 0
characters_of (some t) = length (before_nul t)

abbrev pub characters : Item → ℕ
characters i = characters_of i.title + characters_of i.body

-- By publication: a time before none, the earlier time, and then the smaller id.
abbrev pub IsEarlier : Option ℕ → Option ℕ → ℕ → ℕ → Type 0
IsEarlier none none a b = a ≤ b
IsEarlier none (some u) a b = ⊥
IsEarlier (some t) none a b = Unit
IsEarlier (some t) (some u) a b = (t < u) ⊎ ((t ≡ u) × (a ≤ b))

-- An item with a URL before one without, then the one with more text, then the one published earlier.
abbrev pub IsAhead : Item → Item → Type 0
IsAhead r i =
    ((has_url r.canonical_url ≡ true) × (has_url i.canonical_url ≡ false))
    ⊎ ((has_url r.canonical_url ≡ has_url i.canonical_url)
        × ((characters i < characters r)
            ⊎ ((characters i ≡ characters r) × IsEarlier r.published_at i.published_at r.id i.id)))

abbrev rank : Bool → ℕ
rank true = 0
rank false = 1

url_rank_lem : (o : Option Text) → url_rank o ≡ rank (has_url o)
unfolding url_rank
url_rank_lem none = refl
url_rank_lem (some []) = refl
url_rank_lem (some (c ∷ cs)) = refl

sql_length_lem : (t : Text) → sql_length t ≡ length (before_nul t)
unfolding sql_length before_nul
sql_length_lem [] = refl
sql_length_lem (c ∷ cs) = elim (Bool-cases (c == 0)) [
  | inl e ↦ rw e refl
  | inr e ↦ rw e (ap suc (sql_length_lem cs))
]

length_or_zero_lem : (o : Option Text) → length_or_zero o ≡ characters_of o
unfolding length_or_zero
length_or_zero_lem none = refl
length_or_zero_lem (some t) = sql_length_lem t

text_length_lem : (i : Item) → text_length i ≡ characters i
unfolding text_length
text_length_lem i =
    ap (λ n. n + length_or_zero i.body) (length_or_zero_lem i.title)
    ∙ ap (λ n. characters_of i.title + n) (length_or_zero_lem i.body)

-- The last two tests.
time_lem :
    (p q : Option ℕ) (a b : ℕ)
    → (if not (null_rank q == null_rank p)
        then ltb (null_rank q) (null_rank p)
        else if not (ticks q == ticks p)
        then ltb (ticks q) (ticks p)
        else ltb b a)
      ≡ false
    → IsEarlier p q a b
unfolding null_rank ticks
time_lem none none a b h = ground arith
time_lem none (some u) a b h = ground arith
time_lem (some t) none a b h = tt
time_lem (some t) (some u) a b h = elim (Bool-cases (t == u)) [
  | inl e ↦ inr (ground arith, ground arith)
  | inr e ↦ inl (ground arith)
]

-- All tests, from the ranks and lengths.
tests_lem :
    (xr xi : Bool) (nr ni cr ci : ℕ) (later : Bool) (E : Type 0)
    → nr ≡ rank xr
    → ni ≡ rank xi
    → (later ≡ false → E)
    → (if not (ni == nr) then ltb ni nr else if not (ci == cr) then ltb cr ci else later) ≡ false
    → ((xr ≡ true) × (xi ≡ false)) ⊎ ((xr ≡ xi) × ((ci < cr) ⊎ ((ci ≡ cr) × E)))
tests_lem true false nr ni cr ci later E r i time h = inl (refl, refl)
tests_lem false true nr ni cr ci later E r i time h = absurd (ground arith)
tests_lem true true nr ni cr ci later E r i time h = elim (Bool-cases (ci == cr)) [
  | inl e ↦ inr (refl, inr (ground arith, time (ground arith)))
  | inr e ↦ inr (refl, inl (ground arith))
]
tests_lem false false nr ni cr ci later E r i time h = elim (Bool-cases (ci == cr)) [
  | inl e ↦ inr (refl, inr (ground arith, time (ground arith)))
  | inr e ↦ inr (refl, inl (ground arith))
]

ahead : (r i : Item) → ranks_before i r ≡ false → IsAhead r i
unfolding ranks_before
ahead r i h =
    rw (sym (text_length_lem i), sym (text_length_lem r))
      (tests_lem (has_url r.canonical_url) (has_url i.canonical_url) (url_rank r.canonical_url)
        (url_rank i.canonical_url) (text_length r) (text_length i) _ _
        (url_rank_lem r.canonical_url) (url_rank_lem i.canonical_url)
        (time_lem r.published_at i.published_at r.id i.id) h)

better-IsIn :
    (x : Item) (o : Option Item) (xs : List Item)
    → ((y : Item) → o ≡ some y → IsIn y xs)
    → IsIn (better x o) (x ∷ xs)
unfolding better
better-IsIn x none xs h = inl refl
better-IsIn x (some y) xs h = elim (Bool-cases (ranks_before y x)) [
  | inl e ↦
      let chosen : y ≡ better x (some y) = rw e refl in
      subst (λ s. IsIn s (x ∷ xs)) chosen (inr (h y refl))
  | inr e ↦
      let chosen : x ≡ better x (some y) = rw e refl in
      subst (λ s. IsIn s (x ∷ xs)) chosen (inl refl)
]

best-IsIn : (xs : List Item) (r : Item) → best xs ≡ some r → IsIn r xs
unfolding best
best-IsIn [] r e = cc
best-IsIn (x ∷ xs) r e =
    subst (λ s. IsIn s (x ∷ xs)) (some_inj e) (better-IsIn x (best xs) xs (best-IsIn xs))

keep-IsIn :
    (p : Item → Bool) (r : Item) (xs : List Item) → IsIn r (keep p xs) → IsIn r xs × (p r ≡ true)
unfolding keep
keep-IsIn p r [] h = absurd h
keep-IsIn p r (x ∷ xs) h = elim (Bool-cases (p x)) [
  | inl e ↦
      let listed : keep p (x ∷ xs) ≡ x ∷ keep p xs = rw e refl in
      elim (subst (IsIn r) listed h) [
        | inl s ↦ (inl s, ap p s ∙ e)
        | inr m ↦ let (a, b) = keep-IsIn p r xs m in (inr a, b)
      ]
  | inr e ↦
      let listed : keep p (x ∷ xs) ≡ keep p xs = rw e refl in
      let (a, b) = keep-IsIn p r xs (subst (IsIn r) listed h) in (inr a, b)
]

All-keep :
    (p : Item → Bool) (r : Item) (xs : List Item)
    → IsLeast r (keep p xs)
    → All (λ i. (p i ≡ false) ⊎ IsAhead r i) xs
unfolding keep
All-keep p r [] h = tt
All-keep p r (x ∷ xs) h = elim (Bool-cases (p x)) [
  | inl e ↦
      let listed : keep p (x ∷ xs) ≡ x ∷ keep p xs = rw e refl in
      let (a, b) = subst (IsLeast r) listed h in (inr (ahead r x a), All-keep p r xs b)
  | inr e ↦
      let listed : keep p (x ∷ xs) ≡ keep p xs = rw e refl in
      (inl e, All-keep p r xs (subst (IsLeast r) listed h))
]

-- A representative that a cluster's rank query finds is the key of an item of the table that is a
-- member of the cluster and stands ahead of every item that is one: it has a URL and the other
-- none, or both or neither have one and it has more characters, of title and body up to a NUL, or
-- as many and was published earlier, where no time counts as the latest, or at the same time and
-- its key is not greater.
pub representative_first :
    (c k : ℕ) (db : Database)
    → representative c db ≡ some k
    → (r : Item) × (r.id ≡ k)
      × IsIn r db.items
      × (has_member c k db ≡ true)
      × All (λ i. (has_member c i.id db ≡ false) ⊎ IsAhead r i) db.items
unfolding representative cluster_items
representative_first c k db e = elim (Option-cases (best (cluster_items c db))) [
  | inl nothing ↦ absurd (ground arith)
  | inr (r, chosen) ↦
      let same : r.id ≡ k = ground arith in
      let (there, mine) =
        keep-IsIn (λ i. has_member c i.id db) r db.items
          (best-IsIn (cluster_items c db) r chosen) in
      (
        r,
        same,
        there,
        sym (ap (λ j. has_member c j db) same) ∙ mine,
        All-keep (λ i. has_member c i.id db) r db.items
            (best-IsLeast (cluster_items c db) r chosen),
      )
]
