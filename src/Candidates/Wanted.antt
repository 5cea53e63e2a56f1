-- ===== src/Candidates/Wanted.antt =====
-- The items that are wanted, apart from how the query looks for them.
use tca.Base.{
  ℕ, ◌+◌, ◌≤◌, ◌≡◌, ◌≢◌, refl, sym, ap, ◌∙◌, ◌⊎◌, inl, inr, Bool, true, false, ◌||◌, Option, none,
  some, some_inj, [], ◌∷◌, ◌++◌, arith, IsIn, exists_row, Text, codes, same_eq, same_refl,
}
use tca.Base.Int.{ℤ, pos, negsuc}
use tca.Candidates.{
  ItemRow, CandidateRecord, equals_column, has_hash, is_of_domain, has_token, matches_like, is_near,
}
use tca.Candidates.Ids.{nonempty, shares_key, is_wanted, limit_of}
use tca.Candidates.Members.{exists_row-IsIn, IsIn-exists_row}
use tca.Candidates.Like.{Matches, like-Matches, Matches-like}

-- Both times are known only if they are at most so many seconds apart.
abbrev pub IsNear : ℤ → Option ℕ → Option ℕ → Type 0
IsNear horizon a b =
    (x y : ℕ) → a ≡ some x → b ≡ some y → (n : ℕ) × (horizon ≡ pos n) × (x ≤ y + n) × (y ≤ x + n)

-- A column that holds a text that matches.
abbrev pub HasMatch : Text → Option Text → Type 0
HasMatch p o = (t : Text) × (o ≡ some t) × Matches p t

abbrev pub SharesHash : CandidateRecord → ItemRow → Type 0
SharesHash new r =
    (h : Text) × (h ≢ []) × (new.canonical_url_hash ≡ some h) × (r.canonical_url_hash ≡ some h)

abbrev pub SharesDomain : CandidateRecord → ItemRow → Type 0
SharesDomain new r =
    (d : Text) × (d ≢ [])
    × (new.url_domain ≡ some d)
    × (HasMatch (codes "%//" ++ (d ++ codes "/%")) r.canonical_url
        ⊎ HasMatch (codes "%//" ++ d) r.canonical_url)

abbrev pub SharesToken : CandidateRecord → ItemRow → Type 0
SharesToken new r =
    (t : Text) × IsIn t new.rare_title_tokens × HasMatch (codes "%" ++ (t ++ codes "%")) r.title

abbrev pub IsWanted : CandidateRecord → ℤ → ItemRow → Type 0
IsWanted new horizon r =
    (r.id ≢ new.item_id)
    × IsNear horizon r.published_at new.published_at
    × (SharesHash new r ⊎ (SharesDomain new r ⊎ SharesToken new r))

is_near-IsNear : (z : ℤ) (a b : Option ℕ) → is_near z a b ≡ true → IsNear z a b
is_near-IsNear z none b h = λ x y e f. cc
is_near-IsNear z (some a) none h = λ x y e f. cc
is_near-IsNear (pos n) (some a) (some b) h = λ x y e f.
    let p : a ≡ x = some_inj e in
    let q : b ≡ y = some_inj f in (n, refl, ground arith, ground arith)
is_near-IsNear (negsuc n) (some a) (some b) h = cc

near_test : (z : ℤ) (a b : Option ℕ) → IsNear z a b → is_near z a b ≡ true
near_test z none b h = refl
near_test z (some a) none h = refl
near_test (pos n) (some a) (some b) h =
    let (m, e, p, q) = h a b refl refl in let same_ : n ≡ m = ap limit_of e in ground arith
near_test (negsuc n) (some a) (some b) h = let (m, e, p, q) = h a b refl refl in cc

match_holds : (p : Text) (o : Option Text) → matches_like p o ≡ true → HasMatch p o
match_holds p none h = cc
match_holds p (some t) h = (t, refl, like-Matches p t h)

match_test : (p : Text) (o : Option Text) → HasMatch p o → matches_like p o ≡ true
match_test p o (t, e, m) = rw e (Matches-like m)

nonempty_holds :
    (f : Text → Bool) (o : Option Text)
    → nonempty f o ≡ true
    → (t : Text) × (t ≢ []) × (o ≡ some t) × (f t ≡ true)
nonempty_holds f none h = cc
nonempty_holds f (some []) h = cc
nonempty_holds f (some (c ∷ cs)) h = (c ∷ cs, λ e. cc, refl, h)

nonempty_test :
    (f : Text → Bool) (o : Option Text) (t : Text)
    → t ≢ []
    → o ≡ some t
    → f t ≡ true
    → nonempty f o ≡ true
nonempty_test f o [] n e h = absurd (n refl)
nonempty_test f o (c ∷ cs) n e h = rw e h

column_holds : (h : Text) (o : Option Text) → equals_column h o ≡ true → o ≡ some h
column_holds h none e = cc
column_holds h (some g) e = ap some (sym (same_eq h g e))

column_test : (h : Text) (o : Option Text) → o ≡ some h → equals_column h o ≡ true
column_test h o e = rw e (same_refl h)

or_holds : (a b : Bool) → (a || b) ≡ true → (a ≡ true) ⊎ (b ≡ true)
or_holds true b h = inl refl
or_holds false b h = inr h

or_true : (b : Bool) → (b || true) ≡ true
or_true b = ground arith

module _ (new : CandidateRecord) (r : ItemRow) where
  domain_holds : nonempty (λ d. is_of_domain d r) new.url_domain ≡ true → SharesDomain new r
  domain_holds h =
      let (d, n, e, t) = nonempty_holds (λ d. is_of_domain d r) new.url_domain h in
      (
        d,
        n,
        e,
        elim (or_holds _ _ t) [
          | inl a ↦ inl (match_holds _ r.canonical_url a)
          | inr b ↦ inr (match_holds _ r.canonical_url b)
        ],
      )

  domain_test : SharesDomain new r → nonempty (λ d. is_of_domain d r) new.url_domain ≡ true
  domain_test (d, n, e, inl m) =
      let url = match_test (codes "%//" ++ (d ++ codes "/%")) r.canonical_url m in
      nonempty_test (λ g. is_of_domain g r) new.url_domain d n e (rw url refl)
  domain_test (d, n, e, inr m) =
      let url = match_test (codes "%//" ++ d) r.canonical_url m in
      nonempty_test (λ g. is_of_domain g r) new.url_domain d n e
        (ap (λ b. is_long || b) url ∙ or_true is_long)
    where
      is_long : Bool
      is_long = matches_like (codes "%//" ++ (d ++ codes "/%")) r.canonical_url

  token_holds : exists_row (λ t. has_token t r) new.rare_title_tokens ≡ true → SharesToken new r
  token_holds h =
      let (t, i, e) = exists_row-IsIn (λ t. has_token t r) new.rare_title_tokens h in
      (t, i, match_holds _ r.title e)

  token_test : SharesToken new r → exists_row (λ t. has_token t r) new.rare_title_tokens ≡ true
  token_test (t, i, m) =
      IsIn-exists_row (λ t. has_token t r) t new.rare_title_tokens i (match_test _ r.title m)

  hash_holds : nonempty (λ h. has_hash h r) new.canonical_url_hash ≡ true → SharesHash new r
  hash_holds p =
      let (h, n, e, t) = nonempty_holds (λ h. has_hash h r) new.canonical_url_hash p in
      (h, n, e, column_holds h r.canonical_url_hash t)

  hash_test : SharesHash new r → nonempty (λ h. has_hash h r) new.canonical_url_hash ≡ true
  hash_test (h, n, e, t) =
      nonempty_test (λ h. has_hash h r) new.canonical_url_hash h n e
        (column_test h r.canonical_url_hash t)

  key_holds : shares_key new r ≡ true → SharesHash new r ⊎ (SharesDomain new r ⊎ SharesToken new r)
  key_holds h = elim (or_holds _ _ h) [
    | inl a ↦ inl (hash_holds a)
    | inr b ↦ elim (or_holds _ _ b) [
      | inl a ↦ inr (inl (domain_holds a))
      | inr t ↦ inr (inr (token_holds t))
    ]
  ]

  key_test : SharesHash new r ⊎ (SharesDomain new r ⊎ SharesToken new r) → shares_key new r ≡ true
  key_test (inl a) = ground (arith, hash_test a)
  key_test (inr (inl a)) = ground (arith, domain_test a)
  key_test (inr (inr a)) = ground (arith, token_test a)

  -- The tests decide what is wanted.
  pub is_wanted-holds : (z : ℤ) → is_wanted new z r ≡ true → IsWanted new z r
  is_wanted-holds z h = (
    λ e. ground arith,
    is_near-IsNear z r.published_at new.published_at (ground arith),
    key_holds (ground arith),
  )

  pub is_wanted-test : (z : ℤ) → IsWanted new z r → is_wanted new z r ≡ true
  is_wanted-test z (n, near, key) =
      ground (arith, near_test z r.published_at new.published_at near, key_test key)
