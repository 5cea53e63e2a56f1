-- ===== src/Candidates/Like.antt =====
-- What LIKE means, apart from how a pattern is matched.
use tca.Base.{
  ℕ, ◌+◌, ◌≤◌, ◌≡◌, refl, sym, ◌∙◌, ◌⊎◌, inl, inr, Bool, true, ◌&&◌, [], ◌∷◌, arith, leb, ◌==◌,
  Text, Bool-cases,
}
use tca.Candidates.{fold_case, any_suffix, like_one, like}

-- The same character, or an ASCII letter in two cases.
abbrev pub IsSameLetter : ℕ → ℕ → Type 0
IsSameLetter c d =
    (c ≡ d) ⊎ (((65 ≤ c) × (c ≤ 90) × (c + 32 ≡ d)) ⊎ ((65 ≤ d) × (d ≤ 90) × (d + 32 ≡ c)))

-- The percent sign stands for any text, the underscore for any character.
pub data Matches : Text → Text → Type 0 where
  empty : Matches [] []
  leave : {p t : Text} → Matches p t → Matches (37 ∷ p) t
  take_one : {c : ℕ} {p t : Text} → Matches (37 ∷ p) t → Matches (37 ∷ p) (c ∷ t)
  any_char : {c : ℕ} {p t : Text} → Matches p t → Matches (95 ∷ p) (c ∷ t)
  letter :
      {c d : ℕ} {p t : Text} → ¬ (c ≡ 37) → IsSameLetter c d → Matches p t → Matches (c ∷ p) (d ∷ t)

fold_same : (c d : ℕ) → fold_case c ≡ fold_case d → IsSameLetter c d
fold_same c d h = elim (Bool-cases (c == d)) [
  | inl e ↦ inl (ground arith)
  | inr e ↦ elim (Bool-cases (leb 65 c && leb c 90)) [
    | inl low ↦ inr (inl (ground arith))
    | inr low ↦ inr (inr (ground arith))
  ]
]

fold_eq : (c d : ℕ) → IsSameLetter c d → (fold_case c == fold_case d) ≡ true
fold_eq c d (inl e) = ground arith
fold_eq c d (inr (inl (a, b, e))) = ground arith
fold_eq c d (inr (inr (a, b, e))) = ground arith

suffix-Matches :
    (p t : Text)
    → ((s : Text) → like p s ≡ true → Matches p s)
    → any_suffix (like p) t ≡ true
    → Matches (37 ∷ p) t
unfolding any_suffix
suffix-Matches p [] ih h = leave (ih [] h)
suffix-Matches p (c ∷ cs) ih h = elim (Bool-cases (like p (c ∷ cs))) [
  | inl e ↦ leave (ih (c ∷ cs) e)
  | inr e ↦ take_one (suffix-Matches p cs ih (ground arith))
]

one-Matches :
    (c : ℕ) (p t : Text)
    → ¬ (c ≡ 37)
    → ((s : Text) → like p s ≡ true → Matches p s)
    → like_one c (like p) t ≡ true
    → Matches (c ∷ p) t
one-Matches c p [] n ih h = cc
one-Matches c p (d ∷ ds) n ih h =
    let rest : like p ds ≡ true = ground arith in
    elim (Bool-cases (fold_case c == fold_case d)) [
      | inl e ↦ letter n (fold_same c d (ground arith)) (ih ds rest)
      | inr e ↦ let underscore : c ≡ 95 = ground arith in rw underscore (any_char (ih ds rest))
    ]

-- What LIKE accepts matches,
pub like-Matches : (p t : Text) → like p t ≡ true → Matches p t
unfolding like
like-Matches [] [] h = empty
like-Matches [] (c ∷ cs) h = cc
like-Matches (c ∷ p) t h = elim (Bool-cases (c == 37)) [
  | inl e ↦
      let percent : c ≡ 37 = ground arith in
      rw percent (suffix-Matches p t (like-Matches p) (sym (rw e refl) ∙ h))
  | inr e ↦ one-Matches c p t (ground arith) (like-Matches p) (sym (rw e refl) ∙ h)
]

suffix_self : (f : Text → Bool) (t : Text) → f t ≡ true → any_suffix f t ≡ true
unfolding any_suffix
suffix_self f [] h = h
suffix_self f (c ∷ cs) h = rw h refl

-- and what matches is accepted.
pub Matches-like : {p t : Text} → Matches p t → like p t ≡ true
unfolding like any_suffix
Matches-like empty = refl
Matches-like {t} (leave {p} d) = suffix_self (like p) t (Matches-like d)
Matches-like (take_one d) = ground (arith, Matches-like d)
Matches-like (any_char d) = Matches-like d
Matches-like (letter {c} {d} n same_ m) = ground (arith, fold_eq c d same_, Matches-like m)
