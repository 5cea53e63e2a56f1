-- ===== src/Base/Codes.antt =====
-- Texts as code points: `==` and `str.strip`.
use Prim.Native.Char.{code}
use Prim.Native.String.{String}
use Prim.Native.Nat.{ℕ}
use mathlib.Core.Path.{◌≡◌, refl}
use mathlib.Core.Logic.{inl, inr}
use mathlib.Core.Bool.{Bool, true, false, ◌&&◌, ◌||◌}
use mathlib.Core.List.{List, [], ◌∷◌}
use native.Mathlib.Omega.{arith}
use tca.Base.Tests.{leb, ◌==◌, if◌then◌else◌, Bool-cases}

abbrev pub Text : Type 0
Text = List ℕ

abbrev pub codes : String → Text
codes String.[] = []
codes (String.◌∷◌ c s) = code c ∷ codes s

unfoldable pub same : Text → Text → Bool
same [] [] = true
same [] (b ∷ ys) = false
same (a ∷ xs) [] = false
same (a ∷ xs) (b ∷ ys) = a == b && same xs ys

pub same_sym : (xs ys : Text) → same xs ys ≡ same ys xs
unfolding same
same_sym [] [] = refl
same_sym [] (b ∷ ys) = refl
same_sym (a ∷ xs) [] = refl
same_sym (a ∷ xs) (b ∷ ys) = ground (arith, same_sym xs ys)

pub same_eq : (xs ys : Text) → same xs ys ≡ true → xs ≡ ys
unfolding same
same_eq [] [] h = refl
same_eq [] (b ∷ ys) h = cc
same_eq (a ∷ xs) [] h = cc
same_eq (a ∷ xs) (b ∷ ys) h = ground (arith, same_eq xs ys)

pub same_refl : (xs : Text) → same xs xs ≡ true
unfolding same
same_refl [] = refl
same_refl (x ∷ xs) = ground (arith, same_refl xs)

-- The characters that `str.isspace` accepts.
unfoldable pub is_space : ℕ → Bool
is_space c =
    leb 9 c && leb c 13
    || leb 28 c && leb c 32
    || c == 133
    || c == 160
    || c == 5760
    || leb 8192 c && leb c 8202
    || c == 8232
    || c == 8233
    || c == 8239
    || c == 8287
    || c == 12288

unfoldable pub lstrip : Text → Text
lstrip [] = []
lstrip (x ∷ xs) = let rest = lstrip xs in if is_space x then rest else x ∷ xs

abbrev pub onto : ℕ → Text → Text
onto x [] = if is_space x then [] else x ∷ []
onto x (y ∷ ys) = x ∷ y ∷ ys

unfoldable pub rstrip : Text → Text
rstrip [] = []
rstrip (x ∷ xs) = onto x (rstrip xs)

unfoldable pub strip : Text → Text
unfolding lstrip rstrip
strip s = lstrip (rstrip s)

-- A text that starts with no space.
abbrev starts : Text → Bool
starts [] = true
starts (x ∷ xs) = if is_space x then false else true

lstrip-starts : (s : Text) → starts s ≡ true → lstrip s ≡ s
unfolding lstrip
lstrip-starts [] h = refl
lstrip-starts (x ∷ xs) h = ground arith

starts-lstrip : (s : Text) → starts (lstrip s) ≡ true
unfolding lstrip
starts-lstrip [] = refl
starts-lstrip (x ∷ xs) = ground (arith, starts-lstrip xs)

-- A text that ends with no space, by its last character.
abbrev ends : Text → Bool
ends [] = true
ends (x ∷ []) = if is_space x then false else true
ends (x ∷ y ∷ ys) = ends (y ∷ ys)

ends-onto : (x : ℕ) (t : Text) → ends t ≡ true → ends (onto x t) ≡ true
ends-onto x [] h = elim (Bool-cases (is_space x)) [ inl e ↦ rw e refl | inr e ↦ rw e (rw e refl) ]
ends-onto x (y ∷ ys) h = h

ends-rstrip : (s : Text) → ends (rstrip s) ≡ true
unfolding rstrip
ends-rstrip [] = refl
ends-rstrip (x ∷ xs) = ends-onto x (rstrip xs) (ends-rstrip xs)

rstrip-ends : (s : Text) → ends s ≡ true → rstrip s ≡ s
unfolding rstrip
rstrip-ends [] h = refl
rstrip-ends (x ∷ []) h = elim (Bool-cases (is_space x)) [ inl e ↦ ground arith | inr e ↦ rw e ]
rstrip-ends (x ∷ y ∷ ys) h = rw (rstrip-ends (y ∷ ys) h)

ends-tail : (x : ℕ) (s : Text) → ends (x ∷ s) ≡ true → ends s ≡ true
ends-tail x [] h = refl
ends-tail x (y ∷ ys) h = h

ends-lstrip : (s : Text) → ends s ≡ true → ends (lstrip s) ≡ true
unfolding lstrip
ends-lstrip [] h = refl
ends-lstrip (x ∷ xs) h = elim (Bool-cases (is_space x)) [
  | inl e ↦ rw e (ends-lstrip xs (ends-tail x xs h))
  | inr e ↦ rw e h
]

pub strip_idem : (s : Text) → strip (strip s) ≡ strip s
unfolding strip
strip_idem s =
    rw (rstrip-ends (lstrip (rstrip s)) (ends-lstrip (rstrip s) (ends-rstrip s)))
      (lstrip-starts (lstrip (rstrip s)) (starts-lstrip (rstrip s)))
