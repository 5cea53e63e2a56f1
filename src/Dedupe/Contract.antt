-- ===== src/Dedupe/Contract.antt =====
-- What the contract accepts (tca/dedupe/strategy_contract.py).
use mathlib.Core.Path.{subst}
use tca.Base.{
  ◌≡◌, refl, sym, ap, ◌∙◌, ◌⊎◌, inl, inr, ◌↔◌, true, false, Option, none, some, List, [], ◌∷◌, Text,
  codes, same, same_eq, strip, Bool-cases,
}
use tca.Base.Int.{ℤ}
use tca.Dedupe.{
  Floats, Key, text_key, other_key, Value, nothing, other, boolean, integer, float, text, mapping,
  Fields, RawResult, not_a_mapping, a_mapping, Metadata, StrategyResult, duplicate, distinct,
  abstain, contract, Checked, ok, err, then_do, Status, is_duplicate, is_distinct, is_abstain,
  nonempty, status_of, known_status, check_status, check_reason, finite_score, converted,
  coerce_score, text_keys, coerce_metadata, build, coerce_strategy_result,
}

then_do-ok :
    {A B : Type 0} (o : Checked A) (f : A → Checked B) {b : B}
    → then_do o f ≡ ok b
    → (a : A) × (o ≡ ok a) × (f a ≡ ok b)
then_do-ok (ok a) f h = (a, refl, h)
then_do-ok (err e) f h = cc

then_do_on :
    {A B : Type 0} {o : Checked A} {a : A} (f : A → Checked B) → o ≡ ok a → then_do o f ≡ f a
then_do_on f e = ap (λ x. then_do x f) e

ok_inj : {A : Type 0} {a b : A} → ok a ≡ ok b → a ≡ b
ok_inj h = cc

-- The words of the three statuses.
abbrev pub word : Status → Text
word is_duplicate = codes "DUPLICATE"
word is_distinct = codes "DISTINCT"
word is_abstain = codes "ABSTAIN"

status_of-word : (s : Status) → status_of (word s) ≡ some s
unfolding status_of same
status_of-word is_duplicate = refl
status_of-word is_distinct = refl
status_of-word is_abstain = refl

word-status_of : (t : Text) (s : Status) → known_status (status_of t) ≡ ok s → t ≡ word s
unfolding status_of
word-status_of t s h = elim (Bool-cases (same t (codes "DUPLICATE"))) [
  | inl e ↦
      same_eq t (codes "DUPLICATE") e ∙ ap word (ok_inj {a = is_duplicate} (sym (rw e refl) ∙ h))
  | inr e ↦ elim (Bool-cases (same t (codes "DISTINCT"))) [
    | inl f ↦
        same_eq t (codes "DISTINCT") f
        ∙ ap word (ok_inj {a = is_distinct} (sym (rw (e, f) refl) ∙ h))
    | inr f ↦ elim (Bool-cases (same t (codes "ABSTAIN"))) [
      | inl g ↦
          same_eq t (codes "ABSTAIN") g
          ∙ ap word (ok_inj {a = is_abstain} (sym (rw (e, f, g) refl) ∙ h))
      | inr g ↦ absurd (none_known (sym (rw (e, f, g) refl) ∙ h))
    ]
  ]
]
  where
    none_known : known_status none ≡ ok s → ⊥
    none_known k = cc

-- A reason is the stripped text, if something is left of it.
abbrev pub IsReason : Text → Text → Type 0
IsReason t r = (strip t ≡ r) × (same r [] ≡ false)

nonempty_lem : (u r : Text) → nonempty u ≡ ok r → (u ≡ r) × (same r [] ≡ false)
unfolding same
nonempty_lem [] r h = cc
nonempty_lem (c ∷ cs) r h = let e = ok_inj h in (e, subst (λ x. same x [] ≡ false) e refl)

nonempty_on : (r : Text) → same r [] ≡ false → nonempty r ≡ ok r
unfolding same
nonempty_on [] h = cc
nonempty_on (c ∷ cs) h = refl

module _ (F : Floats) (Object : Type 0) where
  -- A mapping with text keys.
  abbrev pub keyed : Metadata F Object → List (Key × Object)
  keyed [] = []
  keyed ((k, v) ∷ m) = (text_key k, v) ∷ keyed m

  abbrev pub HasReason : Value F Object → Text → Type 0
  HasReason v r = (t : Text) × (v ≡ text t) × IsReason t r

  -- A score is a finite float, or an integer with a finite value as a float.
  abbrev pub HasScore : Value F Object → F.Float → Type 0
  HasScore v x =
      (F.is_finite x ≡ true)
      × ((v ≡ float x) ⊎ ((n : ℤ) × (v ≡ integer n) × (F.of_integer n ≡ some x)))

  abbrev pub HasMetadata : Value F Object → Option (Metadata F Object) → Type 0
  HasMetadata v none = v ≡ nothing
  HasMetadata v (some m) = v ≡ mapping (keyed m)

  -- What a strategy may return, and the result that it stands for.
  abbrev pub Fits : RawResult F Object → StrategyResult F Object → Type 0
  Fits not_a_mapping s = ⊥
  Fits (a_mapping r) (duplicate x reason m) =
      (r.status ≡ text (codes "DUPLICATE"))
      × HasReason r.reason reason
      × HasScore r.score x
      × HasMetadata r.metadata m
  Fits (a_mapping r) (distinct reason m) =
      (r.status ≡ text (codes "DISTINCT")) × HasReason r.reason reason × HasMetadata r.metadata m
  Fits (a_mapping r) (abstain reason m) =
      (r.status ≡ text (codes "ABSTAIN")) × HasReason r.reason reason × HasMetadata r.metadata m

  status_lem :
      (v : Value F Object) (s : Status) → check_status F Object v ≡ ok s → v ≡ text (word s)
  status_lem (text t) s h = ap text (word-status_of t s h)
  status_lem nothing s h = cc
  status_lem other s h = cc
  status_lem (boolean b) s h = cc
  status_lem (integer n) s h = cc
  status_lem (float x) s h = cc
  status_lem (mapping m) s h = cc

  status_on : (v : Value F Object) (s : Status) → v ≡ text (word s) → check_status F Object v ≡ ok s
  status_on v s e = ap (check_status F Object) e ∙ ap known_status (status_of-word s)

  reason_lem : (v : Value F Object) (r : Text) → check_reason F Object v ≡ ok r → HasReason v r
  reason_lem (text t) r h = (t, refl, nonempty_lem (strip t) r h)
  reason_lem nothing r h = cc
  reason_lem other r h = cc
  reason_lem (boolean b) r h = cc
  reason_lem (integer n) r h = cc
  reason_lem (float x) r h = cc
  reason_lem (mapping m) r h = cc

  reason_on : (v : Value F Object) (r : Text) → HasReason v r → check_reason F Object v ≡ ok r
  reason_on v r (t, e, (stripped, left)) =
      ap (check_reason F Object) e ∙ ap nonempty stripped ∙ nonempty_on r left

  finite_lem : (x y : F.Float) → finite_score F Object x ≡ ok y → (x ≡ y) × (F.is_finite y ≡ true)
  finite_lem x y h = elim (Bool-cases (F.is_finite x)) [
    | inl e ↦
        let same_score : x ≡ y = ok_inj (sym (rw e refl) ∙ h) in
        (same_score, sym (ap F.is_finite same_score) ∙ e)
    | inr e ↦ absurd (refused (sym (rw e refl) ∙ h))
  ]
    where
      refused : err (contract "score is not finite") ≡ ok y → ⊥
      refused k = cc

  finite_on : (x : F.Float) → F.is_finite x ≡ true → finite_score F Object x ≡ ok x
  finite_on x e = rw e refl

  converted_lem :
      (n : ℤ) (o : Option F.Float) (y : F.Float)
      → F.of_integer n ≡ o
      → converted F Object o ≡ ok y
      → HasScore (integer n) y
  converted_lem n none y e h = cc
  converted_lem n (some x) y e h =
      let (a, b) = finite_lem x y h in (b, inr (n, refl, e ∙ ap some a))

  score_lem : (v : Value F Object) (x : F.Float) → coerce_score F Object v ≡ ok x → HasScore v x
  unfolding coerce_score
  score_lem (integer n) x h = converted_lem n (F.of_integer n) x refl h
  score_lem (float y) x h = let (a, b) = finite_lem y x h in (b, inl (ap float a))
  score_lem nothing x h = cc
  score_lem other x h = cc
  score_lem (boolean b) x h = cc
  score_lem (text t) x h = cc
  score_lem (mapping m) x h = cc

  score_on : (v : Value F Object) (x : F.Float) → HasScore v x → coerce_score F Object v ≡ ok x
  unfolding coerce_score
  score_on v x (finite, inl e) = ap (coerce_score F Object) e ∙ finite_on x finite
  score_on v x (finite, inr (n, e, value)) =
      ap (coerce_score F Object) e ∙ ap (converted F Object) value ∙ finite_on x finite

  text_keys-keyed : (m : Metadata F Object) → text_keys F Object (keyed m) ≡ ok m
  unfolding text_keys
  text_keys-keyed [] = refl
  text_keys-keyed ((k, v) ∷ m) = rw (text_keys-keyed m)

  text_keys_lem :
      (ks : List (Key × Object)) (m : Metadata F Object)
      → text_keys F Object ks ≡ ok m
      → ks ≡ keyed m
  unfolding text_keys
  text_keys_lem [] m h = ap keyed (ok_inj h)
  text_keys_lem ((text_key k, v) ∷ ks) m h =
      let (rest, e, f) = then_do-ok (text_keys F Object ks) _ h in
      ap (λ (l : List (Key × Object)). (text_key k, v) ∷ l) (text_keys_lem ks rest e)
      ∙ ap keyed (ok_inj f)
  text_keys_lem ((other_key, v) ∷ ks) m h = cc

  metadata_lem :
      (v : Value F Object) (m : Option (Metadata F Object))
      → coerce_metadata F Object v ≡ ok m
      → HasMetadata v m
  unfolding coerce_metadata
  metadata_lem nothing m h = subst (HasMetadata nothing) (ok_inj h) refl
  metadata_lem (mapping ks) m h =
      let (rest, e, f) = then_do-ok (text_keys F Object ks) _ h in
      subst (HasMetadata (mapping ks)) (ok_inj f) (ap mapping (text_keys_lem ks rest e))
  metadata_lem other m h = cc
  metadata_lem (boolean b) m h = cc
  metadata_lem (integer n) m h = cc
  metadata_lem (float x) m h = cc
  metadata_lem (text t) m h = cc

  metadata_on :
      (v : Value F Object) (m : Option (Metadata F Object))
      → HasMetadata v m
      → coerce_metadata F Object v ≡ ok m
  unfolding coerce_metadata
  metadata_on v none e = ap (coerce_metadata F Object) e
  metadata_on v (some m) e = ap (coerce_metadata F Object) e ∙ then_do_on _ (text_keys-keyed m)

  built_lem :
      (r : Fields F Object) (reason : Text) (m : Option (Metadata F Object)) (status : Status)
      (s : StrategyResult F Object)
      → r.status ≡ text (word status)
      → HasReason r.reason reason
      → HasMetadata r.metadata m
      → build F Object r.score reason m status ≡ ok s
      → Fits (a_mapping r) s
  built_lem r reason m is_duplicate s st re me h =
      let (x, e, f) = then_do-ok (coerce_score F Object r.score) _ h in
      subst (Fits (a_mapping r)) (ok_inj f) (st, re, score_lem r.score x e, me)
  built_lem r reason m is_distinct s st re me h = subst (Fits (a_mapping r)) (ok_inj h) (st, re, me)
  built_lem r reason m is_abstain s st re me h = subst (Fits (a_mapping r)) (ok_inj h) (st, re, me)

  accepted :
      (raw : RawResult F Object) (s : StrategyResult F Object)
      → coerce_strategy_result F Object raw ≡ ok s
      → Fits raw s
  unfolding coerce_strategy_result
  accepted not_a_mapping s h = cc
  accepted (a_mapping r) s h =
      let (status, e, h_1) = then_do-ok (check_status F Object r.status) _ h in
      let (reason, f, h_2) = then_do-ok (check_reason F Object r.reason) _ h_1 in
      let (m, g, h_3) = then_do-ok (coerce_metadata F Object r.metadata) _ h_2 in
      built_lem r reason m status s (status_lem r.status status e) (reason_lem r.reason reason f)
        (metadata_lem r.metadata m g) h_3

  coerced :
      (r : Fields F Object) (reason : Text) (m : Option (Metadata F Object)) (status : Status)
      → r.status ≡ text (word status)
      → HasReason r.reason reason
      → HasMetadata r.metadata m
      → coerce_strategy_result F Object (a_mapping r) ≡ build F Object r.score reason m status
  unfolding coerce_strategy_result
  coerced r reason m status st re me =
      then_do_on _ (status_on r.status status st)
      ∙ (then_do_on _ (reason_on r.reason reason re) ∙ then_do_on _ (metadata_on r.metadata m me))

  fitting :
      (raw : RawResult F Object) (s : StrategyResult F Object)
      → Fits raw s
      → coerce_strategy_result F Object raw ≡ ok s
  fitting not_a_mapping s h = absurd h
  fitting (a_mapping r) (duplicate x reason m) (st, re, sc, me) =
      coerced r reason m is_duplicate st re me ∙ then_do_on _ (score_on r.score x sc)
  fitting (a_mapping r) (distinct reason m) (st, re, me) = coerced r reason m is_distinct st re me
  fitting (a_mapping r) (abstain reason m) (st, re, me) = coerced r reason m is_abstain st re me

  -- The contract accepts a strategy's raw result as a result exactly when the raw one is a
  -- mapping that fits it: a DUPLICATE with a text as reason that is the result's once stripped
  -- and not empty then, a finite score, given as a float or as an integer that has one as its
  -- float, and the metadata, with text keys only, or none; a DISTINCT with such a reason and such
  -- metadata; an ABSTAIN with such a reason and such metadata.
  pub coerce_strategy_result_lem :
      (raw : RawResult F Object) (s : StrategyResult F Object)
      → (coerce_strategy_result F Object raw ≡ ok s) ↔ Fits raw s
  coerce_strategy_result_lem raw s = (accepted raw s, fitting raw s)
