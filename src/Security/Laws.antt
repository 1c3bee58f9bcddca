-- ===== src/Security/Laws.antt =====
-- When a source-supplied flag is affirmative (backend-api/patchforge/securityBooleans.js).
use diiac_patchforge.Prelude.{
  ◌^◌, ◌≡◌, refl, ◌⊎◌, inl, inr, ◌↔◌, true, false, List, [], ◌∷◌, String, arith, str_eq, eq_iff,
  Bool-cases,
}
use diiac_patchforge.Prelude.Numbers.{nan, infinity, neg_infinity, finite, pos, negsuc}
use diiac_patchforge.Prelude.Texts.{
  codes, trim, lower, Spells, is_word, Spells-of_is_word, is_word_of_Spells,
}
use diiac_patchforge.Security.{
  Value, undefined, null, bool, num, str, structured, true_like, parse_text, parse_security_boolean,
  parse_security_boolean_any,
}

-- What the fail-closed rule admits: `true`, the number 1, and a text that spells a true-like word.
abbrev pub IsAffirmative : Value → Type 0
IsAffirmative (bool b) = b ≡ true
IsAffirmative (num (finite (pos m) k)) = m ≡ 2 ^ k
IsAffirmative (str s) = Spells (lower (trim (codes s))) true_like
IsAffirmative _ = ⊥

-- A text is affirmative exactly if it is one of the true-like words.
parse_text_iff :
    (s : String) → (parse_text s false ≡ true) ↔ (is_word (lower (trim (codes s))) true_like ≡ true)
unfolding parse_text
parse_text_iff s = elim (Bool-cases (is_word (lower (trim (codes s))) true_like)) [
  | inl e ↦ (λ _. e, λ _. rw e)
  | inr e ↦ (λ h. ground arith, λ h. cc)
]

blank_is_no_word : is_word (lower (trim (codes ""))) true_like ≡ false
unfolding is_word trim lower
blank_is_no_word = refl

str_true : (s : String) → parse_security_boolean (str s) false ≡ true → parse_text s false ≡ true
unfolding parse_security_boolean
str_true s h = elim (Bool-cases (str_eq s "")) [ inl e ↦ cc e | inr e ↦ rw e at h ]

str_of_text : (s : String) → parse_text s false ≡ true → parse_security_boolean (str s) false ≡ true
unfolding parse_security_boolean
str_of_text s h = elim (Bool-cases (str_eq s "")) [
  | inl e ↦ let blank : s ≡ "" = (eq_iff s "").0 e in cc ((parse_text_iff s).0 h, blank_is_no_word)
  | inr e ↦ rw e h
]

-- A value sets a security-positive flag exactly if it is affirmative: nothing else is coerced.
pub parse_security_boolean-IsAffirmative :
    (v : Value) → (parse_security_boolean v false ≡ true) ↔ IsAffirmative v
unfolding parse_security_boolean
parse_security_boolean-IsAffirmative undefined = (λ h. cc, λ h. absurd h)
parse_security_boolean-IsAffirmative null = (λ h. cc, λ h. absurd h)
parse_security_boolean-IsAffirmative (bool b) = (λ h. h, λ h. h)
parse_security_boolean-IsAffirmative (num nan) = (λ h. cc, λ h. absurd h)
parse_security_boolean-IsAffirmative (num infinity) = (λ h. cc, λ h. absurd h)
parse_security_boolean-IsAffirmative (num neg_infinity) = (λ h. cc, λ h. absurd h)
parse_security_boolean-IsAffirmative (num (finite (pos m) k)) =
    (λ h. ground arith, λ h. ground arith)
parse_security_boolean-IsAffirmative (num (finite (negsuc m) k)) = (λ h. cc, λ h. absurd h)
parse_security_boolean-IsAffirmative (str s) = (
  λ h. Spells-of_is_word (lower (trim (codes s))) true_like ((parse_text_iff s).0 (str_true s h)),
  λ h.
      str_of_text s ((parse_text_iff s).1 (is_word_of_Spells (lower (trim (codes s))) true_like h)),
)
parse_security_boolean-IsAffirmative structured = (λ h. cc, λ h. absurd h)

-- An affirmative value among several.
abbrev pub HasAffirmative : List Value → Type 0
HasAffirmative [] = ⊥
HasAffirmative (v ∷ vs) = IsAffirmative v ⊎ HasAffirmative vs

any_true : (vs : List Value) → parse_security_boolean_any vs ≡ true → HasAffirmative vs
unfolding parse_security_boolean_any
any_true [] h = cc
any_true (v ∷ vs) h = elim (Bool-cases (parse_security_boolean v false)) [
  | inl e ↦ inl ((parse_security_boolean-IsAffirmative v).0 e)
  | inr e ↦ inr (any_true vs (rw e at h))
]

any_of_affirmative : (vs : List Value) → HasAffirmative vs → parse_security_boolean_any vs ≡ true
unfolding parse_security_boolean_any
any_of_affirmative [] h = absurd h
any_of_affirmative (v ∷ vs) (inl a) = rw ((parse_security_boolean-IsAffirmative v).1 a)
any_of_affirmative (v ∷ vs) (inr h) = ground (arith, any_of_affirmative vs h)

-- The combination of several candidate values is true exactly if one of them is affirmative.
pub parse_security_boolean_any-HasAffirmative :
    (vs : List Value) → (parse_security_boolean_any vs ≡ true) ↔ HasAffirmative vs
parse_security_boolean_any-HasAffirmative vs = (any_true vs, any_of_affirmative vs)
