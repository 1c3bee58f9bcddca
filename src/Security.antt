-- ===== src/Security.antt =====
-- Parsing of security flags that a source supplies: `parseSecurityBoolean` and
-- `parseSecurityBooleanAny` of backend-api/patchforge/securityBooleans.js.
pub mod Laws
use diiac_patchforge.Prelude.{Bool, true, false, ◌||◌, List, [], ◌∷◌, String, str_eq, if◌then◌else◌}
use diiac_patchforge.Prelude.Numbers.{JsNumber, nan, infinity, neg_infinity, finite, is_num}
use diiac_patchforge.Prelude.Texts.{codes, is_word, trim, lower}

-- An untrusted value. Arrays, objects, functions, symbols and big integers are `structured`.
pub data Value : Type 0 where
  undefined null : Value
  bool : Bool → Value
  num : JsNumber → Value
  str : String → Value
  structured : Value

abbrev pub true_like : List String
true_like = "1" ∷ "true" ∷ "yes" ∷ "on" ∷ []

abbrev pub false_like : List String
false_like = "0" ∷ "false" ∷ "no" ∷ "off" ∷ []

abbrev parse_number : JsNumber → Bool → Bool
parse_number nan fallback = fallback
parse_number infinity fallback = fallback
parse_number neg_infinity fallback = fallback
parse_number (finite m k) fallback =
    if is_num (finite m k) 1 then true else if is_num (finite m k) 0 then false else fallback

unfoldable pub parse_text : String → Bool → Bool
unfolding trim lower is_word
parse_text s fallback =
    let normalized = lower (trim (codes s)) in
    if is_word normalized true_like
    then true
    else if is_word normalized false_like
    then false
    else fallback

unfoldable pub parse_security_boolean : Value → Bool → Bool
unfolding parse_text
parse_security_boolean undefined fallback = fallback
parse_security_boolean null fallback = fallback
parse_security_boolean (bool b) fallback = b
parse_security_boolean (num n) fallback = parse_number n fallback
parse_security_boolean (str s) fallback = if str_eq s "" then fallback else parse_text s fallback
parse_security_boolean structured fallback = fallback

unfoldable pub parse_security_boolean_any : List Value → Bool
unfolding parse_security_boolean
parse_security_boolean_any [] = false
parse_security_boolean_any (v ∷ vs) =
    parse_security_boolean v false || parse_security_boolean_any vs
