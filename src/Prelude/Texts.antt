-- ===== src/Prelude/Texts.antt =====
-- Text: whole strings are compared as `String`; where the program walks a string it is the list
-- of its code points.
use Prim.Native.Nat.{ℕ, zero, suc, ◌+◌, ◌/◌, ◌%◌}
use Prim.Native.Char.{Char, code}
use Prim.Native.String
use Prim.Native.String.{String}
use Prim.Native.String.append
use mathlib.Core.Path.{◌≡◌, refl, sym, ◌∙◌}
use mathlib.Core.Bool.{Bool, true, false, ◌&&◌, ◌||◌}
use mathlib.Core.List.{List, [], ◌∷◌, reverse, map}
use native.Mathlib.Omega.{arith}
use text.Mathlib.Text.{◌==◌ as str_eq}
use mathlib.Core.Logic.{◌⊎◌, inl, inr}
use diiac_patchforge.Prelude.Tests.{◌==◌, leb, if◌then◌else◌, Bool-cases}

abbrev pub codes : String → List ℕ
codes String.[] = []
codes (String.◌∷◌ c s) = code c ∷ codes s

abbrev pub text_eq : List ℕ → List ℕ → Bool
text_eq [] [] = true
text_eq (x ∷ xs) (y ∷ ys) = (x == y) && text_eq xs ys
text_eq _ _ = false

-- `text` is one of the words
unfoldable pub is_word : List ℕ → List String → Bool
is_word text [] = false
is_word text (w ∷ ws) = text_eq text (codes w) || is_word text ws

-- `words.includes(s)`, `set.has(s)`
abbrev pub member : String → List String → Bool
member s [] = false
member s (w ∷ ws) = str_eq s w || member s ws

-- text.startsWith(word)
abbrev pub is_prefix : List ℕ → List ℕ → Bool
is_prefix [] s = true
is_prefix (c ∷ cs) [] = false
is_prefix (c ∷ cs) (x ∷ s) = x == c && is_prefix cs s

-- text.includes(word)
unfoldable pub contains : List ℕ → List ℕ → Bool
contains [] word = is_prefix word []
contains (c ∷ s) word = is_prefix word (c ∷ s) || contains s word

-- White space and line ends of `String.prototype.trim`.
unfoldable pub is_space : ℕ → Bool
is_space c =
    (leb 9 c && leb c 13)
    || c == 32
    || c == 0xa0
    || c == 0x1680
    || (leb 0x2000 c && leb c 0x200a)
    || c == 0x2028
    || c == 0x2029
    || c == 0x202f
    || c == 0x205f
    || c == 0x3000
    || c == 0xfeff

trim_start : List ℕ → List ℕ
unfolding is_space
trim_start [] = []
trim_start (c ∷ s) = let rest = trim_start s in if is_space c then rest else c ∷ s

unfoldable pub trim : List ℕ → List ℕ
unfolding trim_start
trim s = reverse (trim_start (reverse (trim_start s)))

-- `toLowerCase` as far as a comparison with ASCII words sees it: the capitals, and the Kelvin sign,
-- are the characters whose lower case is one ASCII letter.
unfoldable pub lower_code : ℕ → ℕ
lower_code c = if leb b'A' c && leb c b'Z' then c + 32 else if c == 0x212a then b'k' else c

unfoldable pub lower : List ℕ → List ℕ
unfolding lower_code
lower s = map lower_code s

-- the folding of a regular expression with the flag `i`, as ASCII words see it: without the flag `u`,
-- no character beyond ASCII stands for an ASCII letter
unfoldable pub fold_case : List ℕ → List ℕ
fold_case s = map (λ c. if leb b'A' c && leb c b'Z' then c + 32 else c) s

pub eq_of_text_eq : (xs ys : List ℕ) → text_eq xs ys ≡ true → xs ≡ ys
eq_of_text_eq [] [] h = refl
eq_of_text_eq [] (y ∷ ys) h = cc
eq_of_text_eq (x ∷ xs) [] h = cc
eq_of_text_eq (x ∷ xs) (y ∷ ys) h = ground (arith, eq_of_text_eq xs ys)

pub text_eq_self : (xs : List ℕ) → text_eq xs xs ≡ true
text_eq_self [] = refl
text_eq_self (x ∷ xs) = ground (arith, text_eq_self xs)

-- A word of the list that the text spells.
abbrev pub Spells : List ℕ → List String → Type 0
Spells text [] = ⊥
Spells text (w ∷ ws) = (text ≡ codes w) ⊎ Spells text ws

pub Spells-of_is_word : (text : List ℕ) (ws : List String) → is_word text ws ≡ true → Spells text ws
unfolding is_word
Spells-of_is_word text [] h = cc
Spells-of_is_word text (w ∷ ws) h = elim (Bool-cases (text_eq text (codes w))) [
  | inl e ↦ inl (eq_of_text_eq text (codes w) e)
  | inr e ↦ inr (Spells-of_is_word text ws (rw e at h))
]

pub is_word_of_Spells : (text : List ℕ) (ws : List String) → Spells text ws → is_word text ws ≡ true
unfolding is_word
is_word_of_Spells text [] h = absurd h
is_word_of_Spells text (w ∷ ws) (inl e) = rw (e, text_eq_self (codes w))
is_word_of_Spells text (w ∷ ws) (inr h) = ground (arith, is_word_of_Spells text ws h)

upper_from : String → String → Char → Char
upper_from (String.◌∷◌ l ls) (String.◌∷◌ u us) c =
    let other = upper_from ls us c in if code l == code c then u else other
upper_from _ _ c = c

-- `toUpperCase` on ASCII letters; the identifiers that the program writes so are ASCII.
unfoldable pub upper : String → String
unfolding upper_from
upper String.[] = String.[]
upper (String.◌∷◌ c s) =
    String.◌∷◌ (upper_from "abcdefghijklmnopqrstuvwxyz" "ABCDEFGHIJKLMNOPQRSTUVWXYZ" c) (upper s)

-- s.slice(0, n)
unfoldable pub str_take : ℕ → String → String
str_take zero s = ""
str_take (suc n) String.[] = ""
str_take (suc n) (String.◌∷◌ c s) = String.◌∷◌ c (str_take n s)

cons_ne_nil : (c : Char) (s : String) → ¬ (String.◌∷◌ c s ≡ "")
cons_ne_nil c s h = cc

-- A text that begins with something is not empty.
pub append-ne-nil : (p s : String) → ¬ (p ≡ "") → ¬ (String.◌++◌ p s ≡ "")
append-ne-nil String.[] s h e = h refl
append-ne-nil (String.◌∷◌ c p) s h e =
    cons_ne_nil c (String.◌++◌ p s) (sym (λ i. append.cons c p s i) ∙ e)

digit : ℕ → String
digit n =
    if n == 0
    then "0"
    else if n == 1
    then "1"
    else if n == 2
    then "2"
    else if n == 3
    then "3"
    else if n == 4
    then "4"
    else if n == 5
    then "5"
    else if n == 6
    then "6"
    else if n == 7
    then "7"
    else if n == 8
    then "8"
    else "9"

decimal_from : ℕ → ℕ → String
unfolding digit
decimal_from zero n = ""
decimal_from (suc fuel) n =
    let front = String.◌++◌ (decimal_from fuel (n / 10)) (digit (n % 10)) in
    if leb n 9 then digit n else front

-- a number in a template literal
unfoldable pub decimal : ℕ → String
unfolding decimal_from
decimal n = decimal_from (suc n) n

-- `toLowerCase` on ASCII letters; the digests and media types that the program lowers are ASCII.
unfoldable pub lower_string : String → String
unfolding upper_from
lower_string String.[] = String.[]
lower_string (String.◌∷◌ c s) =
    String.◌∷◌ (upper_from "ABCDEFGHIJKLMNOPQRSTUVWXYZ" "abcdefghijklmnopqrstuvwxyz" c)
      (lower_string s)

-- s.length, in units of UTF-16
abbrev pub utf16_length : List ℕ → ℕ
utf16_length [] = 0
utf16_length (c ∷ s) = (if leb 0x10000 c then 2 else 1) + utf16_length s
