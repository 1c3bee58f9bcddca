-- ===== src/Applicability/Versions.antt =====
-- Versions of backend-api/patchforge/configApplicability.js: `normalizedVersion`, `versionParts`,
-- `versionCompare` and the constraints of `versionSatisfies`. A part is a natural number, as
-- `parseInt` gives it below 2^53.
pub mod Order
use mathlib.Core.List.{reverse}
use diiac_patchforge.Prelude.{
  ℕ, zero, suc, ◌+◌, ◌-◌, ◌*◌, max, Bool, true, false, not, ◌&&◌, ◌||◌, Option, none, some, List,
  [], ◌∷◌, ◌++◌, map, ◌==◌, leb, ltb, if◌then◌else◌, keep, any, length,
}
use diiac_patchforge.Prelude.Texts.{codes, text_eq, is_space, trim, lower, is_prefix}
use diiac_patchforge.Applicability.{Text}
use diiac_patchforge.Applicability.Terms.{is_empty, split_on}

abbrev is_digit : ℕ → Bool
is_digit c = leb b'0' c && leb c b'9'

abbrev starts_digit : Text → Bool
starts_digit [] = false
starts_digit (c ∷ _) = is_digit c

-- the longest `\d+(?:\.\d+)*` at a digit
abbrev version_run : Text → Text
version_run [] = []
version_run (c ∷ s) =
    let rest = version_run s in if is_digit c || (c == b'.' && starts_digit s) then c ∷ rest else []

abbrev first_run : Text → Text
first_run [] = []
first_run (c ∷ s) = let rest = first_run s in if is_digit c then version_run (c ∷ s) else rest

unfoldable pub normalized_version : Text → Text
normalized_version t = first_run (lower t)

-- parseInt(part, 10), of digits
abbrev parse_digits : ℕ → Text → ℕ
parse_digits acc [] = acc
parse_digits acc (c ∷ s) = parse_digits (10 * acc + (c - b'0')) s

unfoldable pub version_parts : Text → List ℕ
version_parts t =
    map (parse_digits 0) (keep (λ part. not (is_empty part)) (split_on b'.' (normalized_version t)))

-- -1, 0 and 1
pub data Sign : Type 0 where
  less equal greater : Sign

-- `parts[index] || 0`
abbrev pub part_at : List ℕ → ℕ → ℕ
part_at [] i = 0
part_at (p ∷ ps) zero = p
part_at (p ∷ ps) (suc i) = part_at ps i

-- the loop from an index, for the rounds that are left
unfoldable pub compare_from : ℕ → ℕ → List ℕ → List ℕ → Sign
compare_from zero i l r = equal
compare_from (suc rounds) i l r =
    let rest = compare_from rounds (suc i) l r in
    if ltb (part_at r i) (part_at l i)
    then greater
    else if ltb (part_at l i) (part_at r i)
    then less
    else rest

unfoldable pub compare_parts : List ℕ → List ℕ → Sign
compare_parts l r = compare_from (max (length l) (length r)) 0 l r

unfoldable pub version_compare : Text → Text → Sign
version_compare left right = compare_parts (version_parts left) (version_parts right)

abbrev pub is_less : Sign → Bool
is_less less = true
is_less _ = false

abbrev pub is_greater : Sign → Bool
is_greater greater = true
is_greater _ = false

abbrev pub is_equal : Sign → Bool
is_equal equal = true
is_equal _ = false

abbrev has_version_numbers : Text → Bool
has_version_numbers t = any is_digit t

abbrev drop_spaces : Text → Text
drop_spaces t = keep (λ c. not (is_space c)) t

pub data Direction : Type 0 where
  below at_most above at_least : Direction

-- `/^(<=|>=|<|>)(.+)$/`: the longer comparator first, and the shorter one where nothing follows it
abbrev comparator : Text → Option (Direction × Text)
comparator (c ∷ d ∷ e ∷ s) =
    if c == b'<' && d == b'='
    then some (at_most, e ∷ s)
    else if c == b'>' && d == b'='
    then some (at_least, e ∷ s)
    else if c == b'<'
    then some (below, d ∷ e ∷ s)
    else if c == b'>'
    then some (above, d ∷ e ∷ s)
    else none
comparator (c ∷ d ∷ []) =
    if c == b'<' then some (below, d ∷ []) else if c == b'>' then some (above, d ∷ []) else none
comparator _ = none

-- the two sides of the last "-" that something follows
abbrev last_dash : Text → Option (Text × Text)
last_dash [] = none
last_dash (c ∷ s) = step (last_dash s) c s
  where
    step : Option (Text × Text) → ℕ → Text → Option (Text × Text)
    step (some (before, after)) c s = some (c ∷ before, after)
    step none c s = if c == b'-' && not (is_empty s) then some ([], s) else none

abbrev pub holds_for : Direction → Sign → Bool
holds_for below s = is_less s
holds_for at_most s = not (is_greater s)
holds_for above s = is_greater s
holds_for at_least s = not (is_less s)

abbrev is_x : ℕ → Bool
is_x c = c == b'x' || c == b'X'

-- the text before a final `.x` or `x`, of the reversed text
abbrev wildcard_prefix : Text → Option Text
wildcard_prefix [] = none
wildcard_prefix (c ∷ []) = if is_x c then some [] else none
wildcard_prefix (c ∷ d ∷ s) =
    if is_x c then some (if d == b'.' then reverse s else reverse (d ∷ s)) else none

abbrev satisfies_prefix : Text → Text → Option Text → Bool
satisfies_prefix version compact none = is_equal (version_compare version compact)
satisfies_prefix version compact (some prefix) =
    is_prefix (prefix ++ b'.' ∷ []) (normalized_version version)
    || text_eq (normalized_version version) prefix

abbrev satisfies_range : Text → Text → Option (Text × Text) → Bool
satisfies_range version compact none =
    satisfies_prefix version compact (wildcard_prefix (reverse compact))
satisfies_range version compact (some (from, to)) =
    if not (is_empty from) && has_version_numbers from && has_version_numbers to
    then not (is_less (version_compare version from))
      && not (is_greater (version_compare version to))
    else satisfies_prefix version compact (wildcard_prefix (reverse compact))

abbrev satisfies_compact : Text → Text → Option (Direction × Text) → Bool
satisfies_compact version compact none = satisfies_range version compact (last_dash compact)
satisfies_compact version compact (some (direction, bound)) =
    holds_for direction (version_compare version bound)

unfoldable pub version_satisfies : Text → Text → Bool
version_satisfies version constraint =
    let raw = trim constraint in
    if is_empty raw || text_eq raw (codes "*")
    then true
    else satisfies_compact version (drop_spaces raw) (comparator (drop_spaces raw))

unfoldable pub version_satisfies_any : Text → List Text → Bool
version_satisfies_any version constraints = any (version_satisfies version) constraints
