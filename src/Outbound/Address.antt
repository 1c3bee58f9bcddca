-- ===== src/Outbound/Address.antt =====
-- `isDisallowedOutboundAddress` of backend-api/patchforge/outboundFetch.js.
pub mod Blocks
use diiac_patchforge.Prelude.{
  ℕ, zero, suc, ◌+◌, ◌*◌, ◌-◌, Bool, true, false, not, ◌&&◌, ◌||◌, Option, none, some, String, List,
  [], ◌∷◌, if◌then◌else◌, ◌==◌, leb, any,
}
use mathlib.Core.List.{reverse}
use diiac_patchforge.Prelude.Texts.{codes, text_eq, trim, lower}

abbrev pub starts_with : List ℕ → List ℕ → Bool
starts_with s [] = true
starts_with [] (c ∷ cs) = false
starts_with (x ∷ s) (c ∷ cs) = x == c && starts_with s cs

-- a disjunction of tests
abbrev pub holds_any : List Bool → Bool
holds_any tests = any (λ t. t) tests

-- the tests on the first three octets
unfoldable pub is_disallowed_v4 : ℕ → ℕ → ℕ → Bool
is_disallowed_v4 a b c = holds_any (
    (a == 0)
    ∷ (a == 10)
    ∷ (a == 127)
    ∷ (a == 100 && leb 64 b && leb b 127)
    ∷ (a == 169 && b == 254)
    ∷ (a == 172 && leb 16 b && leb b 31)
    ∷ (a == 192 && b == 0 && c == 0)
    ∷ (a == 192 && b == 168)
    ∷ (a == 192 && b == 0 && c == 2)
    ∷ (a == 192 && b == 88 && c == 99)
    ∷ (a == 198 && (b == 18 || b == 19))
    ∷ (a == 198 && b == 51 && c == 100)
    ∷ (a == 203 && b == 0 && c == 113)
    ∷ leb 224 a
    ∷ [])

-- The octets of a dotted text, `value.split(".").map(Number)`, on decimal digits.
unfoldable pub octets_from : ℕ → List ℕ → List ℕ
octets_from n [] = n ∷ []
octets_from n (c ∷ s) =
    let next = octets_from 0 s in
    let same = octets_from (10 * n + (c - b'0')) s in if c == b'.' then n ∷ next else same

unfoldable pub v4_disallows : List ℕ → Bool
v4_disallows (a ∷ b ∷ c ∷ rest) = is_disallowed_v4 a b c
v4_disallows _ = true

abbrev after_four : List ℕ → List ℕ
after_four (_ ∷ _ ∷ _ ∷ _ ∷ s) = s
after_four _ = []

-- `^(?:0*:)*ffff:(…)$` up to the group: what is left behind the prefix
unfoldable pub after_mapped_prefix : Bool → List ℕ → Option (List ℕ)
after_mapped_prefix in_group [] = none
after_mapped_prefix in_group (c ∷ s) =
    let group = after_mapped_prefix true s in
    let boundary = after_mapped_prefix false s in
    if c == b'0'
    then group
    else if c == b':'
    then boundary
    else if not in_group && starts_with (c ∷ s) (codes "ffff:")
    then some (after_four s)
    else none

unfoldable pub is_digit : ℕ → Bool
is_digit c = leb b'0' c && leb c b'9'

-- `\d+\.\d+\.\d+\.\d+`: with the number of dots to come, and whether a digit has just been read
unfoldable pub is_quad : ℕ → Bool → List ℕ → Bool
unfolding is_digit
is_quad dots digit [] = digit && dots == 0
is_quad zero digit (c ∷ s) = is_digit c && is_quad zero true s
is_quad (suc dots) digit (c ∷ s) =
    let next = is_quad dots false s in
    let same = is_quad (suc dots) true s in if c == b'.' then digit && next else is_digit c && same

unfoldable pub is_hex : ℕ → Bool
is_hex c = (leb b'0' c && leb c b'9') || (leb b'a' c && leb c b'f')

abbrev hex_then_colon : List ℕ → Bool
hex_then_colon (c ∷ d ∷ s) = is_hex c && d == b':'
hex_then_colon _ = false

-- `[0-1]?[0-9a-f]:`
abbrev short_group : List ℕ → Bool
short_group [] = false
short_group (c ∷ s) = hex_then_colon (c ∷ s) || ((c == b'0' || c == b'1') && hex_then_colon s)

-- `0{0,3}[0-1]?[0-9a-f]:`
unfoldable pub low_group : ℕ → List ℕ → Bool
unfolding is_hex
low_group zero s = short_group s
low_group (suc n) [] = false
low_group (suc n) (c ∷ s) = short_group (c ∷ s) || (c == b'0' && low_group n s)

abbrev drop_five : List ℕ → List ℕ
drop_five (_ ∷ _ ∷ _ ∷ _ ∷ _ ∷ s) = s
drop_five _ = []

abbrev is_link_local : List ℕ → Bool
is_link_local (_ ∷ _ ∷ c ∷ s) = c == b'8' || c == b'9' || c == b'a' || c == b'b'
is_link_local _ = false

unfoldable pub is_disallowed_v6 : List ℕ → Bool
unfolding low_group
is_disallowed_v6 value =
    starts_with value (codes "fc")
    || starts_with value (codes "fd")
    || (starts_with value (codes "fe") && is_link_local value)
    || starts_with value (codes "ff")
    || starts_with value (codes "100:")
    || (starts_with value (codes "2001:") && low_group 3 (drop_five value))
    || starts_with value (codes "2001:db8:")
    || starts_with value (codes "2002:")
    || starts_with value (codes "3fff:")

abbrev quad_of : Option (List ℕ) → Option (List ℕ)
quad_of none = none
quad_of (some rest) = if is_quad 3 false rest then some rest else none

-- the quad that the pattern captures
unfoldable pub mapped_quad : List ℕ → Option (List ℕ)
unfolding after_mapped_prefix is_quad
mapped_quad value = quad_of (after_mapped_prefix false value)

abbrev drop_bracket : ℕ → List ℕ → List ℕ
drop_bracket bracket [] = []
drop_bracket bracket (c ∷ s) = if c == bracket then s else c ∷ s

-- `is_ip` is `net.isIP`: 4, 6 or 0.
module _ (is_ip : List ℕ → ℕ) where
  -- a text that `net.isIP` says is of version 4, or that is mapped into version 6
  unfoldable pub v4_text_disallows : List ℕ → Bool
  v4_text_disallows value = if is_ip value == 4 then v4_disallows (octets_from 0 value) else true

  unfoldable pub v6_disallows : List ℕ → Option (List ℕ) → Bool
  v6_disallows value (some quad) = v4_text_disallows quad
  v6_disallows value none = is_disallowed_v6 value

  unfoldable pub is_disallowed_address : String → Bool
  is_disallowed_address address =
      let value =
        reverse (drop_bracket b']' (reverse (drop_bracket b'[' (lower (trim (codes address)))))) in
      if is_ip value == 4
      then v4_disallows (octets_from 0 value)
      else if is_ip value == 6
      then text_eq value (codes "::")
        || text_eq value (codes "::1")
        || v6_disallows value (mapped_quad value)
      else true
