-- ===== src/Applicability/Terms.antt =====
-- Texts of backend-api/patchforge/configApplicability.js: `list`, `firstValue`, `normalize`,
-- `canonicalTerm` and the groups of aliases.
use mathlib.Core.List.{reverse}
use diiac_patchforge.Prelude.{
  ℕ, Bool, true, false, not, ◌&&◌, ◌||◌, Option, none, some, String, List, [], ◌∷◌, ◌++◌, map, ◌==◌,
  leb, if◌then◌else◌, keep, any,
}
use diiac_patchforge.Prelude.Texts.{codes, text_eq, is_space, trim, lower_code, lower}
use diiac_patchforge.Applicability.{Text, Field, Fields, absent, text, many, nothing, also}

abbrev pub is_empty : Text → Bool
is_empty [] = true
is_empty (_ ∷ _) = false

abbrev pub has_text : Text → Bool
has_text t = not (is_empty t)

-- value.split(c)
unfoldable pub split_on : ℕ → Text → List Text
split_on c [] = [] ∷ []
split_on c (x ∷ s) = let rest = split_on c s in if x == c then [] ∷ rest else onto x rest
  where
    onto : ℕ → List Text → List Text
    onto x [] = (x ∷ []) ∷ []
    onto x (w ∷ ws) = (x ∷ w) ∷ ws

abbrev pieces : Text → List Text
pieces t = keep has_text (map trim (split_on b',' t))

unfoldable mutual
  pub list : Field → List Text
  list absent = []
  list (text t) = if is_empty t then [] else pieces t
  list (many fs) = list_all fs

  pub list_all : Fields → List Text
  list_all nothing = []
  list_all (also f fs) = list f ++ list_all fs

-- the truth of a field: an array counts even when it is empty
abbrev pub is_given : Field → Bool
is_given absent = false
is_given (text t) = has_text t
is_given (many _) = true

-- `fields?.length` as a condition
abbrev pub has_length : Field → Bool
has_length absent = false
has_length (text t) = has_text t
has_length (many nothing) = false
has_length (many (also _ _)) = true

abbrev first_item : List Text → Option Text → Option Text
first_item [] rest = rest
first_item (item ∷ _) rest = some item

unfoldable pub first_value : List Field → Option Text
first_value [] = none
first_value (f ∷ fs) = first_item (list f) (first_value fs)

-- `replace` of each run of characters of a kind by "_"; the flag is set inside a run
unfoldable pub collapse : (ℕ → Bool) → Bool → Text → Text
collapse p inside [] = []
collapse p inside (c ∷ s) =
    let run = collapse p true s in
    let other = collapse p false s in
    if p c then (if inside then run else b'_' ∷ run) else c ∷ other

unfoldable pub normalize : Text → Text
normalize t = collapse is_space false (lower (trim t))

abbrev drop_bars : Text → Text
drop_bars [] = []
drop_bars (c ∷ s) = let rest = drop_bars s in if c == b'_' then rest else c ∷ s

-- `toLowerCase` of one character, as far as ASCII letters and digits see it
abbrev lower_all : Text → Text
lower_all [] = []
lower_all (c ∷ s) =
    let rest = lower_all s in if c == 0x130 then b'i' ∷ 0x307 ∷ rest else lower_code c ∷ rest

abbrev spell_ampersands : Text → Text
spell_ampersands [] = []
spell_ampersands (c ∷ s) =
    let rest = spell_ampersands s in if c == b'&' then codes " and " ++ rest else c ∷ rest

abbrev is_separator : ℕ → Bool
is_separator c = not ((leb b'a' c && leb c b'z') || (leb b'0' c && leb c b'9'))

unfoldable pub canonical_term : Text → Text
canonical_term t = reverse (
    drop_bars
      (reverse (drop_bars (collapse is_separator false (spell_ampersands (lower_all (trim t)))))))

abbrev pub product_alias_groups : List (List String)
product_alias_groups =
    ("fortigate" ∷ "fortios" ∷ "fortinet_firewall" ∷ "fortinet_firewall_platform" ∷ [])
    ∷ ("pan_os" ∷ "panos" ∷ "palo_alto_firewall" ∷ "palo_alto_networks_firewall"
        ∷ "globalprotect_gateway" ∷ [])
    ∷ ("cisco_asa" ∷ "asa" ∷ "firepower" ∷ "ftd" ∷ "firepower_threat_defense" ∷ "anyconnect_gateway"
        ∷ [])
    ∷ ("citrix_adc" ∷ "netscaler_adc" ∷ "netscaler_gateway" ∷ "citrix_netscaler" ∷ [])
    ∷ ("f5_big_ip" ∷ "big_ip" ∷ "bigip" ∷ "icontrol_rest" ∷ [])
    ∷ ("junos" ∷ "junos_os" ∷ "srx" ∷ "juniper_srx" ∷ [])
    ∷ []

abbrev pub feature_alias_groups : List (List String)
feature_alias_groups =
    ("ssl_vpn" ∷ "ssl-vpn" ∷ "ssl vpn" ∷ "webvpn" ∷ "remote_access_vpn" ∷ [])
    ∷ ("globalprotect" ∷ "global protect" ∷ "globalprotect_portal" ∷ "globalprotect_gateway" ∷ [])
    ∷ ("anyconnect" ∷ "cisco_anyconnect" ∷ "anyconnect_vpn" ∷ [])
    ∷ ("icontrol_rest" ∷ "icontrol rest" ∷ "i control rest" ∷ [])
    ∷ ("web_management" ∷ "management_interface" ∷ "management interface" ∷ "api_management"
        ∷ "api management" ∷ "admin_web_ui" ∷ [])
    ∷ []

-- terms.includes(term)
abbrev pub includes : List Text → Text → Bool
includes terms term = any (text_eq term) terms

-- `terms.add(term)` on a set that keeps the order of insertion
abbrev add_term : List Text → Text → List Text
add_term terms term = if includes terms term then terms else terms ++ term ∷ []

abbrev add_terms : List Text → List Text → List Text
add_terms terms [] = terms
add_terms terms (t ∷ ts) = add_terms (add_term terms t) ts

-- the aliases of one term, of each group that has it
unfoldable pub add_aliases : List (List String) → Text → List Text → List Text
add_aliases [] term terms = terms
add_aliases (g ∷ groups) term terms =
    let group = map (λ alias. canonical_term (codes alias)) g in
    add_aliases groups term (if includes group term then add_terms terms group else terms)

abbrev add_all_aliases : List (List String) → List Text → List Text → List Text
add_all_aliases groups [] terms = terms
add_all_aliases groups (t ∷ ts) terms = add_all_aliases groups ts (add_aliases groups t terms)

abbrev list_texts : List Text → List Text
list_texts [] = []
list_texts (t ∷ ts) = list (text t) ++ list_texts ts

unfoldable pub expand_alias_terms : List Text → List (List String) → List Text
expand_alias_terms values groups =
    let terms = add_terms [] (keep has_text (map canonical_term (list_texts values))) in
    add_all_aliases groups terms terms
