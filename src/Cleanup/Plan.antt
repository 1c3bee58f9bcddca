-- ===== src/Cleanup/Plan.antt =====
-- The plan of a cleanup (backend-api/patchforge/storage.js): `buildUatCleanupPlan` with the guards on
-- its options, and `recordReferencesExactIdentifier`.
use diiac_patchforge.Prelude.{
  ℕ, ◌+◌, Bool, true, false, not, ◌&&◌, ◌||◌, Option, none, some, String, List, [], ◌∷◌, ◌++◌,
  str_eq, ◌==◌, leb, ltb, if◌then◌else◌, keep, all, any, length,
}
use diiac_patchforge.Prelude.Texts.{codes, member, is_prefix}
use diiac_patchforge.Cleanup.{
  Json, Jsons, text, other, items, none_left, next, Rec, Files, cleanup_collections,
}

-- `keys` are the own keys of the options; a value that is absent, or no text, is empty
pub record CleanupOptions : Type 0 where
  pub keys : List String
  pub identifier : String
  pub dry_run : Bool
  pub confirm : String
  pub preview_token : String

pub record CleanupPlan : Type 0 where
  pub tenant_id : String
  pub identifier : String
  pub dry_run : Bool
  pub record_ids : List (String × List String)
  pub total_records : ℕ

-- PATCHFORGE_UAT_FORBIDDEN_SELECTORS
abbrev pub forbidden_selectors : List String
forbidden_selectors =
    "all" ∷ "scope" ∷ "scopes" ∷ "collection" ∷ "collections" ∷ "reports" ∷ "catalogue" ∷ "assets"
    ∷ "uploads" ∷ "logs" ∷ "cache" ∷ []

abbrev is_alphanumeric : ℕ → Bool
is_alphanumeric c =
    (leb b'A' c && leb c b'Z') || (leb b'a' c && leb c b'z') || (leb b'0' c && leb c b'9')

abbrev is_identifier_code : ℕ → Bool
is_identifier_code c = is_alphanumeric c || c == b'.' || c == b'_' || c == b':' || c == b'-'

-- the part of an identifier behind its prefix
abbrev is_identifier_tail : List ℕ → Bool
is_identifier_tail [] = false
is_identifier_tail (c ∷ s) = is_alphanumeric c && leb (length s) 127 && all is_identifier_code s

abbrev drop_codes : List ℕ → List ℕ → List ℕ
drop_codes [] s = s
drop_codes (_ ∷ _) [] = []
drop_codes (_ ∷ p) (_ ∷ s) = drop_codes p s

-- PATCHFORGE_UAT_IDENTIFIER_PATTERN
unfoldable pub is_uat_identifier : String → Bool
is_uat_identifier s =
    is_prefix (codes "UAT-PF-") (codes s)
    && is_identifier_tail (drop_codes (codes "UAT-PF-") (codes s))

-- validateUatCleanupOptions and normalizeUatCleanupIdentifier: the code of the error, if any
unfoldable pub option_error : CleanupOptions → Option String
option_error o =
    if any (λ selector. member selector o.keys) forbidden_selectors
    then some "collection_wide_selection_forbidden"
    else if str_eq o.identifier ""
    then some "uat_identifier_required"
    else if not (is_uat_identifier o.identifier)
    then some "invalid_uat_identifier"
    else none

-- recordReferencesExactIdentifier, of values without cycles
unfoldable mutual
  pub value_references : String → Json → Bool
  value_references identifier (text s) = str_eq s identifier
  value_references identifier other = false
  value_references identifier (items vs) = some_references identifier vs

  pub some_references : String → Jsons → Bool
  some_references identifier none_left = false
  some_references identifier (next v vs) =
      value_references identifier v || some_references identifier vs

-- the records that a cleanup is about: of the tenant, with the identifier as a value
abbrev pub is_selected : String → String → Rec → Bool
is_selected tenant identifier r = str_eq r.tenant_id tenant && some_references identifier r.fields

abbrev pub add_id : String → List String → List String
add_id id ids = if member id ids then ids else ids ++ id ∷ []

abbrev pub add_ids : List Rec → List String → List String
add_ids [] ids = ids
add_ids (r ∷ rs) ids = add_ids rs (add_id r.record_id ids)

-- the order of the default sort, on texts as lists of code points
abbrev pub text_leb : List ℕ → List ℕ → Bool
text_leb [] t = true
text_leb (c ∷ s) [] = false
text_leb (c ∷ s) (d ∷ t) = let rest = text_leb s t in if c == d then rest else ltb c d

abbrev pub insert_text : String → List String → List String
insert_text s [] = s ∷ []
insert_text s (t ∷ ts) =
    let rest = insert_text s ts in if text_leb (codes t) (codes s) then t ∷ rest else s ∷ t ∷ ts

abbrev pub sort_texts : List String → List String
sort_texts [] = []
sort_texts (s ∷ ss) = insert_text s (sort_texts ss)

-- the identifiers that are selected in one collection, each once
unfoldable pub ids_of : String → String → List Rec → List String
ids_of tenant identifier recs = sort_texts (add_ids (keep (is_selected tenant identifier) recs) [])

abbrev pub with_ids :
    String → List String → List (String × List String) → List (String × List String)
with_ids name [] rest = rest
with_ids name (id ∷ ids) rest = (name, id ∷ ids) ∷ rest

-- the collections that have some, with them
unfoldable pub selected_ids :
    String → String → (String → List Rec) → List String → List (String × List String)
selected_ids tenant identifier files [] = []
selected_ids tenant identifier files (name ∷ names) =
    with_ids name (ids_of tenant identifier (files name))
      (selected_ids tenant identifier files names)

abbrev pub total_of : List (String × List String) → ℕ
total_of [] = 0
total_of ((name, ids) ∷ rest) = length ids + total_of rest

-- a record of the tenant without an identifier, on which recordIdFor throws
abbrev pub lacks_id : String → (String → List Rec) → String → Bool
lacks_id tenant files name =
    any (λ r. str_eq r.tenant_id tenant && str_eq r.record_id "") (files name)

unfoldable pub plan_of : String → CleanupOptions → Files → CleanupPlan
plan_of tenant o f =
    let ids = selected_ids tenant o.identifier f.records cleanup_collections in
    record {
      tenant_id = tenant;
      identifier = o.identifier;
      dry_run = o.dry_run;
      record_ids = ids;
      total_records = total_of ids;
    }

abbrev pub or_missing : Option String → Bool → Option String
or_missing (some code) missing = some code
or_missing none missing = if missing then some "record_id_missing" else none

-- buildUatCleanupPlan: the code of the error, if any
unfoldable pub plan_error : String → CleanupOptions → Files → Option String
plan_error tenant o f =
    or_missing (option_error o) (any (lacks_id tenant f.records) cleanup_collections)
