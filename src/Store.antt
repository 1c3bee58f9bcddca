-- ===== src/Store.antt =====
-- Collections of tenant records, as `PatchForgeJsonStorage` of backend-api/patchforge/storage.js
-- keeps them: a list per collection, in insertion order. The files themselves are not modelled.
pub mod Laws
pub mod Immutable
use diiac_patchforge.Prelude.{
  Bool, true, false, ◌&&◌, Option, none, some, List, [], ◌∷◌, ◌++◌, String, str_eq, if◌then◌else◌,
  find, keep, or_else,
}

-- The tenant of a record and its identifier, the field that `COLLECTION_ID_FIELDS` names.
-- An absent identifier is the empty text.
pub record Keyed (A : Type 0) : Type 0 where
  pub tenant_of : A → String
  pub id_of : A → String

-- What `appendImmutable` returns.
pub record Stored (A : Type 0) : Type 0 where
  pub stored : A
  pub created : Bool

module _ {A : Type 0} ⦃k : Keyed A⦄ where
  unfoldable pub has_key : String → String → A → Bool
  has_key tenant id r = str_eq (k.tenant_of r) tenant && str_eq (k.id_of r) id

  -- list(collection, tenantId)
  unfoldable pub list_for : String → List A → List A
  list_for tenant records = keep (λ r. str_eq (k.tenant_of r) tenant) records

  -- `(await storage.list(…)).find((item) => item.<id> === id)`
  unfoldable pub lookup : String → String → List A → Option A
  unfolding list_for
  lookup tenant id records = find (λ r. str_eq (k.id_of r) id) (list_for tenant records)

  -- `findIndex`, then the assignment at the index or the `push`
  unfoldable pub replace_first : A → List A → List A
  unfolding has_key
  replace_first a [] = a ∷ []
  replace_first a (r ∷ rs) =
      let rest = replace_first a rs in
      if has_key (k.tenant_of a) (k.id_of a) r then a ∷ rs else r ∷ rest

  -- append(collection, record)
  unfoldable pub append_record : A → List A → List A
  unfolding replace_first
  append_record a records =
      if str_eq (k.id_of a) "" then records ++ a ∷ [] else replace_first a records

  -- appendImmutable(collection, record); `none` is the error on a record without identifier
  unfoldable pub append_immutable : A → List A → Option (Stored A × List A)
  unfolding has_key
  append_immutable a records =
      if str_eq (k.id_of a) ""
      then none
      else elim (find (has_key (k.tenant_of a) (k.id_of a)) records) [
        | some existing ↦ some (record { stored = existing; created = false }, records)
        | none ↦ some (record { stored = a; created = true }, records ++ a ∷ [])
      ]

-- replace(collection, predicate, updater): the records after it, and the last one updated
unfoldable pub replace : {A : Type 0} → (A → Bool) → (A → A) → List A → List A × Option A
replace matches update [] = ([], none)
replace matches update (r ∷ rs) =
    let (rest, updated) = replace matches update rs in
    if matches r then (update r ∷ rest, some (or_else updated (update r))) else (r ∷ rest, updated)
