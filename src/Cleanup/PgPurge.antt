-- ===== src/Cleanup/PgPurge.antt =====
-- `purgePatchForgeData` of `PatchForgePostgresStorage` (backend-api/patchforge/storage.js): the table of
-- records by collection, its rows in the order of their creation.
use diiac_patchforge.Prelude.{
  ℕ, ◌+◌, not, String, List, [], ◌∷◌, str_eq, if◌then◌else◌, keep, length,
}
use diiac_patchforge.Cleanup.{Rec, Files, write, audit}
use diiac_patchforge.Cleanup.Purge.{
  PurgeOptions, Purged, planned, confirmation_required, purged, purge_confirmation,
  purge_collections,
}

-- the sum of `plan.counts` of buildPurgePlan
unfoldable pub counted : String → List String → (String → List Rec) → ℕ
counted tenant [] files = 0
counted tenant (name ∷ names) files =
    length (keep (λ r. str_eq r.tenant_id tenant) (files name)) + counted tenant names files

-- the `delete` of each collection
unfoldable pub delete_all : String → List String → (String → List Rec) → String → List Rec
delete_all tenant [] files = files
delete_all tenant (name ∷ names) files =
    delete_all tenant names
      (write name (keep (λ r. not (str_eq r.tenant_id tenant)) (files name)) files)

unfoldable pub pg_purge_confirmed : String → List String → String → Files → Purged × Files
pg_purge_confirmed tenant names audit_id f = (
  purged names (counted tenant names f.records),
  record f {
    records = audit tenant audit_id "patchforge_factory_reset" (delete_all tenant names f.records);
  },
)

unfoldable pub pg_purge : String → PurgeOptions → String → Files → Purged × Files
pg_purge tenant o audit_id f =
    if o.dry_run
    then (planned (purge_collections o), f)
    else if not (str_eq o.confirm purge_confirmation)
    then (confirmation_required (purge_collections o), f)
    else pg_purge_confirmed tenant (purge_collections o) audit_id f
