-- ===== src/Cleanup/Purge.antt =====
-- `purgePatchForgeData` of the JSON storage and `resolvePurgeScopes`
-- (backend-api/patchforge/storage.js).
use diiac_patchforge.Prelude.{
  ℕ, ◌+◌, ◌-◌, Bool, true, false, not, Option, none, some, String, List, [], ◌∷◌, ◌++◌, map, str_eq,
  if◌then◌else◌, keep, length,
}
use diiac_patchforge.Prelude.Texts.{codes, member, trim, lower, text_eq}
use diiac_patchforge.Cleanup.{Rec, Files, write, audit, collections}

-- PATCHFORGE_PURGE_SCOPES
abbrev pub purge_scopes : List (String × List String)
purge_scopes =
    (
      "reports",
      "decision_packs" ∷ "export_artifacts" ∷ "signed_action_packs" ∷ "report_quality_reviews"
          ∷ "patch_compare_reports" ∷ [],
    )
    ∷ (
      "catalogue",
      "vulnerabilities" ∷ "sources" ∷ "vendors" ∷ "vendor_advisories" ∷ "vendor_security_advisories"
          ∷ "threat_signals" ∷ "network_vendors" ∷ "network_product_families"
          ∷ "network_product_models" ∷ "network_firmware_versions" ∷ "source_feed_runs" ∷ [],
    )
    ∷ (
      "assets",
      "assets" ∷ "services" ∷ "customers" ∷ "customer_estates" ∷ "customer_assets"
          ∷ "customer_network_assets" ∷ "asset_collectors" ∷ "asset_discovery_policies"
          ∷ "asset_discovery_runs" ∷ "config_applicability_assessments" ∷ "exposure_matches"
          ∷ "patch_actions" ∷ "workflow_items" ∷ [],
    )
    ∷ (
      "uploads",
      "finding_evidence" ∷ "finding_evidence_events" ∷ "config_evidence"
          ∷ "vendorlens_chat_sessions" ∷ "vendorlens_chat_messages" ∷ "agent_guidance_snapshots"
          ∷ [],
    )
    ∷ (
      "logs",
      "audit_events" ∷ "automation_failures" ∷ "automation_dead_letters"
          ∷ "automation_reconciliation_runs" ∷ [],
    )
    ∷ ("cache", "bayesian_assessments" ∷ [])
    ∷ []

-- `scopes` is the array of that name, `none` without one; `flags` are the scopes whose own option is set
pub record PurgeOptions : Type 0 where
  pub all_scopes : Bool
  pub scopes : Option (List String)
  pub flags : List String
  pub dry_run : Bool
  pub confirm : String

abbrev pub scope_names : List String
scope_names = map (λ s. s.0) purge_scopes

-- the name of a scope, if the text spells one, trimmed and in any case
abbrev known_scope : List String → String → List String
known_scope [] s = []
known_scope (name ∷ names) s =
    let rest = known_scope names s in
    if text_eq (lower (trim (codes s))) (codes name) then name ∷ [] else rest

abbrev known_scopes : List String → List String
known_scopes [] = []
known_scopes (s ∷ ss) = known_scope scope_names s ++ known_scopes ss

abbrev resolve_scopes : Bool → Option (List String) → List String → List String
resolve_scopes true scopes flags = scope_names
resolve_scopes false (some scopes) flags = known_scopes scopes
resolve_scopes false none flags = keep (λ s. member s flags) scope_names

-- resolvePurgeScopes
unfoldable pub resolve_purge_scopes : PurgeOptions → List String
resolve_purge_scopes o = resolve_scopes o.all_scopes o.scopes o.flags

abbrev scope_collections : List (String × List String) → String → List String
scope_collections [] s = []
scope_collections ((name, cs) ∷ rest) s =
    let more = scope_collections rest s in if str_eq name s then cs else more

abbrev pub add_new : List String → List String → List String
add_new found [] = found
add_new found (c ∷ cs) = add_new (if member c found then found else found ++ c ∷ []) cs

abbrev pub all_collections : List String → List String
all_collections [] = []
all_collections (s ∷ ss) = scope_collections purge_scopes s ++ all_collections ss

-- the collections of buildPurgePlan
unfoldable pub purge_collections : PurgeOptions → List String
purge_collections o =
    keep (λ c. member c collections) (add_new [] (all_collections (resolve_purge_scopes o)))

-- the loop of the purge: the files, and the number of records removed
unfoldable pub purge_all : String → List String → (String → List Rec) × ℕ → (String → List Rec) × ℕ
purge_all tenant [] s = s
purge_all tenant (name ∷ names) (files, removed) =
    let left = keep (λ r. not (str_eq r.tenant_id tenant)) (files name) in
    purge_all tenant names (write name left files, removed + (length (files name) - length left))

pub data Purged : Type 0 where
  planned : List String → Purged
  confirmation_required : List String → Purged
  purged : List String → ℕ → Purged

abbrev pub purge_confirmation : String
purge_confirmation = "FACTORY_RESET_PATCHFORGE"

abbrev pub purged_by : String → List String → Files → (String → List Rec) × ℕ
purged_by tenant names f = purge_all tenant names (f.records, 0)

unfoldable pub purge_confirmed : String → List String → String → Files → Purged × Files
purge_confirmed tenant names audit_id f = (
  purged names (purged_by tenant names f).1,
  record f {
    records = audit tenant audit_id "patchforge_factory_reset" (purged_by tenant names f).0;
  },
)

-- purgePatchForgeData; `audit_id` is the random identifier of the audit event
unfoldable pub purge : String → PurgeOptions → String → Files → Purged × Files
purge tenant o audit_id f =
    if o.dry_run
    then (planned (purge_collections o), f)
    else if not (str_eq o.confirm purge_confirmation)
    then (confirmation_required (purge_collections o), f)
    else purge_confirmed tenant (purge_collections o) audit_id f
