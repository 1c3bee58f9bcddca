-- ===== src/Cleanup.antt =====
-- The removal of records (backend-api/patchforge/storage.js, `cleanupUatRecords` of the JSON storage and
-- `purgePatchForgeData`): the collections, and the store by collection.
pub mod Plan
pub mod Execute
pub mod Purge
pub mod PgPurge
pub mod Laws
use diiac_patchforge.Prelude.{
  ℕ, Bool, true, false, not, ◌&&◌, ◌||◌, String, List, [], ◌∷◌, ◌++◌, str_eq, if◌then◌else◌, keep,
}
use diiac_patchforge.Prelude.Texts.{member}

-- A value of a record: a text, an array or object by its items, or something else.
mutual
  pub data Json : Type 0 where
    text : String → Json
    other : Json
    items : Jsons → Json

  pub data Jsons : Type 0 where
    none_left : Jsons
    next : Json → Jsons → Jsons

-- A record with the values of its fields. `record_id` is `recordIdFor`, empty where that throws.
pub record Rec : Type 0 where
  pub tenant_id : String
  pub record_id : String
  pub fields : Jsons

pub data PreviewStatus : Type 0 where
  pending consumed : PreviewStatus

-- a record of "uat_cleanup_previews"
pub record Preview : Type 0 where
  pub tenant_id : String
  pub preview_id : String
  pub identifier : String
  pub preview_token_sha256 : String
  pub preview_digest : String
  pub status : PreviewStatus
  pub expires_at : ℕ

-- The collections but for that of the previews, by name, and the previews.
pub record Files : Type 0 where
  pub records : String → List Rec
  pub previews : List Preview

-- `_write(collection, records)`
abbrev pub write : String → List Rec → (String → List Rec) → String → List Rec
write name recs files n = if str_eq n name then recs else files n

-- audit(tenantId, eventType, …): under an identifier that is new. Of the details none is kept.
abbrev pub audit : String → String → String → (String → List Rec) → String → List Rec
audit tenant audit_id event_type files =
    write "audit_events"
      (files "audit_events"
        ++ record {
          tenant_id = tenant;
          record_id = audit_id;
          fields = next (text event_type) none_left;
        }
          ∷ [])
      files

-- COLLECTIONS
abbrev pub collections : List String
collections =
    "vulnerabilities" ∷ "sources" ∷ "assets" ∷ "services" ∷ "reviews" ∷ "finding_evidence"
    ∷ "finding_evidence_events" ∷ "decision_packs" ∷ "export_artifacts" ∷ "bayesian_assessments"
    ∷ "vendors" ∷ "vendor_advisories" ∷ "vendor_security_advisories" ∷ "threat_signals"
    ∷ "network_vendors" ∷ "network_product_families" ∷ "network_product_models"
    ∷ "network_firmware_versions" ∷ "customer_network_assets" ∷ "config_applicability_assessments"
    ∷ "vendorlens_patch_comparisons" ∷ "vendorlens_chat_sessions" ∷ "vendorlens_chat_messages"
    ∷ "agent_guidance_snapshots" ∷ "report_quality_reviews" ∷ "asset_collectors"
    ∷ "asset_discovery_policies" ∷ "asset_discovery_runs" ∷ "source_feed_runs"
    ∷ "automation_work_items" ∷ "automation_checkpoints" ∷ "automation_failures"
    ∷ "automation_dead_letters" ∷ "automation_leases" ∷ "automation_reconciliation_runs"
    ∷ "customers" ∷ "customer_estates" ∷ "customer_assets" ∷ "config_evidence" ∷ "exposure_matches"
    ∷ "patch_actions" ∷ "patch_compare_reports" ∷ "signed_action_packs" ∷ "workflow_items"
    ∷ "uat_cleanup_previews" ∷ "audit_events" ∷ []

-- PATCHFORGE_UAT_CLEANUP_COLLECTIONS
abbrev pub cleanup_collections : List String
cleanup_collections =
    keep (λ name. not (member name ("audit_events" ∷ "uat_cleanup_previews" ∷ []))) collections
