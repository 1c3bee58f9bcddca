-- ===== src/Scenarios/Cleanups.antt =====
-- A store with the records of one acceptance test (backend-api/patchforge/storage.js).
use diiac_patchforge.Prelude.{◌≡◌, refl, false, some, String, [], ◌∷◌, str_eq, if◌then◌else◌}
use diiac_patchforge.Cleanup.{Rec, text, other, items, none_left, next, pending, Preview, Files}
use diiac_patchforge.Cleanup.Plan.{
  CleanupOptions, CleanupPlan, plan_of, plan_error, ids_of, option_error, is_uat_identifier,
  selected_ids, value_references, some_references,
}
use diiac_patchforge.Cleanup.Execute.{
  preview_keyed, Fresh, done, is_token, retained, remove, is_preview, consume, preview_error,
  perform, find_preview, cleanup_uat_records,
}
use diiac_patchforge.Cleanup.Purge.{PurgeOptions, purge}
use diiac_patchforge.Cleanup.Laws.Exactly.{Leaves, cleanup_uat_records-Leaves}
use diiac_patchforge.Cleanup.Laws.Once.{IsAuthorized, cleanup_uat_records-IsAuthorized}
use diiac_patchforge.Cleanup.Laws.Tokens.{IsRefused, cleanup_uat_records_once}
use diiac_patchforge.Cleanup.PgPurge.{pg_purge}
use diiac_patchforge.Cleanup.Laws.Backends.{purge-eq-pg_purge}
use diiac_patchforge.Cleanup.Laws.Purges.{of_tenant, of_tenant-purge}
use diiac_patchforge.Store.{list_for, replace}

abbrev test_review : Rec
test_review = record {
  tenant_id = "acme";
  record_id = "review-1";
  fields = next (items (next other (next (text "UAT-PF-1") none_left))) none_left;
}

abbrev real_review : Rec
real_review = record {
  tenant_id = "acme";
  record_id = "review-2";
  fields = next (text "CVE-2024-1") none_left;
}

abbrev foreign_review : Rec
foreign_review = record test_review { tenant_id = "globex" }

abbrev token : String
token = "0f8fad5b-d9cb-469f-a165-70867728950e"

abbrev plain_hash : String → String
plain_hash s = "h"

abbrev plain_digest : CleanupPlan → String
plain_digest plan = "d"

abbrev issued_preview : Preview
issued_preview = record {
  tenant_id = "acme";
  preview_id = "preview-1";
  identifier = "UAT-PF-1";
  preview_token_sha256 = "h";
  preview_digest = "d";
  status = pending;
  expires_at = 1000;
}

abbrev test_files : Files
test_files = record {
  records =
      λ name. if str_eq name "reviews" then test_review ∷ real_review ∷ foreign_review ∷ [] else [];
  previews = issued_preview ∷ [];
}

abbrev cleanup_options : CleanupOptions
cleanup_options = record {
  keys = "identifier" ∷ "dryRun" ∷ "confirm" ∷ "previewToken" ∷ [];
  identifier = "UAT-PF-1";
  dry_run = false;
  confirm = "UAT-PF-1";
  preview_token = token;
}

abbrev fresh : Fresh
fresh = record { token = "new-token"; audit_id = "audit-1" }

removes_one :
    (cleanup_uat_records plain_hash plain_digest "acme" cleanup_options fresh 500 test_files).0
    ≡ done (plan_of "acme" cleanup_options test_files) issued_preview 1
unfolding cleanup_uat_records plan_of plan_error ids_of option_error is_uat_identifier selected_ids
    value_references some_references is_token retained remove is_preview consume preview_error
    perform find_preview list_for replace
removes_one = refl

cleanup_uat_records-Leaves_example :
    Leaves "acme" "UAT-PF-1" fresh test_files
      (cleanup_uat_records plain_hash plain_digest "acme" cleanup_options fresh 500 test_files)
cleanup_uat_records-Leaves_example =
    cleanup_uat_records-Leaves plain_hash plain_digest "acme" cleanup_options fresh test_files 500

cleanup_uat_records-IsAuthorized_example :
    IsAuthorized plain_hash plain_digest "acme" cleanup_options 500 test_files
      (cleanup_uat_records plain_hash plain_digest "acme" cleanup_options fresh 500 test_files).1
      issued_preview
cleanup_uat_records-IsAuthorized_example =
    cleanup_uat_records-IsAuthorized plain_hash plain_digest "acme" cleanup_options fresh 500
      test_files (plan_of "acme" cleanup_options test_files) issued_preview 1 removes_one

cleanup_uat_records_once_example :
    IsRefused
      (cleanup_uat_records plain_hash plain_digest "acme" cleanup_options fresh 500 test_files).1
      (cleanup_uat_records plain_hash plain_digest "acme" cleanup_options fresh 600
        (cleanup_uat_records plain_hash plain_digest "acme" cleanup_options fresh 500 test_files).1)
cleanup_uat_records_once_example =
    cleanup_uat_records_once plain_hash plain_digest "acme" cleanup_options fresh fresh 500 600
      test_files (plan_of "acme" cleanup_options test_files) issued_preview 1 removes_one

abbrev purge_options : PurgeOptions
purge_options = record {
  all_scopes = false;
  scopes = some ("Reports" ∷ " logs " ∷ []);
  flags = [];
  dry_run = false;
  confirm = "FACTORY_RESET_PATCHFORGE";
}

of_tenant-purge_example :
    of_tenant "globex" ((purge "acme" purge_options "audit-2" test_files).1.records "audit_events")
    ≡ of_tenant "globex" (test_files.records "audit_events")
of_tenant-purge_example =
    of_tenant-purge "acme" "globex" refl purge_options "audit-2" test_files "audit_events"

purge-eq-pg_purge_example :
    purge "acme" purge_options "audit-2" test_files
    ≡ pg_purge "acme" purge_options "audit-2" test_files
purge-eq-pg_purge_example = purge-eq-pg_purge "acme" purge_options "audit-2" test_files
