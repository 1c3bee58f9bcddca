-- ===== src/Scenarios/Files.antt =====
-- A report of three bytes that is exported twice (backend-api/patchforge/exportArtifacts.js).
use diiac_patchforge.Prelude.{◌≡◌, refl, true, false, none, some, [], ◌∷◌}
use diiac_patchforge.Prelude.Texts.{lower_string, str_take}
use diiac_patchforge.Store.{list_for, append_immutable, has_key}
use diiac_patchforge.Exports.{Artifact, Bundle, ManifestRequest, Platform}
use diiac_patchforge.Exports.Verify.{
  verify_stored_export_artifact, artifact_checks, signed_descriptor, verify_production_signature,
}
use diiac_patchforge.Exports.Guards.{
  assert_runtime_bundle, bundle_guards, same_descriptors, governance_manifest_hash,
  is_safe_file_name,
}
use diiac_patchforge.Exports.Materialize.{
  Export, ExportStore, verified, materialize, verified_artifact, new_artifact, artifact_id_of,
  manifest_request, artifact_descriptor, find_stored_export_artifact,
}
use diiac_patchforge.Exports.Laws.{IsIntact, materialize-IsIntact}
use diiac_patchforge.Exports.Laws.Again.{materialize_again}
use diiac_patchforge.Exports.Laws.RoundTrip.{materialize-round_trip}

-- every digest and signature is a constant of its kind, and the only content is three bytes
abbrev plain_platform : Platform
plain_platform = record {
  digest = λ bytes. "file-digest";
  digest_text = λ s. "text-digest";
  digest_manifest = λ m. "manifest-digest";
  digest_metadata = λ m. "metadata-digest";
  encode = λ bytes. "AQID";
  decode = λ s. 1 ∷ 2 ∷ 3 ∷ [];
  hmac = λ p. "hmac";
  decode_url = λ s. [];
  encode_url = λ bytes. "";
  verify_es256 = λ k p s. false;
}

abbrev signing_runtime : ManifestRequest → Bundle
signing_runtime request = record {
  verified = true;
  signature = "hmac";
  manifest = some (record {
    manifest_id = "m1";
    pack_id = request.pack_id;
    governance_manifest_sha256 = request.governance_manifest_sha256;
    final_approval_issued = request.final_approval_issued;
    artefacts = request.artefacts;
  });
  manifest_sha256 = "manifest-digest";
  signature_metadata = some (record {
    algorithm = "dev_hmac_sha256";
    signature_encoding = "hex";
    public_jwk = none;
    signed_payload = some (record {
      manifest_sha256 = "manifest-digest";
      manifest_id = "m1";
      pack_id = request.pack_id;
      governance_manifest_sha256 = request.governance_manifest_sha256;
    });
  });
}

abbrev report_export : Export
report_export = record {
  tenant_id = "acme";
  pack = record {
    pack_id = "pack-1";
    recorded_hash = "";
    made_hash = "governance-digest";
    final_approval_issued = false;
  };
  artifact_kind = "pdf";
  file_name = "report.pdf";
  content_type = "application/pdf";
  bytes = 1 ∷ 2 ∷ 3 ∷ [];
}

abbrev no_exports : ExportStore
no_exports = record { artifacts = []; audits = 0; requests = [] }

abbrev report_artifact : Artifact
report_artifact =
    new_artifact plain_platform report_export
      (signing_runtime (manifest_request plain_platform report_export))

report_is_exported :
    (materialize plain_platform signing_runtime report_export no_exports).0
    ≡ verified report_artifact (1 ∷ 2 ∷ 3 ∷ [])
unfolding materialize verified_artifact new_artifact artifact_id_of manifest_request
    artifact_descriptor assert_runtime_bundle bundle_guards same_descriptors
    governance_manifest_hash is_safe_file_name find_stored_export_artifact
    verify_stored_export_artifact artifact_checks signed_descriptor verify_production_signature
    list_for append_immutable has_key lower_string str_take
report_is_exported = refl

materialize-IsIntact_example : IsIntact plain_platform report_artifact (1 ∷ 2 ∷ 3 ∷ [])
materialize-IsIntact_example =
    materialize-IsIntact plain_platform signing_runtime report_export no_exports report_artifact
      (1 ∷ 2 ∷ 3 ∷ []) report_is_exported

materialize_again_example :
    materialize plain_platform signing_runtime
      (record report_export {
        file_name = "other.pdf";
        content_type = "text/plain";
        bytes = 9 ∷ [];
      })
      (materialize plain_platform signing_runtime report_export no_exports).1
    ≡ (
      verified report_artifact (1 ∷ 2 ∷ 3 ∷ []),
      (materialize plain_platform signing_runtime report_export no_exports).1,
    )
unfolding new_artifact
materialize_again_example =
    materialize_again plain_platform signing_runtime signing_runtime report_export no_exports
      report_artifact (1 ∷ 2 ∷ 3 ∷ []) "other.pdf" "text/plain" (9 ∷ []) report_is_exported refl

materialize-round_trip_example :
    (1 ∷ 2 ∷ 3 ∷ [] ≡ report_export.bytes)
    × ((materialize plain_platform signing_runtime
          (record report_export {
            file_name = "other.pdf";
            content_type = "text/plain";
            bytes = 9 ∷ [];
          })
          (materialize plain_platform signing_runtime report_export no_exports).1).0
        ≡ verified report_artifact report_export.bytes)
unfolding find_stored_export_artifact list_for
materialize-round_trip_example =
    materialize-round_trip plain_platform signing_runtime signing_runtime report_export no_exports
      report_artifact (1 ∷ 2 ∷ 3 ∷ []) "other.pdf" "text/plain" (9 ∷ []) refl refl refl
      report_is_exported
