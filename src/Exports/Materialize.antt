-- ===== src/Exports/Materialize.antt =====
-- `materializeSignedExportArtifact` and what it calls, of
-- backend-api/patchforge/exportArtifacts.js. The bundle that the runtime answers with is a parameter.
use Prim.Native.String.{◌++◌ as str_append}
use diiac_patchforge.Prelude.{
  ℕ, suc, Bool, true, ◌&&◌, Option, none, some, String, List, [], ◌∷◌, str_eq, if◌then◌else◌,
  length, find,
}
use diiac_patchforge.Prelude.Texts.{str_take, lower_string}
use diiac_patchforge.Store.{Stored, list_for, append_immutable}
use diiac_patchforge.Exports.{
  Bytes, Descriptor, SignatureMetadata, Artifact, artifact_keyed, Bundle, ManifestRequest, Platform,
}
use diiac_patchforge.Exports.Guards.{
  Pack, governance_manifest_hash, is_safe_file_name, assert_runtime_bundle,
}
use diiac_patchforge.Exports.Verify.{verify_stored_export_artifact}

pub record Export : Type 0 where
  pub tenant_id : String
  pub pack : Pack
  pub artifact_kind : String
  pub file_name : String
  pub content_type : String
  pub bytes : Bytes

-- `audits` counts the events "signed_export_artifact_materialized"; `requests` are the calls of
-- `runtimeClient.createExportManifest` so far, the latest first.
pub record ExportStore : Type 0 where
  pub artifacts : List Artifact
  pub audits : ℕ
  pub requests : List ManifestRequest

-- a record with its bytes, or the code of the error
pub data Materialized : Type 0 where
  verified : Artifact → Bytes → Materialized
  failed : String → Materialized

unfoldable pub find_stored_export_artifact :
    String → String → String → List Artifact → Option Artifact
find_stored_export_artifact tenant pack_id kind artifacts =
    find (λ a. str_eq a.pack_id pack_id && str_eq a.artifact_kind kind) (list_for tenant artifacts)

module _ (platform : Platform) where
  unfoldable pub artifact_descriptor : Export → Descriptor
  artifact_descriptor e = record {
    name = e.file_name;
    media_type = lower_string e.content_type;
    sha256 = platform.digest e.bytes;
    size_bytes = length e.bytes;
  }

  unfoldable pub artifact_id_of : String → String → String → String
  artifact_id_of tenant pack_id kind = str_append "PF-ARTIFACT-" (
      str_take 24 (
        platform.digest_text
          (str_append tenant (str_append "\0" (str_append pack_id (str_append "\0" kind))))))

  abbrev metadata_hash : Option SignatureMetadata → String
  metadata_hash none = ""
  metadata_hash (some m) = platform.digest_metadata m

  unfoldable pub new_artifact : Export → Bundle → Artifact
  new_artifact e b = record {
    tenant_id = e.tenant_id;
    artifact_id = artifact_id_of e.tenant_id e.pack.pack_id e.artifact_kind;
    artifact_kind = e.artifact_kind;
    pack_id = e.pack.pack_id;
    source_governance_manifest_sha256 = governance_manifest_hash e.pack;
    file_name = e.file_name;
    content_type = e.content_type;
    sha256 = platform.digest e.bytes;
    size_bytes = length e.bytes;
    content_base64 = platform.encode e.bytes;
    signed_manifest = b.manifest;
    signed_manifest_sha256 = b.manifest_sha256;
    signature = b.signature;
    signature_sha256 = platform.digest_text b.signature;
    signature_metadata = b.signature_metadata;
    signature_metadata_sha256 = metadata_hash b.signature_metadata;
    runtime_verified = b.verified;
    source_pack_immutable = true;
    immutable = true;
    final_approval_issued = e.pack.final_approval_issued;
  }

  abbrev pub given_failures : Artifact → Bytes → List String → Materialized
  given_failures a bytes [] = verified a bytes
  given_failures a bytes (_ ∷ _) = failed "export_artifact_integrity_failed"

  -- verifiedArtifact, which fails closed
  unfoldable pub verified_artifact : Artifact → Materialized
  verified_artifact a =
      given_failures a (platform.decode a.content_base64) (verify_stored_export_artifact platform a)

  abbrev audited : Bool → ℕ → ℕ
  audited created n = if created then suc n else n

  -- after `appendImmutable`; without an identifier it fails
  abbrev pub persisted :
      ExportStore → Option (Stored Artifact × List Artifact) → Materialized × ExportStore
  persisted s none = (failed "immutable_record_id_required", s)
  persisted s (some (kept, artifacts)) = (
    verified_artifact kept.stored,
    record s { artifacts = artifacts; audits = audited kept.created s.audits },
  )

  abbrev pub checked : Export → Bundle → ExportStore → Option String → Materialized × ExportStore
  checked e b s (some code) = (failed code, s)
  checked e b s none = persisted s (append_immutable (new_artifact e b) s.artifacts)

  -- the request to the runtime for the signed manifest
  unfoldable pub manifest_request : Export → ManifestRequest
  manifest_request e = record {
    tenant_id = e.tenant_id;
    pack_id = e.pack.pack_id;
    governance_manifest_sha256 = governance_manifest_hash e.pack;
    final_approval_issued = e.pack.final_approval_issued;
    artefacts = artifact_descriptor e ∷ [];
  }

  -- the store, once the runtime has been asked
  abbrev pub after_request : Export → ExportStore → ExportStore
  after_request e s = record s { requests = manifest_request e ∷ s.requests }

  abbrev pub signed : Export → Bundle → ExportStore → Materialized × ExportStore
  signed e b s = checked e b s (
      assert_runtime_bundle platform b e.pack.pack_id (governance_manifest_hash e.pack)
        e.pack.final_approval_issued (artifact_descriptor e ∷ []))

  abbrev pub unless_stored :
      (ManifestRequest → Bundle)
      → Export
      → ExportStore
      → Option Artifact
      → Materialized × ExportStore
  unless_stored runtime e s (some existing) = (verified_artifact existing, s)
  unless_stored runtime e s none =
      if is_safe_file_name e.file_name
      then signed e (runtime (manifest_request e)) (after_request e s)
      else (failed "unsafe_export_file_name", s)

  -- materializeSignedExportArtifact
  unfoldable pub materialize :
      (ManifestRequest → Bundle) → Export → ExportStore → Materialized × ExportStore
  materialize runtime e s =
      unless_stored runtime e s
        (find_stored_export_artifact e.tenant_id e.pack.pack_id e.artifact_kind s.artifacts)
