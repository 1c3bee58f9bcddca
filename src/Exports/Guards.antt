-- ===== src/Exports/Guards.antt =====
-- The guards of an export: `governanceManifestHash`, `assertSafeFileName` and `assertRuntimeBundle` of
-- backend-api/patchforge/exportArtifacts.js.
use diiac_patchforge.Prelude.{
  ℕ, Bool, true, false, not, ◌&&◌, ◌||◌, Option, none, some, String, List, [], ◌∷◌, str_eq, ◌==◌,
  leb, if◌then◌else◌, length, any, all, first_of,
}
use diiac_patchforge.Prelude.Texts.{codes, lower_string, utf16_length}
use diiac_patchforge.Exports.{
  Descriptor, Manifest, SignedPayload, SignatureMetadata, artifact_keyed, Bundle, Platform,
  has_content,
}

-- `recorded_hash` is the digest that the pack's verification manifest records, or empty; `made_hash`
-- that of the canonical JSON of its governance manifest.
pub record Pack : Type 0 where
  pub pack_id : String
  pub recorded_hash : String
  pub made_hash : String
  pub final_approval_issued : Bool

-- SHA256_PATTERN
abbrev is_sha256 : List ℕ → Bool
is_sha256 t =
    length t == 64 && all (λ c. (leb b'a' c && leb c b'f') || (leb b'0' c && leb c b'9')) t

unfoldable pub governance_manifest_hash : Pack → String
governance_manifest_hash p =
    if is_sha256 (codes (lower_string p.recorded_hash))
    then lower_string p.recorded_hash
    else p.made_hash

-- assertSafeFileName, as a test
unfoldable pub is_safe_file_name : String → Bool
is_safe_file_name name =
    has_content name
    && leb (utf16_length (codes name)) 180
    && not (str_eq name ".")
    && not (str_eq name "..")
    && not (any (λ c. c == b'/' || c == 92 || c == 0) (codes name))

unfoldable pub same_descriptors : List Descriptor → List Descriptor → Bool
same_descriptors [] [] = true
same_descriptors (d ∷ ds) (e ∷ es) =
    str_eq d.name e.name
    && str_eq d.media_type e.media_type
    && str_eq d.sha256 e.sha256
    && d.size_bytes == e.size_bytes
    && same_descriptors ds es
same_descriptors _ _ = false

abbrev same_flag : Bool → Bool → Bool
same_flag true b = b
same_flag false b = not b

abbrev binds_governance : String → Option SignedPayload → Bool
binds_governance hash none = false
binds_governance hash (some p) = str_eq p.governance_manifest_sha256 hash

abbrev binds_manifest : String → Option SignedPayload → Bool
binds_manifest hash none = false
binds_manifest hash (some p) = str_eq p.manifest_sha256 hash

module _ (platform : Platform) where
  -- the guards of assertRuntimeBundle behind the first one, with the code of the first that is met
  unfoldable pub bundle_guards :
      Bundle
      → Manifest
      → SignatureMetadata
      → String
      → String
      → Bool
      → List Descriptor
      → List (Bool × String)
  bundle_guards b m metadata pack_id hash approved expected =
      (
        not (str_eq m.pack_id pack_id)
            || not (str_eq m.governance_manifest_sha256 hash)
            || not (binds_governance hash metadata.signed_payload)
            || not (same_flag m.final_approval_issued approved),
        "export_manifest_scope_mismatch",
      )
      ∷ (not (same_descriptors m.artefacts expected), "export_manifest_descriptor_mismatch")
      ∷ (
        not (str_eq b.manifest_sha256 (platform.digest_manifest m))
            || not (binds_manifest (platform.digest_manifest m) metadata.signed_payload),
        "export_manifest_hash_mismatch",
      )
      ∷ []

  abbrev guard_parts :
      Bundle
      → Option Manifest
      → Option SignatureMetadata
      → String
      → String
      → Bool
      → List Descriptor
      → Option String
  guard_parts b (some m) (some metadata) pack_id hash approved expected =
      if b.verified && has_content b.signature
      then first_of (bundle_guards b m metadata pack_id hash approved expected)
      else some "export_manifest_signing_failed"
  guard_parts b _ _ pack_id hash approved expected = some "export_manifest_signing_failed"

  -- assertRuntimeBundle: the code of the error, if there is one. The descriptors expected are in the
  -- order of their names; there is one of them.
  unfoldable pub assert_runtime_bundle :
      Bundle → String → String → Bool → List Descriptor → Option String
  assert_runtime_bundle b pack_id hash approved expected =
      guard_parts b b.manifest b.signature_metadata pack_id hash approved expected
