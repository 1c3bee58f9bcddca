-- ===== src/Exports/Verify.antt =====
-- `verifyStoredExportArtifact`, `verifyProductionSignature` and what they call, of
-- backend-api/patchforge/exportArtifacts.js.
use diiac_patchforge.Prelude.{
  ℕ, Bool, false, not, ◌&&◌, ◌||◌, Option, none, some, String, List, [], ◌∷◌, str_eq, ◌==◌, leb,
  if◌then◌else◌, length, find, all, is_some,
}
use diiac_patchforge.Prelude.Texts.{codes, member}
use diiac_patchforge.Exports.{
  Bytes, Descriptor, Manifest, SignedPayload, PublicJwk, SignatureMetadata, Artifact, Platform,
  has_content,
}

-- the failures of the checks that hold, in order
abbrev pub failures_of : List (Bool × String) → List String
failures_of [] = []
failures_of ((found, failure) ∷ checks) =
    let rest = failures_of checks in if found then failure ∷ rest else rest

-- A descriptor of the signed manifest that has the file's name.
unfoldable pub signed_descriptor : Artifact → Option Manifest → Option Descriptor
signed_descriptor a none = none
signed_descriptor a (some m) = find (λ d. str_eq d.name a.file_name) m.artefacts

abbrev pub is_described : Artifact → Option Descriptor → Bool
is_described a none = false
is_described a (some d) =
    str_eq d.sha256 a.sha256 && d.size_bytes == a.size_bytes && str_eq d.media_type a.content_type

abbrev payload_of : Option SignatureMetadata → Option SignedPayload
payload_of none = none
payload_of (some m) = m.signed_payload

-- the payload that was signed, the manifest and the record agree
abbrev pub is_bound : Artifact → String → Option SignedPayload → Manifest → Bool
is_bound a hash none m = false
is_bound a hash (some p) m =
    str_eq p.manifest_sha256 hash
    && str_eq p.manifest_id m.manifest_id
    && str_eq p.pack_id a.pack_id
    && str_eq p.governance_manifest_sha256 m.governance_manifest_sha256
    && str_eq m.governance_manifest_sha256 a.source_governance_manifest_sha256

-- `/^[A-Za-z0-9_-]+$/`
abbrev is_url_code : ℕ → Bool
is_url_code c =
    (leb b'A' c && leb c b'Z')
    || (leb b'a' c && leb c b'z')
    || (leb b'0' c && leb c b'9')
    || c == b'_'
    || c == b'-'

module _ (platform : Platform) where
  -- decodeCanonicalBase64Url; `none` is the error
  unfoldable pub decode_canonical : String → ℕ → Option Bytes
  decode_canonical value expected =
      if has_content value
        && all is_url_code (codes value)
        && length (platform.decode_url value) == expected
        && str_eq (platform.encode_url (platform.decode_url value)) value
      then some (platform.decode_url value)
      else none

  -- normalizeEs256PublicJwk
  unfoldable pub normalize_jwk : Option PublicJwk → Option PublicJwk
  normalize_jwk none = none
  normalize_jwk (some k) =
      if member k.kty ("EC" ∷ "KeyType.ec" ∷ "KeyType.ec_hsm" ∷ [])
        && member k.crv ("P-256" ∷ "KeyCurveName.p_256" ∷ [])
        && is_some (decode_canonical k.x 32)
        && is_some (decode_canonical k.y 32)
      then some (record k { kty = "EC"; crv = "P-256" })
      else none

  abbrev pub verify_with : Option PublicJwk → Option SignedPayload → Option Bytes → Bool
  verify_with none payload signature = false
  verify_with (some k) payload none = false
  verify_with (some k) payload (some signature) = platform.verify_es256 k payload signature

  -- verifyProductionSignature; `none` is `null`, an algorithm that is not checked here
  unfoldable pub verify_production_signature : String → Option SignatureMetadata → Option Bool
  verify_production_signature signature none = none
  verify_production_signature signature (some m) =
      if str_eq m.algorithm "dev_hmac_sha256"
      then some (str_eq (platform.hmac m.signed_payload) signature)
      else if not (str_eq m.algorithm "ES256")
      then none
      else if not (str_eq m.signature_encoding "base64url_raw_ecdsa")
      then some false
      else some (
          verify_with (normalize_jwk m.public_jwk) m.signed_payload (decode_canonical signature 64))

  abbrev pub is_refused : Option Bool → Bool
  is_refused none = false
  is_refused (some valid) = not valid

  abbrev pub is_manifest_hash : Artifact → Option Manifest → Bool
  is_manifest_hash a none = false
  is_manifest_hash a (some m) = str_eq (platform.digest_manifest m) a.signed_manifest_sha256

  abbrev pub is_payload_bound : Artifact → Option Manifest → Bool
  is_payload_bound a none = false
  is_payload_bound a (some m) =
      is_bound a (platform.digest_manifest m) (payload_of a.signature_metadata) m

  abbrev pub is_metadata_hash : Artifact → Option SignatureMetadata → Bool
  is_metadata_hash a none = false
  is_metadata_hash a (some m) = str_eq (platform.digest_metadata m) a.signature_metadata_sha256

  unfoldable pub artifact_checks : Artifact → List (Bool × String)
  artifact_checks a =
      let bytes = platform.decode a.content_base64 in
      (not (str_eq (platform.digest bytes) a.sha256), "artifact_sha256_mismatch")
      ∷ (not (length bytes == a.size_bytes), "artifact_size_mismatch")
      ∷ (not (is_described a (signed_descriptor a a.signed_manifest)), "signed_descriptor_mismatch")
      ∷ (not (is_manifest_hash a a.signed_manifest), "signed_manifest_hash_mismatch")
      ∷ (not (is_payload_bound a a.signed_manifest), "signature_payload_mismatch")
      ∷ (
        not (has_content a.signature)
            || not (str_eq (platform.digest_text a.signature) a.signature_sha256),
        "signature_integrity_mismatch",
      )
      ∷ (not (is_metadata_hash a a.signature_metadata), "signature_metadata_integrity_mismatch")
      ∷ (
        is_refused (verify_production_signature a.signature a.signature_metadata),
        "signature_cryptographic_verification_failed",
      )
      ∷ (not a.runtime_verified, "runtime_signature_not_verified")
      ∷ (not a.immutable || not a.source_pack_immutable, "immutability_marker_missing")
      ∷ []

  -- verifyStoredExportArtifact: its failures
  unfoldable pub verify_stored_export_artifact : Artifact → List String
  verify_stored_export_artifact a = failures_of (artifact_checks a)
