-- ===== src/Exports.antt =====
-- Signed export artifacts (backend-api/patchforge/exportArtifacts.js): the records, what the runtime
-- signs, and what the file takes from elsewhere. Bytes are numbers; a text that is absent is empty.
pub mod Verify
pub mod Guards
pub mod Materialize
pub mod Signatures
pub mod Laws
use diiac_patchforge.Prelude.{
  ℕ, zero, suc, ◌+◌, ◌*◌, Bool, true, false, not, ◌&&◌, ◌||◌, Option, none, some, String, List, [],
  ◌∷◌, str_eq, ◌==◌, leb, ltb, any, if◌then◌else◌,
}
use diiac_patchforge.Prelude.Texts.{codes, text_eq}
use diiac_patchforge.Store.{Keyed}

abbrev pub Bytes : Type 0
Bytes = List ℕ

pub record Descriptor : Type 0 where
  pub name : String
  pub media_type : String
  pub sha256 : String
  pub size_bytes : ℕ

pub record Manifest : Type 0 where
  pub manifest_id : String
  pub pack_id : String
  pub governance_manifest_sha256 : String
  pub final_approval_issued : Bool
  pub artefacts : List Descriptor

pub record SignedPayload : Type 0 where
  pub manifest_sha256 : String
  pub manifest_id : String
  pub pack_id : String
  pub governance_manifest_sha256 : String

-- public_jwk
pub record PublicJwk : Type 0 where
  pub kty : String
  pub crv : String
  pub x : String
  pub y : String

pub record SignatureMetadata : Type 0 where
  pub algorithm : String
  pub signature_encoding : String
  pub public_jwk : Option PublicJwk
  pub signed_payload : Option SignedPayload

-- a record of the collection "export_artifacts"; the time of creation is left out
pub record Artifact : Type 0 where
  pub tenant_id : String
  pub artifact_id : String
  pub artifact_kind : String
  pub pack_id : String
  pub source_governance_manifest_sha256 : String
  pub file_name : String
  pub content_type : String
  pub sha256 : String
  pub size_bytes : ℕ
  pub content_base64 : String
  pub signed_manifest : Option Manifest
  pub signed_manifest_sha256 : String
  pub signature : String
  pub signature_sha256 : String
  pub signature_metadata : Option SignatureMetadata
  pub signature_metadata_sha256 : String
  pub runtime_verified : Bool
  pub source_pack_immutable : Bool
  pub immutable : Bool
  pub final_approval_issued : Bool

instance abbrev pub artifact_keyed : Keyed Artifact
artifact_keyed = record { tenant_of = λ a. a.tenant_id; id_of = λ a. a.artifact_id }

-- What the runtime answers to a request for a signed manifest.
pub record Bundle : Type 0 where
  pub verified : Bool
  pub signature : String
  pub manifest : Option Manifest
  pub manifest_sha256 : String
  pub signature_metadata : Option SignatureMetadata

-- createExportManifest, without the time
pub record ManifestRequest : Type 0 where
  pub tenant_id : String
  pub pack_id : String
  pub governance_manifest_sha256 : String
  pub final_approval_issued : Bool
  pub artefacts : List Descriptor

-- What the file takes from the platform: digests of bytes and texts, and of the canonical JSON of a
-- manifest and of signature metadata; base64; the HMAC of the development key; ES256. `decode_url` is
-- base64url, with the text that its result encodes to.
pub record Platform : Type 0 where
  pub digest : Bytes → String
  pub digest_text : String → String
  pub digest_manifest : Manifest → String
  pub digest_metadata : SignatureMetadata → String
  pub encode : Bytes → String
  pub decode : String → Bytes
  pub hmac : Option SignedPayload → String
  pub decode_url : String → Bytes
  pub encode_url : Bytes → String
  pub verify_es256 : PublicJwk → Option SignedPayload → Bytes → Bool

abbrev pub has_content : String → Bool
has_content s = not (str_eq s "")
