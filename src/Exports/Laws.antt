-- ===== src/Exports/Laws.antt =====
-- What an export hands out (backend-api/patchforge/exportArtifacts.js).
pub mod Again
pub mod RoundTrip
use diiac_patchforge.Prelude.{
  ℕ, ◌≡◌, ◌≢◌, refl, sym, ap, ◌∙◌, ◌⊎◌, inl, inr, Bool, true, false, not, ◌&&◌, ◌||◌, Option, none,
  some, String, List, [], ◌∷◌, arith, str_eq, eq_iff, ◌==◌, ==_iff, length, All, Bool-cases,
  Option-cases, if_both, if◌then◌else◌,
}
use diiac_patchforge.Store.{Stored, append_immutable}
use diiac_patchforge.Exports.{
  Bytes, Artifact, artifact_keyed, Bundle, ManifestRequest, Platform, SignatureMetadata,
  SignedPayload, PublicJwk, has_content,
}
use diiac_patchforge.Exports.Verify.{
  failures_of, artifact_checks, verify_stored_export_artifact, verify_production_signature,
  is_described, signed_descriptor, is_manifest_hash, is_payload_bound, is_refused, is_metadata_hash,
  normalize_jwk, decode_canonical, verify_with,
}
use diiac_patchforge.Exports.Guards.{is_safe_file_name}
use diiac_patchforge.Exports.Materialize.{
  Export, ExportStore, Materialized, verified, failed, verified_artifact, given_failures, persisted,
  checked, signed, after_request, unless_stored, materialize, find_stored_export_artifact,
}
use diiac_patchforge.Exports.Signatures.{not-true, IsSignedBy, signed_by}

failures_of-nil : (cs : List (Bool × String)) → failures_of cs ≡ [] → All (λ c. c.0 ≡ false) cs
failures_of-nil [] h = tt
failures_of-nil ((true, s) ∷ cs) h = cc
failures_of-nil ((false, s) ∷ cs) h = (refl, failures_of-nil cs h)

eq_of-str_eq : (s t : String) → not (str_eq s t) ≡ false → s ≡ t
eq_of-str_eq s t h = ground (arith, eq_iff s t)

eq_of-test : (m n : ℕ) → not (m == n) ≡ false → m ≡ n
eq_of-test m n h = ground arith

-- What a verified record is, with its bytes.
pub record IsIntact (platform : Platform) (a : Artifact) (bytes : Bytes) : Type 0 where
  pub digest_matches : platform.digest bytes ≡ a.sha256
  pub size_matches : length bytes ≡ a.size_bytes
  pub described : is_described a (signed_descriptor a a.signed_manifest) ≡ true
  pub manifest_signed : is_manifest_hash platform a a.signed_manifest ≡ true
  pub payload_bound : is_payload_bound platform a a.signed_manifest ≡ true
  pub has_signature : a.signature ≢ ""
  pub signature_matches : platform.digest_text a.signature ≡ a.signature_sha256
  pub metadata_matches :
      (m : SignatureMetadata) × (a.signature_metadata ≡ some m)
      × (platform.digest_metadata m ≡ a.signature_metadata_sha256)
      × IsSignedBy platform m a.signature
  pub runtime_verified : a.runtime_verified ≡ true
  pub unchanged : (not a.immutable || not a.source_pack_immutable) ≡ false

signature_parts :
    (signature s t : String)
    → (not (has_content signature) || not (str_eq s t)) ≡ false
    → (signature ≢ "") × (s ≡ t)
signature_parts signature s t h =
    (λ e. ground (arith, eq_iff signature "", h, e), ground (arith, eq_iff s t, h))

module _ (platform : Platform) where
  metadata_signed :
      (a : Artifact) (found : Option SignatureMetadata)
      → a.signature_metadata ≡ found
      → is_metadata_hash platform a found ≡ true
      → is_refused platform (verify_production_signature platform a.signature found) ≡ false
      → (m : SignatureMetadata) × (a.signature_metadata ≡ some m)
        × (platform.digest_metadata m ≡ a.signature_metadata_sha256)
        × IsSignedBy platform m a.signature
  metadata_signed a none e h c = cc
  metadata_signed a (some m) e h c = (
    m,
    e,
    ground (arith, eq_iff (platform.digest_metadata m) a.signature_metadata_sha256, h),
    signed_by platform a.signature m c,
  )

  verify-IsIntact :
      (a : Artifact)
      → verify_stored_export_artifact platform a ≡ []
      → IsIntact platform a (platform.decode a.content_base64)
  unfolding verify_stored_export_artifact artifact_checks
  verify-IsIntact a h =
      let (d, (s, (f, (m, (p, (g, (k, (c, (r, (i, _)))))))))) =
        failures_of-nil (artifact_checks platform a) h in
      record {
        digest_matches = eq_of-str_eq _ _ d;
        size_matches = eq_of-test _ _ s;
        described = not-true _ f;
        manifest_signed = not-true _ m;
        payload_bound = not-true _ p;
        has_signature = (signature_parts a.signature _ a.signature_sha256 g).0;
        signature_matches = (signature_parts a.signature _ a.signature_sha256 g).1;
        metadata_matches = metadata_signed a a.signature_metadata refl (not-true _ k) c;
        runtime_verified = not-true _ r;
        unchanged = i;
      }

  -- whether a result, if it hands out a record, hands out an intact one
  abbrev HandsOutIntact : Materialized → Type 0
  HandsOutIntact (verified a bytes) = IsIntact platform a bytes
  HandsOutIntact (failed code) = Unit

  verified_artifact-IsIntact : (a : Artifact) → HandsOutIntact (verified_artifact platform a)
  unfolding verified_artifact
  verified_artifact-IsIntact a = checked_list (verify_stored_export_artifact platform a) refl
    where
      checked_list :
          (fs : List String)
          → verify_stored_export_artifact platform a ≡ fs
          → HandsOutIntact (given_failures platform a (platform.decode a.content_base64) fs)
      checked_list [] e = verify-IsIntact a e
      checked_list (f ∷ fs) e = tt

  persisted-IsIntact :
      (s : ExportStore) (o : Option (Stored Artifact × List Artifact))
      → HandsOutIntact (persisted platform s o).0
  persisted-IsIntact s none = tt
  persisted-IsIntact s (some (kept, artifacts)) = verified_artifact-IsIntact kept.stored

  checked-IsIntact :
      (e : Export) (b : Bundle) (s : ExportStore) (code : Option String)
      → HandsOutIntact (checked platform e b s code).0
  checked-IsIntact e b s (some code) = tt
  checked-IsIntact e b s none = persisted-IsIntact s _

  unless_stored-IsIntact :
      (runtime : ManifestRequest → Bundle) (e : Export) (s : ExportStore) (found : Option Artifact)
      → HandsOutIntact (unless_stored platform runtime e s found).0
  unless_stored-IsIntact runtime e s (some existing) = verified_artifact-IsIntact existing
  unless_stored-IsIntact runtime e s none =
      if_both (λ (p : Materialized × ExportStore). HandsOutIntact p.0)
        (is_safe_file_name e.file_name) (checked-IsIntact e _ (after_request platform e s) _) tt

  verified-IsIntact :
      (m : Materialized) (a : Artifact) (bytes : Bytes)
      → HandsOutIntact m
      → m ≡ verified a bytes
      → IsIntact platform a bytes
  verified-IsIntact m a bytes h e = rw e at h

  -- Whatever the runtime answers and whatever is stored, an export that hands out a record hands out an
  -- intact one: its bytes have the digest and the size of the record, the signed manifest describes
  -- them and hashes to what was signed for the pack, its signature and the signature's metadata are there
  -- and have the recorded digests, the runtime had verified it, and it carries both marks of immutability. A
  -- signature by `dev_hmac_sha256` is the HMAC of the signed payload, and one by `ES256` is of 64 bytes and
  -- verifies for the payload under the key of the metadata; another algorithm is not checked here.
  pub materialize-IsIntact :
      (runtime : ManifestRequest → Bundle) (e : Export) (s : ExportStore) (a : Artifact)
      (bytes : Bytes)
      → (materialize platform runtime e s).0 ≡ verified a bytes
      → IsIntact platform a bytes
  unfolding materialize
  materialize-IsIntact runtime e s a bytes h =
      verified-IsIntact _ a bytes (unless_stored-IsIntact runtime e s _) h
