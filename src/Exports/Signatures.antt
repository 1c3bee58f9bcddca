-- ===== src/Exports/Signatures.antt =====
-- What a signature is that is not refused (backend-api/patchforge/exportArtifacts.js).
use diiac_patchforge.Prelude.{
  ◌≡◌, ◌≢◌, refl, ap, ◌⊎◌, inl, inr, Bool, true, false, not, Option, none, some, String, arith,
  str_eq, eq_iff, Bool-cases,
}
use diiac_patchforge.Exports.{
  Bytes, artifact_keyed, Platform, SignatureMetadata, SignedPayload, PublicJwk,
}
use diiac_patchforge.Exports.Verify.{
  verify_production_signature, is_refused, normalize_jwk, decode_canonical, verify_with,
}

pub not-true : (b : Bool) → not b ≡ false → b ≡ true
not-true true h = refl
not-true false h = cc

-- A signature of 64 bytes verifies for the payload under the P-256 key of the metadata.
abbrev pub HasEs256 : Platform → SignatureMetadata → String → Type 0
HasEs256 platform m signature =
    (key : PublicJwk) × (b : Bytes) × (normalize_jwk platform m.public_jwk ≡ some key)
    × (decode_canonical platform signature 64 ≡ some b)
    × (platform.verify_es256 key m.signed_payload b ≡ true)

-- What a signature is by the algorithm that its metadata names; another algorithm is not checked.
abbrev pub IsSignedBy : Platform → SignatureMetadata → String → Type 0
IsSignedBy platform m signature =
    ((m.algorithm ≡ "dev_hmac_sha256") × (platform.hmac m.signed_payload ≡ signature))
    ⊎ ((m.algorithm ≡ "ES256") × HasEs256 platform m signature)
    ⊎ ((m.algorithm ≢ "dev_hmac_sha256") × (m.algorithm ≢ "ES256"))

equal : (s t : String) → str_eq s t ≡ true → s ≡ t
equal s t h = ground (arith, eq_iff s t)

unequal : (s t : String) → str_eq s t ≡ false → s ≢ t
unequal s t h e = ground (arith, eq_iff s t)

module _ (platform : Platform) where
  hmac-valid :
      (signature : String) (m : SignatureMetadata)
      → is_refused platform (verify_production_signature platform signature (some m)) ≡ false
      → m.algorithm ≡ "dev_hmac_sha256"
      → platform.hmac m.signed_payload ≡ signature
  unfolding verify_production_signature
  hmac-valid signature m h k =
      let hmac : str_eq m.algorithm "dev_hmac_sha256" ≡ true =
        ground (arith, eq_iff m.algorithm "dev_hmac_sha256", k) in
      let h' = rw hmac at h in ground (arith, eq_iff (platform.hmac m.signed_payload) signature, h')

  verify_with-true :
      (k : Option PublicJwk) (payload : Option SignedPayload) (bytes : Option Bytes)
      → not (verify_with platform k payload bytes) ≡ false
      → (key : PublicJwk) × (b : Bytes) × (k ≡ some key)
        × (bytes ≡ some b)
        × (platform.verify_es256 key payload b ≡ true)
  verify_with-true none payload bytes h = cc
  verify_with-true (some k) payload none h = cc
  verify_with-true (some k) payload (some b) h = (k, b, refl, refl, not-true _ h)

  es256-valid :
      (signature : String) (m : SignatureMetadata)
      → is_refused platform (verify_production_signature platform signature (some m)) ≡ false
      → m.algorithm ≡ "ES256"
      → HasEs256 platform m signature
  unfolding verify_production_signature
  es256-valid signature m h k =
      let other : str_eq m.algorithm "dev_hmac_sha256" ≡ false =
        ap (λ s. str_eq s "dev_hmac_sha256") k in
      let es256 : str_eq m.algorithm "ES256" ≡ true = ap (λ s. str_eq s "ES256") k in
      let h' = rw (other, es256) at h in
      elim (Bool-cases (str_eq m.signature_encoding "base64url_raw_ecdsa")) [
        | inr e ↦ let h'' = rw e at h' in cc
        | inl e ↦
            verify_with-true (normalize_jwk platform m.public_jwk) m.signed_payload
              (decode_canonical platform signature 64) (rw e at h')
      ]

  pub signed_by :
      (signature : String) (m : SignatureMetadata)
      → is_refused platform (verify_production_signature platform signature (some m)) ≡ false
      → IsSignedBy platform m signature
  signed_by signature m h = elim (Bool-cases (str_eq m.algorithm "dev_hmac_sha256")) [
    | inl e ↦
        let hmac : m.algorithm ≡ "dev_hmac_sha256" = equal m.algorithm "dev_hmac_sha256" e in
        inl (hmac, hmac-valid signature m h hmac)
    | inr e ↦ elim (Bool-cases (str_eq m.algorithm "ES256")) [
      | inl k ↦
          let es256 : m.algorithm ≡ "ES256" = equal m.algorithm "ES256" k in
          inr (inl (es256, es256-valid signature m h es256))
      | inr k ↦ inr (inr (unequal m.algorithm "dev_hmac_sha256" e, unequal m.algorithm "ES256" k))
    ]
  ]
