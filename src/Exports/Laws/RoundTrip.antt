-- ===== src/Exports/Laws/RoundTrip.antt =====
-- The bytes of a first export, and of the later ones (backend-api/patchforge/exportArtifacts.js).
use diiac_patchforge.Prelude.{
  ◌≡◌, sym, ◌∙◌, inl, inr, Option, none, some, String, str_eq, find, Bool-cases, if_both, ap,
}
use diiac_patchforge.Store.{has_key, append_immutable}
use diiac_patchforge.Exports.{Bytes, Artifact, artifact_keyed, Bundle, ManifestRequest, Platform}
use diiac_patchforge.Exports.Guards.{is_safe_file_name}
use diiac_patchforge.Exports.Materialize.{
  Export, ExportStore, Materialized, verified, verified_artifact, persisted, checked, signed,
  after_request, materialize, find_stored_export_artifact, new_artifact, artifact_id_of,
  manifest_request,
}
use diiac_patchforge.Exports.Laws.Again.{
  is_of, verified_inj, is_of-new_artifact, new_artifact-content, materialize_again,
}

module _ (platform : Platform) where
  -- a result that hands out a new record with its own bytes, or nothing
  abbrev IsNew : Export → Bundle → Artifact → Bytes → Materialized × ExportStore → Type 0
  IsNew e b a bytes (m, s) =
      m ≡ verified a bytes
      → (a ≡ new_artifact platform e b) × (bytes ≡ platform.decode (platform.encode e.bytes))

  appended-IsNew :
      (e : Export) (b : Bundle) (s : ExportStore) (a : Artifact) (bytes : Bytes)
      → find
          (has_key (new_artifact platform e b).tenant_id (new_artifact platform e b).artifact_id)
          s.artifacts
        ≡ none
      → IsNew e b a bytes
          (persisted platform s (append_immutable (new_artifact platform e b) s.artifacts))
  unfolding append_immutable
  appended-IsNew e b s a bytes fresh =
      elim (Bool-cases (str_eq (new_artifact platform e b).artifact_id "")) [
        | inl e ↦ rw e (λ h. cc)
        | inr named ↦ rw (named, fresh) (own_bytes e b a bytes)
      ]
    where
      own_bytes :
          (e : Export) (b : Bundle) (a : Artifact) (bytes : Bytes)
          → verified_artifact platform (new_artifact platform e b) ≡ verified a bytes
          → (a ≡ new_artifact platform e b) × (bytes ≡ platform.decode (platform.encode e.bytes))
      own_bytes e b a bytes h =
          let same = verified_inj platform (new_artifact platform e b) a bytes h in
          (sym same.0, sym same.1 ∙ ap platform.decode (new_artifact-content platform e b))

  checked-IsNew :
      (e : Export) (b : Bundle) (s : ExportStore) (code : Option String) (a : Artifact)
      (bytes : Bytes)
      → find
          (has_key (new_artifact platform e b).tenant_id (new_artifact platform e b).artifact_id)
          s.artifacts
        ≡ none
      → IsNew e b a bytes (checked platform e b s code)
  checked-IsNew e b s (some code) a bytes fresh = λ h. cc
  checked-IsNew e b s none a bytes fresh = appended-IsNew e b s a bytes fresh

  signed-IsNew :
      (e : Export) (b : Bundle) (s : ExportStore) (a : Artifact) (bytes : Bytes)
      → find
          (has_key e.tenant_id (artifact_id_of platform e.tenant_id e.pack.pack_id e.artifact_kind))
          s.artifacts
        ≡ none
      → IsNew e b a bytes (signed platform e b s)
  unfolding new_artifact
  signed-IsNew e b s a bytes fresh = checked-IsNew e b s _ a bytes fresh

  materialize-IsNew :
      (runtime : ManifestRequest → Bundle) (e : Export) (s : ExportStore) (a : Artifact)
      (bytes : Bytes)
      → find_stored_export_artifact e.tenant_id e.pack.pack_id e.artifact_kind s.artifacts ≡ none
      → find
          (has_key e.tenant_id (artifact_id_of platform e.tenant_id e.pack.pack_id e.artifact_kind))
          s.artifacts
        ≡ none
      → IsNew e (runtime (manifest_request platform e)) a bytes (materialize platform runtime e s)
  unfolding materialize
  materialize-IsNew runtime e s a bytes missing fresh = rw missing (
      if_both (IsNew e (runtime (manifest_request platform e)) a bytes)
        (is_safe_file_name e.file_name)
        (signed-IsNew e _ (after_request platform e s) a bytes fresh) (λ h. cc))

  -- The first export of a kind, where no record has its identifier, hands out the bytes that it was
  -- given, if base64 decodes what it encodes; and so does every later export of the pack and kind,
  -- whatever file it is given.
  pub materialize-round_trip :
      (runtime runtime' : ManifestRequest → Bundle) (e : Export) (s : ExportStore) (a : Artifact)
      (bytes : Bytes) (file content : String) (other : Bytes)
      → platform.decode (platform.encode e.bytes) ≡ e.bytes
      → find_stored_export_artifact e.tenant_id e.pack.pack_id e.artifact_kind s.artifacts ≡ none
      → find
          (has_key e.tenant_id (artifact_id_of platform e.tenant_id e.pack.pack_id e.artifact_kind))
          s.artifacts
        ≡ none
      → (materialize platform runtime e s).0 ≡ verified a bytes
      → (bytes ≡ e.bytes)
        × ((materialize platform runtime'
              (record e { file_name = file; content_type = content; bytes = other })
              (materialize platform runtime e s).1).0
            ≡ verified a e.bytes)
  materialize-round_trip runtime runtime' e s a bytes file content other codec missing fresh h =
      let new = materialize-IsNew runtime e s a bytes missing fresh h in
      let same_bytes = new.1 ∙ codec in
      (
        same_bytes,
        ap (λ p. p.0)
              (materialize_again platform runtime runtime' e s a bytes file content other h (
                ap (is_of e) new.0
                ∙ is_of-new_artifact platform e (runtime (manifest_request platform e))))
            ∙ ap (verified a) same_bytes,
      )
