-- ===== src/Exports/Laws/Again.antt =====
-- A later export of the same pack and kind (backend-api/patchforge/exportArtifacts.js).
use diiac_patchforge.Prelude.{
  ◌≡◌, ◌≢◌, refl, sym, ◌∙◌, inl, inr, Bool, true, ◌&&◌, Option, none, some, String, List, [], ◌∷◌,
  ◌++◌, arith, str_eq, eq_iff, find, Bool-cases, Option-cases, if_both, some_inj, ap, if◌then◌else◌,
}
use diiac_patchforge.Store.{list_for, has_key, append_immutable}
use diiac_patchforge.Store.Immutable.{find-concat_fresh}
use diiac_patchforge.Exports.{Bytes, Artifact, artifact_keyed, Bundle, ManifestRequest, Platform}
use diiac_patchforge.Exports.Guards.{is_safe_file_name}
use diiac_patchforge.Exports.Materialize.{
  Export, ExportStore, Materialized, verified, verified_artifact, given_failures, persisted,
  checked, after_request, unless_stored, materialize, find_stored_export_artifact, new_artifact,
}

-- A record is that of a pack and a kind.
abbrev pub is_of : Export → Artifact → Bool
is_of e a = str_eq a.pack_id e.pack.pack_id && str_eq a.artifact_kind e.artifact_kind

found_in_tenant :
    (e : Export) (id : String) (xs : List Artifact) (b : Artifact)
    → find (has_key e.tenant_id id) xs ≡ some b
    → is_of e b ≡ true
    → find (is_of e) (list_for e.tenant_id xs) ≢ none
unfolding has_key list_for
found_in_tenant e id [] b h k n = cc
found_in_tenant e id (x ∷ xs) b h k n = elim (Bool-cases (str_eq x.tenant_id e.tenant_id)) [
  | inr other ↦ found_in_tenant e id xs b (rw other at h) k (rw other at n)
  | inl own ↦ elim (Bool-cases (is_of e x)) [
    | inl found ↦ let n' = rw (own, found) at n in cc
    | inr missed ↦ elim (Bool-cases (str_eq x.artifact_id id)) [
      | inl same ↦
          let x_is_b : some x ≡ some b = rw (own, same) at h in
          let is_b = sym missed ∙ ap (is_of e) (some_inj x_is_b) ∙ k in cc
      | inr differs ↦ found_in_tenant e id xs b (rw (own, differs) at h) k (rw (own, missed) at n)
    ]
  ]
]

list_for-concat :
    (t : String) (a : Artifact) (xs : List Artifact)
    → str_eq a.tenant_id t ≡ true
    → list_for t (xs ++ a ∷ []) ≡ list_for t xs ++ a ∷ []
unfolding list_for
list_for-concat t a [] h = rw h refl
list_for-concat t a (x ∷ xs) h = ground (arith, list_for-concat t a xs h)

module _ (platform : Platform) where
  given_failures_inj :
      (x a : Artifact) (bs bytes : Bytes) (fs : List String)
      → given_failures platform x bs fs ≡ verified a bytes
      → (x ≡ a) × (bs ≡ bytes)
  given_failures_inj x a bs bytes [] h = (cc, cc)
  given_failures_inj x a bs bytes (f ∷ fs) h = cc

  pub verified_inj :
      (x a : Artifact) (bytes : Bytes)
      → verified_artifact platform x ≡ verified a bytes
      → (x ≡ a) × (platform.decode x.content_base64 ≡ bytes)
  unfolding verified_artifact
  verified_inj x a bytes h = given_failures_inj x a _ bytes _ h

  -- a new record, found by its pack and kind
  pub is_of-new_artifact : (e : Export) (b : Bundle) → is_of e (new_artifact platform e b) ≡ true
  unfolding new_artifact
  is_of-new_artifact e b =
      ground (arith, eq_iff e.pack.pack_id e.pack.pack_id, eq_iff e.artifact_kind e.artifact_kind)

  new_artifact-tenant :
      (e : Export) (b : Bundle) → (new_artifact platform e b).tenant_id ≡ e.tenant_id
  unfolding new_artifact
  new_artifact-tenant e b = refl

  pub new_artifact-content :
      (e : Export) (b : Bundle)
      → (new_artifact platform e b).content_base64 ≡ platform.encode e.bytes
  unfolding new_artifact
  new_artifact-content e b = refl

  new_artifact_is_found :
      (e : Export) (b : Bundle) (xs : List Artifact)
      → find (is_of e) (list_for e.tenant_id xs) ≡ none
      → find (is_of e) (list_for e.tenant_id (xs ++ new_artifact platform e b ∷ []))
        ≡ some (new_artifact platform e b)
  new_artifact_is_found e b xs missing =
      ap (find (is_of e)) (list_for-concat e.tenant_id (new_artifact platform e b) xs own)
      ∙ find-concat_fresh (is_of e) (new_artifact platform e b) (list_for e.tenant_id xs) missing
      ∙ ap (λ t. if t then some (new_artifact platform e b) else none) (is_of-new_artifact e b)
    where
      own : str_eq (new_artifact platform e b).tenant_id e.tenant_id ≡ true
      own =
          ground (
            arith,
            eq_iff (new_artifact platform e b).tenant_id e.tenant_id,
            new_artifact-tenant e b,
          )

  -- the record handed out is stored, and is the one that a search for its pack and kind finds
  abbrev IsStored : Export → Artifact → Bytes → Materialized × ExportStore → Type 0
  IsStored e a bytes (m, s) =
      m ≡ verified a bytes
      → is_of e a ≡ true
      → (find (is_of e) (list_for e.tenant_id s.artifacts) ≡ some a)
        × (verified_artifact platform a ≡ verified a bytes)

  appended-IsStored :
      (e : Export) (b : Bundle) (s : ExportStore) (a : Artifact) (bytes : Bytes)
      → find (is_of e) (list_for e.tenant_id s.artifacts) ≡ none
      → IsStored e a bytes
          (persisted platform s (append_immutable (new_artifact platform e b) s.artifacts))
  unfolding append_immutable
  appended-IsStored e b s a bytes missing =
      elim (Bool-cases (str_eq (new_artifact platform e b).artifact_id "")) [
        | inl e ↦ rw e (λ h k. cc)
        | inr named ↦
            elim (Option-cases (
              find
                (has_key (new_artifact platform e b).tenant_id
                  (new_artifact platform e b).artifact_id)
                s.artifacts)) [
                  | inl fresh ↦ rw (named, fresh) (added s.artifacts missing)
                  | inr (x, taken) ↦ rw (named, taken) (clashing x taken)
                ]
      ]
    where
      added :
          (xs : List Artifact)
          → find (is_of e) (list_for e.tenant_id xs) ≡ none
          → verified_artifact platform (new_artifact platform e b) ≡ verified a bytes
          → is_of e a ≡ true
          → (find (is_of e) (list_for e.tenant_id (xs ++ new_artifact platform e b ∷ [])) ≡ some a)
            × (verified_artifact platform a ≡ verified a bytes)
      added xs missing h k =
          let same = (verified_inj (new_artifact platform e b) a bytes h).0 in
          (
            new_artifact_is_found e b xs missing ∙ ap some same,
            sym (ap (verified_artifact platform) same) ∙ h,
          )

      clashing :
          (x : Artifact)
          → find
              (has_key
                (new_artifact platform e b).tenant_id
                (new_artifact platform e b).artifact_id)
              s.artifacts
            ≡ some x
          → verified_artifact platform x ≡ verified a bytes
          → is_of e a ≡ true
          → (find (is_of e) (list_for e.tenant_id s.artifacts) ≡ some a)
            × (verified_artifact platform a ≡ verified a bytes)
      clashing x taken h k =
          let same = (verified_inj x a bytes h).0 in
          absurd (
            found_in_tenant e (new_artifact platform e b).artifact_id s.artifacts x
              (rw (new_artifact-tenant e b) at taken) (ap (is_of e) same ∙ k) missing)

  checked-IsStored :
      (e : Export) (b : Bundle) (s : ExportStore) (code : Option String) (a : Artifact)
      (bytes : Bytes)
      → find (is_of e) (list_for e.tenant_id s.artifacts) ≡ none
      → IsStored e a bytes (checked platform e b s code)
  checked-IsStored e b s (some code) a bytes missing = λ h k. cc
  checked-IsStored e b s none a bytes missing = appended-IsStored e b s a bytes missing

  unless_stored-IsStored :
      (runtime : ManifestRequest → Bundle) (e : Export) (s : ExportStore) (found : Option Artifact)
      (a : Artifact) (bytes : Bytes)
      → find (is_of e) (list_for e.tenant_id s.artifacts) ≡ found
      → IsStored e a bytes (unless_stored platform runtime e s found)
  unless_stored-IsStored runtime e s (some x) a bytes found = λ h k.
      let same = (verified_inj x a bytes h).0 in
      (found ∙ ap some same, sym (ap (verified_artifact platform) same) ∙ h)
  unless_stored-IsStored runtime e s none a bytes missing =
      if_both (IsStored e a bytes) (is_safe_file_name e.file_name)
        (checked-IsStored e _ (after_request platform e s) _ a bytes missing) (λ h k. cc)

  -- Once an export has handed out a record of its pack and kind, every later export of that pack and kind,
  -- whatever file it is given and whatever the runtime would answer, hands out the same record with the
  -- same bytes, stores nothing and sends no request for a signature.
  pub materialize_again :
      (runtime runtime' : ManifestRequest → Bundle) (e : Export) (s : ExportStore) (a : Artifact)
      (bytes : Bytes) (file content : String) (other : Bytes)
      → (materialize platform runtime e s).0 ≡ verified a bytes
      → is_of e a ≡ true
      → materialize platform runtime'
          (record e { file_name = file; content_type = content; bytes = other })
          (materialize platform runtime e s).1
        ≡ (verified a bytes, (materialize platform runtime e s).1)
  unfolding materialize find_stored_export_artifact
  materialize_again runtime runtime' e s a bytes file content other h k =
      let stored = unless_stored-IsStored runtime e s _ a bytes refl h k in
      rw stored.0 (ap (λ m. (m, (materialize platform runtime e s).1)) stored.1)
