-- ===== src/Cleanup/Laws/Exactly.antt =====
-- What a call of `cleanupUatRecords` leaves, on every way out (backend-api/patchforge/storage.js).
use diiac_patchforge.Prelude.{
  ℕ, ◌≡◌, refl, ap, ◌∙◌, false, Option, none, some, String, List, [], ◌∷◌, ◌++◌, str_eq, if_both,
  if◌then◌else◌,
}
use diiac_patchforge.Prelude.Texts.{member}
use diiac_patchforge.Cleanup.{
  Rec, text, none_left, next, Files, Preview, write, cleanup_collections,
}
use diiac_patchforge.Cleanup.Plan.{CleanupOptions, CleanupPlan, plan_of, plan_error}
use diiac_patchforge.Cleanup.Execute.{
  Fresh, Cleaned, refused, previewed, blocked, done, perform, checked, with_preview, issue,
  unless_error, cleanup_uat_records,
}
use diiac_patchforge.Cleanup.Laws.{untouched, remove-Exact, after_names}

abbrev pub cleanup_event : String → Fresh → Rec
cleanup_event tenant fresh = record {
  tenant_id = tenant;
  record_id = fresh.audit_id;
  fields = next (text "patchforge_uat_cleanup_completed") none_left;
}

-- What is left of the records, by the answer.
unfoldable pub Leaves : String → String → Fresh → Files → Cleaned × Files → Type 0
Leaves tenant identifier fresh f (refused code, g) = g ≡ f
Leaves tenant identifier fresh f (previewed plan p, g) = g.records ≡ f.records
Leaves tenant identifier fresh f (blocked plan, g) = g ≡ f
Leaves tenant identifier fresh f (done plan p removed, g) =
    ((n : String)
      → str_eq n "audit_events" ≡ false
      → g.records n ≡ (
          if member n cleanup_collections
          then untouched tenant identifier (f.records n)
          else f.records n))
    × (g.records "audit_events" ≡ f.records "audit_events" ++ cleanup_event tenant fresh ∷ [])

write-other :
    (name : String) (left : List Rec) (files : String → List Rec) (n : String)
    → str_eq n name ≡ false
    → write name left files n ≡ files n
write-other name left files n h = rw h refl

module _ (hash : String → String) (digest : CleanupPlan → String) (tenant : String)
    (o : CleanupOptions) (fresh : Fresh) (f : Files) where
  perform-Leaves :
      (p : Preview)
      → Leaves tenant o.identifier fresh f (perform hash digest (plan_of tenant o f) p fresh f)
  unfolding perform plan_of Leaves
  perform-Leaves p =
      let left =
        remove-Exact tenant o.identifier f.records cleanup_collections f.records 0 refl
          (λ n h. refl) in
      (
        (λ n h.
            write-other "audit_events" _
              (after_names tenant o.identifier f.records cleanup_collections f.records 0) n h
            ∙ left n),
        ap (λ xs. xs ++ cleanup_event tenant fresh ∷ []) (left "audit_events"),
      )

  refused-Leaves : (code : String) → Leaves tenant o.identifier fresh f (refused code, f)
  unfolding Leaves
  refused-Leaves code = refl

  blocked-Leaves : (plan : CleanupPlan) → Leaves tenant o.identifier fresh f (blocked plan, f)
  unfolding Leaves
  blocked-Leaves plan = refl

  issue-Leaves :
      (plan : CleanupPlan) (now : ℕ)
      → Leaves tenant o.identifier fresh f (issue hash digest plan fresh now f)
  unfolding Leaves
  issue-Leaves plan now = refl

  checked-Leaves :
      (p : Preview) (code : Option String)
      → Leaves tenant o.identifier fresh f (checked hash digest (plan_of tenant o f) p fresh f code)
  checked-Leaves p (some code) = refused-Leaves code
  checked-Leaves p none = perform-Leaves p

  with_preview-Leaves :
      (now : ℕ) (found : Option Preview)
      → Leaves tenant o.identifier fresh f
          (with_preview hash digest (plan_of tenant o f) fresh now f found)
  with_preview-Leaves now none = refused-Leaves _
  with_preview-Leaves now (some p) = checked-Leaves p _

  unless_error-Leaves :
      (now : ℕ) (error : Option String)
      → Leaves tenant o.identifier fresh f
          (unless_error hash digest error (plan_of tenant o f) o fresh now f)
  unless_error-Leaves now (some code) = refused-Leaves code
  unless_error-Leaves now none =
      if_both (Leaves tenant o.identifier fresh f) _ (issue-Leaves (plan_of tenant o f) now) (
        if_both (Leaves tenant o.identifier fresh f) _ (blocked-Leaves (plan_of tenant o f)) (
          if_both (Leaves tenant o.identifier fresh f) _ (refused-Leaves _)
            (with_preview-Leaves now _)))

  -- A cleanup that is done has removed exactly the records of the tenant that have the identifier as a
  -- value, from every collection but the audit events and the previews; every other record stays, in its
  -- order, and one audit event is added. Any other answer leaves all records as they were.
  pub cleanup_uat_records-Leaves :
      (now : ℕ)
      → Leaves tenant o.identifier fresh f (cleanup_uat_records hash digest tenant o fresh now f)
  unfolding cleanup_uat_records
  cleanup_uat_records-Leaves now = unless_error-Leaves now (plan_error tenant o f)
