-- ===== src/Cleanup/Laws/Once.antt =====
-- What a removal needs, and that a token serves once (backend-api/patchforge/storage.js).
use diiac_patchforge.Prelude.{
  ℕ, ◌≡◌, ◌<◌, refl, true, false, not, Option, none, some, String, str_eq, eq_iff, if_both,
  if_split, any, arith,
}
use diiac_patchforge.Store.{replace}
use diiac_patchforge.Cleanup.{Preview, Files, cleanup_collections}
use diiac_patchforge.Cleanup.Plan.{
  CleanupOptions, CleanupPlan, plan_of, plan_error, lacks_id, or_missing, option_error,
  is_uat_identifier,
}
use diiac_patchforge.Cleanup.Execute.{
  preview_keyed, Fresh, Cleaned, refused, previewed, blocked, done, perform, checked, with_preview,
  issue, unless_error, cleanup_uat_records, preview_error, find_preview, is_pending, is_preview,
  consume,
}

identifier_is_exact :
    (o : CleanupOptions) → option_error o ≡ none → is_uat_identifier o.identifier ≡ true
unfolding option_error
identifier_is_exact o h = ground arith

-- What holds of a call that removes: the plan that it made, with the preview that it used.
pub record IsAuthorized (hash : String → String) (digest : CleanupPlan → String) (tenant : String)
    (o : CleanupOptions) (now : ℕ) (f g : Files) (p : Preview) : Type 0 where
  pub exact_identifier : is_uat_identifier o.identifier ≡ true
  pub executing : o.dry_run ≡ false
  pub confirmed : o.confirm ≡ o.identifier
  pub issued : find_preview hash digest tenant o.preview_token f ≡ some p
  pub for_identifier : p.identifier ≡ o.identifier
  pub unused : is_pending p.status ≡ true
  pub in_time : now < p.expires_at
  pub consumes : g.previews ≡ (replace (is_preview tenant p.preview_id) consume f.previews).0
  pub of_tenant : p.tenant_id ≡ tenant
  pub same_records : p.preview_digest ≡ digest (plan_of tenant o f)

module _ (hash : String → String) (digest : CleanupPlan → String) (tenant : String)
    (o : CleanupOptions) (fresh : Fresh) (now : ℕ) (f : Files) where
  unfoldable IfDone : Cleaned × Files → Type 0
  IfDone (done plan p removed, g) = IsAuthorized hash digest tenant o now f g p
  IfDone _ = Unit

  option_error-none : plan_error tenant o f ≡ none → is_uat_identifier o.identifier ≡ true
  unfolding plan_error
  option_error-none h = from_code (option_error o) refl h
    where
      from_code :
          (e : Option String)
          → option_error o ≡ e
          → or_missing e (any (lacks_id tenant f.records) cleanup_collections) ≡ none
          → is_uat_identifier o.identifier ≡ true
      from_code (some code) e h = cc
      from_code none e h = identifier_is_exact o e

  preview_error-none :
      (p : Preview) (plan : CleanupPlan)
      → preview_error hash digest p plan now ≡ none
      → (p.tenant_id ≡ plan.tenant_id)
        × (p.identifier ≡ plan.identifier)
        × (is_pending p.status ≡ true)
        × (now < p.expires_at)
        × (p.preview_digest ≡ digest plan)
  unfolding preview_error
  preview_error-none p plan h = ground (
    arith,
    eq_iff p.tenant_id plan.tenant_id,
    eq_iff p.identifier plan.identifier,
    eq_iff p.preview_digest (digest plan),
  )

  refused-IfDone : (code : String) (g : Files) → IfDone (refused code, g)
  unfolding IfDone
  refused-IfDone code g = tt

  blocked-IfDone : (plan : CleanupPlan) (g : Files) → IfDone (blocked plan, g)
  unfolding IfDone
  blocked-IfDone plan g = tt

  issue-IfDone : (plan : CleanupPlan) → IfDone (issue hash digest plan fresh now f)
  unfolding IfDone
  issue-IfDone plan = tt

  module _ (exact : is_uat_identifier o.identifier ≡ true)
      (executing : (plan_of tenant o f).dry_run ≡ false)
      (confirmed : not (str_eq o.confirm (plan_of tenant o f).identifier) ≡ false) where
    checked-IfDone :
        (p : Preview) (code : Option String)
        → find_preview hash digest tenant o.preview_token f ≡ some p
        → preview_error hash digest p (plan_of tenant o f) now ≡ code
        → IfDone (checked hash digest (plan_of tenant o f) p fresh f code)
    unfolding IfDone perform plan_of
    checked-IfDone p (some code) found e = tt
    checked-IfDone p none found e =
        let (owned, identifier, unused, in_time, same) =
          preview_error-none p (plan_of tenant o f) e in
        record {
          exact_identifier = exact;
          executing = executing;
          confirmed = ground (arith, eq_iff o.confirm o.identifier, confirmed);
          issued = found;
          for_identifier = identifier;
          unused = unused;
          in_time = in_time;
          same_records = same;
          of_tenant = owned;
          consumes = refl;
        }

    with_preview-IfDone :
        (found : Option Preview)
        → find_preview hash digest tenant o.preview_token f ≡ found
        → IfDone (with_preview hash digest (plan_of tenant o f) fresh now f found)
    with_preview-IfDone none e = refused-IfDone _ f
    with_preview-IfDone (some p) e = checked-IfDone p _ e refl

  unless_error-IfDone :
      (error : Option String)
      → plan_error tenant o f ≡ error
      → IfDone (unless_error hash digest error (plan_of tenant o f) o fresh now f)
  unfolding plan_of
  unless_error-IfDone (some code) e = refused-IfDone code f
  unless_error-IfDone none e =
      if_split IfDone _ (λ h. issue-IfDone (plan_of tenant o f))
        (λ d.
          if_split IfDone _ (λ h. blocked-IfDone (plan_of tenant o f) f)
            (λ h.
              if_both IfDone _ (refused-IfDone _ f)
                (with_preview-IfDone (option_error-none e) d h _ refl)))

  if_done :
      (r : Cleaned × Files) (plan : CleanupPlan) (p : Preview) (n : ℕ)
      → IfDone r
      → r.0 ≡ done plan p n
      → IsAuthorized hash digest tenant o now f r.1 p
  unfolding IfDone
  if_done (done plan' p' n', g) plan p n h e = let same : p' ≡ p = cc in rw same at h
  if_done (refused code, g) plan p n h e = cc
  if_done (blocked plan', g) plan p n h e = cc
  if_done (previewed plan' p', g) plan p n h e = cc

  -- A cleanup removes records only for one exact identifier of the acceptance tests, confirmed by its own
  -- text, and by a token of the tenant's for this identifier that is not used and not expired, whose
  -- preview is of the same records as are selected now; and it marks that preview as used.
  pub cleanup_uat_records-IsAuthorized :
      (plan : CleanupPlan) (p : Preview) (n : ℕ)
      → (cleanup_uat_records hash digest tenant o fresh now f).0 ≡ done plan p n
      → IsAuthorized hash digest tenant o now f
          (cleanup_uat_records hash digest tenant o fresh now f).1
          p
  unfolding cleanup_uat_records
  cleanup_uat_records-IsAuthorized plan p n =
      if_done _ plan p n (unless_error-IfDone (plan_error tenant o f) refl)
