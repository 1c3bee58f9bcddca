-- ===== src/Cleanup/Laws/Tokens.antt =====
-- A token serves one removal (backend-api/patchforge/storage.js).
use diiac_patchforge.Prelude.{
  ℕ, ◌≡◌, refl, sym, ap, ◌∙◌, inl, inr, Bool, true, false, not, ◌&&◌, ◌||◌, Option, none, some,
  some_inj, String, List, [], ◌∷◌, str_eq, eq_iff, if_both, if_split, if◌then◌else◌, arith,
  Bool-cases, find,
}
use diiac_patchforge.Store.{list_for, replace}
use diiac_patchforge.Cleanup.{Preview, Files}
use diiac_patchforge.Cleanup.Plan.{CleanupOptions, CleanupPlan, plan_of, plan_error}
use diiac_patchforge.Cleanup.Execute.{
  preview_keyed, Fresh, Cleaned, refused, done, checked, with_preview, unless_error,
  cleanup_uat_records, is_token, preview_error, find_preview, is_pending, is_preview, consume,
}
use diiac_patchforge.Cleanup.Laws.Once.{IsAuthorized, cleanup_uat_records-IsAuthorized}

-- A call refuses, and stores nothing.
unfoldable pub IsRefused : Files → Cleaned × Files → Type 0
IsRefused f (refused code, g) = g ≡ f
IsRefused f _ = ⊥

abbrev has_token : String → Preview → Bool
has_token t p = str_eq p.preview_token_sha256 t

abbrev consumed_by : String → String → Preview → Preview
consumed_by tenant id p = if is_preview tenant id p then consume p else p

consumed_by-same :
    (tenant id t : String) (p : Preview)
    → (has_token t (consumed_by tenant id p) ≡ has_token t p)
      × ((consumed_by tenant id p).tenant_id ≡ p.tenant_id)
unfolding consume
consumed_by-same tenant id t p = elim (Bool-cases (is_preview tenant id p)) [
  | inl e ↦ rw e (refl, refl)
  | inr e ↦ rw e (refl, refl)
]

replace-cons :
    (tenant id : String) (p : Preview) (ps : List Preview)
    → (replace (is_preview tenant id) consume (p ∷ ps)).0
      ≡ consumed_by tenant id p ∷ (replace (is_preview tenant id) consume ps).0
unfolding replace
replace-cons tenant id p ps = elim (Bool-cases (is_preview tenant id p)) [
  | inl e ↦ rw e refl
  | inr e ↦ rw e refl
]

find_token-replace :
    (tenant id t : String) (p : Preview) (ps : List Preview)
    → find (has_token t) (list_for tenant ps) ≡ some p
    → find (has_token t) (list_for tenant (replace (is_preview tenant id) consume ps).0)
      ≡ some (consumed_by tenant id p)
unfolding list_for
find_token-replace tenant id t p [] h = cc
find_token-replace tenant id t p (x ∷ xs) h = rw (replace-cons tenant id x xs) (
    step (consumed_by tenant id x) refl (consumed_by-same tenant id t x)
      (find_token-replace tenant id t p xs))
  where
    step :
        (y : Preview)
        → y ≡ consumed_by tenant id x
        → (has_token t y ≡ has_token t x) × (y.tenant_id ≡ x.tenant_id)
        → (find (has_token t) (list_for tenant xs) ≡ some p
            → find (has_token t) (list_for tenant (replace (is_preview tenant id) consume xs).0)
              ≡ some (consumed_by tenant id p))
        → find (has_token t) (list_for tenant (y ∷ (replace (is_preview tenant id) consume xs).0))
          ≡ some (consumed_by tenant id p)
    step y is_y same ih = elim (Bool-cases (str_eq x.tenant_id tenant)) [
      | inr e ↦ rw (ap (λ a. str_eq a tenant) same.1 ∙ e) (ih (rw e at h))
      | inl e ↦ elim (Bool-cases (has_token t x)) [
        | inl k ↦
            let found : some x ≡ some p = rw (e, k) at h in
            rw (ap (λ a. str_eq a tenant) same.1 ∙ e, same.0 ∙ k)
              (ap some is_y ∙ ap (λ z. some (consumed_by tenant id z)) (some_inj found))
        | inr k ↦ rw (ap (λ a. str_eq a tenant) same.1 ∙ e, same.0 ∙ k) (ih (rw (e, k) at h))
      ]
    ]

module _ (hash : String → String) (digest : CleanupPlan → String) (tenant : String)
    (o : CleanupOptions) (g : Files) where
  refused-IsRefused : (code : String) → IsRefused g (refused code, g)
  unfolding IsRefused
  refused-IsRefused code = refl

  consumed-IsRefused :
      (plan : CleanupPlan) (p : Preview) (fresh : Fresh) (now : ℕ)
      → is_pending p.status ≡ false
      → IsRefused g (checked hash digest plan p fresh g (preview_error hash digest p plan now))
  unfolding preview_error
  consumed-IsRefused plan p fresh now used =
      elim (Bool-cases
        (not (str_eq p.tenant_id plan.tenant_id) || not (str_eq p.identifier plan.identifier))) [
          | inl e ↦ rw e (refused-IsRefused _)
          | inr e ↦ rw (e, used) (refused-IsRefused _)
        ]

  with_consumed-IsRefused :
      (plan : CleanupPlan) (p : Preview) (fresh : Fresh) (now : ℕ) (found : Option Preview)
      → found ≡ some p
      → is_pending p.status ≡ false
      → IsRefused g (with_preview hash digest plan fresh now g found)
  with_consumed-IsRefused plan p fresh now none e used = refused-IsRefused _
  with_consumed-IsRefused plan p fresh now (some q) e used =
      consumed-IsRefused plan q fresh now (ap (λ x. is_pending x.status) (some_inj e) ∙ used)

  unless_error-IsRefused :
      (p : Preview) (fresh : Fresh) (now : ℕ) (error : Option String)
      → o.dry_run ≡ false
      → o.confirm ≡ o.identifier
      → find_preview hash digest tenant o.preview_token g ≡ some p
      → is_pending p.status ≡ false
      → IsRefused g (unless_error hash digest error (plan_of tenant o g) o fresh now g)
  unfolding plan_of
  unless_error-IsRefused p fresh now (some code) run same found used = refused-IsRefused code
  unless_error-IsRefused p fresh now none run same found used =
      if_split (IsRefused g) o.dry_run (λ h. let clash = sym h ∙ run in cc)
        (λ d.
          if_split (IsRefused g) (not (str_eq o.confirm o.identifier)) (λ h. absurd (differs h))
            (λ c.
              if_both (IsRefused g) (not (is_token o.preview_token)) (refused-IsRefused _)
                (with_consumed-IsRefused (plan_of tenant o g) p fresh now _ found used)))
    where
      differs : not (str_eq o.confirm o.identifier) ≡ true → ⊥
      differs h = ground (arith, eq_iff o.confirm o.identifier, same)

consumed_by_self :
    (tenant : String) (p : Preview)
    → p.tenant_id ≡ tenant
    → is_pending (consumed_by tenant p.preview_id p).status ≡ false
unfolding is_preview consume
consumed_by_self tenant p h =
    let own : (str_eq p.tenant_id tenant && str_eq p.preview_id p.preview_id) ≡ true =
      ground (arith, eq_iff p.tenant_id tenant, eq_iff p.preview_id p.preview_id) in
    rw own refl

spent :
    (hash : String → String) (digest : CleanupPlan → String) (tenant : String) (o : CleanupOptions)
    (f g : Files) (p : Preview) (fresh : Fresh) (now later : ℕ)
    → IsAuthorized hash digest tenant o now f g p
    → IsRefused g (cleanup_uat_records hash digest tenant o fresh later g)
unfolding cleanup_uat_records find_preview
spent hash digest tenant o f g p fresh now later a =
    unless_error-IsRefused hash digest tenant o g (consumed_by tenant p.preview_id p) fresh later
      (plan_error tenant o g) a.executing a.confirmed
      (ap (λ ps. find (has_token (hash o.preview_token)) (list_for tenant ps)) a.consumes
        ∙ find_token-replace tenant p.preview_id (hash o.preview_token) p f.previews a.issued)
      (consumed_by_self tenant p a.of_tenant)

-- After a removal, the options that led to it lead to none: the next call with them, at any time,
-- refuses and stores nothing.
pub cleanup_uat_records_once :
    (hash : String → String) (digest : CleanupPlan → String) (tenant : String) (o : CleanupOptions)
    (fresh fresh' : Fresh) (now now' : ℕ) (f : Files) (plan : CleanupPlan) (p : Preview) (n : ℕ)
    → (cleanup_uat_records hash digest tenant o fresh now f).0 ≡ done plan p n
    → IsRefused (cleanup_uat_records hash digest tenant o fresh now f).1 (
        cleanup_uat_records hash digest tenant o fresh' now'
          (cleanup_uat_records hash digest tenant o fresh now f).1)
cleanup_uat_records_once hash digest tenant o fresh fresh' now now' f plan p n h =
    let authorized = cleanup_uat_records-IsAuthorized hash digest tenant o fresh now f plan p n h in
    spent hash digest tenant o f (cleanup_uat_records hash digest tenant o fresh now f).1 p fresh'
      now now' authorized
