-- ===== src/Cleanup/Laws/Purges.antt =====
-- What a purge leaves of the other tenants (backend-api/patchforge/storage.js).
use diiac_patchforge.Prelude.{
  ℕ, ◌≡◌, refl, sym, ap, ◌∙◌, inl, inr, true, false, not, String, List, [], ◌∷◌, ◌++◌, str_eq,
  eq_iff, arith, Bool-cases, keep,
}
use diiac_patchforge.Cleanup.{Rec, Files, write}
use diiac_patchforge.Cleanup.Purge.{
  PurgeOptions, purge, purge_all, purge_confirmed, purge_collections, purged_by, purge_confirmation,
}

-- the records of one tenant
abbrev pub of_tenant : String → List Rec → List Rec
of_tenant tenant recs = keep (λ r. str_eq r.tenant_id tenant) recs

abbrev left_by : String → List Rec → List Rec
left_by tenant recs = keep (λ r. not (str_eq r.tenant_id tenant)) recs

module _ (tenant other : String) (apart : str_eq tenant other ≡ false) where
  not_both : (t : String) → str_eq t other ≡ true → str_eq t tenant ≡ false
  not_both t h = ground (arith, eq_iff t other, eq_iff t tenant, eq_iff tenant other, apart)

  of_tenant-left_by :
      (recs : List Rec) → of_tenant other (left_by tenant recs) ≡ of_tenant other recs
  of_tenant-left_by [] = refl
  of_tenant-left_by (r ∷ rs) = elim (Bool-cases (str_eq r.tenant_id other)) [
    | inl e ↦ rw (not_both r.tenant_id e, e) (ap (λ xs. r ∷ xs) (of_tenant-left_by rs))
    | inr e ↦ elim (Bool-cases (str_eq r.tenant_id tenant)) [
      | inl k ↦ rw (k, e) (of_tenant-left_by rs)
      | inr k ↦ rw (k, e) (of_tenant-left_by rs)
    ]
  ]

  of_tenant-write :
      (name n : String) (recs : List Rec) (files : String → List Rec)
      → of_tenant other recs ≡ of_tenant other (files name)
      → of_tenant other (write name recs files n) ≡ of_tenant other (files n)
  of_tenant-write name n recs files h = elim (Bool-cases (str_eq n name)) [
    | inl e ↦
        let same : n ≡ name = ground (arith, eq_iff n name, e) in
        rw e (h ∙ ap (λ k. of_tenant other (files k)) (sym same))
    | inr e ↦ rw e refl
  ]

  of_tenant-purge_all :
      (n : String) (names : List String) (files : String → List Rec) (k : ℕ)
      → of_tenant other ((purge_all tenant names (files, k)).0 n) ≡ of_tenant other (files n)
  unfolding purge_all
  of_tenant-purge_all n [] files k = refl
  of_tenant-purge_all n (name ∷ names) files k =
      of_tenant-purge_all n names _ _
      ∙ of_tenant-write name n _ files (of_tenant-left_by (files name))

  of_tenant-append :
      (recs : List Rec) (r : Rec)
      → r.tenant_id ≡ tenant
      → of_tenant other (recs ++ r ∷ []) ≡ of_tenant other recs
  of_tenant-append [] r h = rw (ap (λ t. str_eq t other) h ∙ apart) refl
  of_tenant-append (x ∷ xs) r h = elim (Bool-cases (str_eq x.tenant_id other)) [
    | inl e ↦ rw e (ap (λ ys. x ∷ ys) (of_tenant-append xs r h))
    | inr e ↦ rw e (of_tenant-append xs r h)
  ]

  confirmed-keeps :
      (names : List String) (audit_id : String) (f : Files) (n : String)
      → of_tenant other ((purge_confirmed tenant names audit_id f).1.records n)
        ≡ of_tenant other (f.records n)
  unfolding purge_confirmed
  confirmed-keeps names audit_id f n =
      of_tenant-write "audit_events" n _ (purged_by tenant names f).0 (of_tenant-append _ _ refl)
      ∙ of_tenant-purge_all n names f.records 0

  -- A purge for one tenant, planned, unconfirmed or done, leaves every other tenant's records of every
  -- collection as they were and in their order.
  pub of_tenant-purge :
      (o : PurgeOptions) (audit_id : String) (f : Files) (n : String)
      → of_tenant other ((purge tenant o audit_id f).1.records n) ≡ of_tenant other (f.records n)
  unfolding purge
  of_tenant-purge o audit_id f n = elim (Bool-cases o.dry_run) [
    | inl e ↦ rw e refl
    | inr e ↦ elim (Bool-cases (not (str_eq o.confirm purge_confirmation))) [
      | inl k ↦ rw (e, k) refl
      | inr k ↦ simp (e, k) (confirmed-keeps (purge_collections o) audit_id f n)
    ]
  ]
