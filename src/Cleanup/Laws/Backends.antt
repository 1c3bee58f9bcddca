-- ===== src/Cleanup/Laws/Backends.antt =====
-- That both storages purge alike (backend-api/patchforge/storage.js).
use diiac_patchforge.Prelude.{
  ℕ, ◌+◌, ◌-◌, ◌≡◌, refl, ap, ◌∙◌, inl, inr, Bool, true, false, not, String, List, [], ◌∷◌, ◌++◌,
  str_eq, eq_iff, arith, Bool-cases, keep, length,
}
use diiac_patchforge.Prelude.Texts.{member}
use diiac_patchforge.Cleanup.{Rec, Files, write, audit, collections}
use diiac_patchforge.Cleanup.Purge.{
  PurgeOptions, purged, purge, purge_all, purge_confirmed, purge_collections, add_new,
  all_collections, resolve_purge_scopes,
}
use diiac_patchforge.Cleanup.PgPurge.{counted, delete_all, pg_purge_confirmed, pg_purge}
use diiac_patchforge.Cleanup.Laws.{distinct, member-concat}

distinct-concat :
    (n : String) (ns : List String)
    → distinct ns ≡ true
    → member n ns ≡ false
    → distinct (ns ++ n ∷ []) ≡ true
distinct-concat n [] d h = refl
distinct-concat n (x ∷ xs) d h =
    ground (arith, distinct-concat n xs, member-concat x n xs, eq_iff x n, eq_iff n x, d, h)

distinct-add_new : (ns cs : List String) → distinct ns ≡ true → distinct (add_new ns cs) ≡ true
distinct-add_new ns [] d = d
distinct-add_new ns (c ∷ cs) d = elim (Bool-cases (member c ns)) [
  | inl e ↦ rw e (distinct-add_new ns cs d)
  | inr e ↦ rw e (distinct-add_new (ns ++ c ∷ []) cs (distinct-concat c ns d e))
]

member-keep :
    (p : String → Bool) (n : String) (ns : List String)
    → member n ns ≡ false
    → member n (keep p ns) ≡ false
member-keep p n [] h = refl
member-keep p n (x ∷ xs) h = elim (Bool-cases (p x)) [
  | inl e ↦ rw e (ground (arith, member-keep p n xs, h))
  | inr e ↦ rw e (member-keep p n xs (ground (arith, h)))
]

distinct-keep :
    (p : String → Bool) (ns : List String) → distinct ns ≡ true → distinct (keep p ns) ≡ true
distinct-keep p [] d = refl
distinct-keep p (x ∷ xs) d = elim (Bool-cases (p x)) [
  | inl e ↦ rw e (ground (arith, distinct-keep p xs, member-keep p x xs, d))
  | inr e ↦ rw e (distinct-keep p xs (ground (arith, d)))
]

-- no collection is planned twice
distinct-purge_collections : (o : PurgeOptions) → distinct (purge_collections o) ≡ true
unfolding purge_collections
distinct-purge_collections o =
    distinct-keep (λ c. member c collections)
      (add_new [] (all_collections (resolve_purge_scopes o)))
      (distinct-add_new [] (all_collections (resolve_purge_scopes o)) refl)

length-keep-not :
    {A : Type 0} (p : A → Bool) (xs : List A)
    → length (keep (λ x. not (p x)) xs) + length (keep p xs) ≡ length xs
length-keep-not p [] = refl
length-keep-not p (x ∷ xs) = elim (Bool-cases (p x)) [
  | inl e ↦ rw e (omega (arith, length-keep-not p xs))
  | inr e ↦ rw e (omega (arith, length-keep-not p xs))
]

module _ (tenant : String) where
  abbrev left_by : List Rec → List Rec
  left_by recs = keep (λ r. not (str_eq r.tenant_id tenant)) recs

  write-unread :
      (name : String) (recs : List Rec) (files : String → List Rec) (names : List String)
      → member name names ≡ false
      → counted tenant names (write name recs files) ≡ counted tenant names files
  unfolding counted
  write-unread name recs files [] h = refl
  write-unread name recs files (n ∷ ns) h = elim (Bool-cases (str_eq n name)) [
    | inl e ↦ absurd (clash e)
    | inr e ↦ rw e (
        ap (λ k. length (keep (λ r. str_eq r.tenant_id tenant) (files n)) + k)
          (write-unread name recs files ns (ground (arith, h))))
  ]
    where
      clash : str_eq n name ≡ true → ⊥
      clash e = ground (arith, eq_iff n name, eq_iff name n, h)

  purge_all-delete_all :
      (names : List String) (files : String → List Rec) (k : ℕ)
      → distinct names ≡ true
      → purge_all tenant names (files, k)
        ≡ (delete_all tenant names files, k + counted tenant names files)
  unfolding purge_all delete_all counted
  purge_all-delete_all [] files k d = ap (λ n. (files, n)) (omega arith)
  purge_all-delete_all (name ∷ names) files k d =
      purge_all-delete_all names (write name (left_by (files name)) files) _ (ground (arith, d))
      ∙ ap (λ n. (delete_all tenant names (write name (left_by (files name)) files), n)) sums
    where
      unread :
          counted tenant names (write name (left_by (files name)) files)
          ≡ counted tenant names files
      unread = write-unread name (left_by (files name)) files names (ground (arith, d))

      sums :
          (k + (length (files name) - length (left_by (files name))))
            + counted tenant names (write name (left_by (files name)) files)
          ≡ k
            + (length (keep (λ r. str_eq r.tenant_id tenant) (files name))
                + counted tenant names files)
      sums = omega (arith, unread, length-keep-not (λ r. str_eq r.tenant_id tenant) (files name))

  confirmed-same :
      (names : List String) (audit_id : String) (f : Files)
      → distinct names ≡ true
      → purge_confirmed tenant names audit_id f ≡ pg_purge_confirmed tenant names audit_id f
  unfolding purge_confirmed pg_purge_confirmed
  confirmed-same names audit_id f d =
      ap
        (λ s. (
          purged names s.1,
          record f { records = audit tenant audit_id "patchforge_factory_reset" s.0 },
        ))
        (purge_all-delete_all names f.records 0 d
          ∙ ap (λ n. (delete_all tenant names f.records, n)) (omega arith))

  -- Both storages purge alike: for the same options and the same records, the loop over the files and
  -- the deletions by SQL give the same answer, with the same number of records removed, and leave the
  -- same records.
  pub purge-eq-pg_purge :
      (o : PurgeOptions) (audit_id : String) (f : Files)
      → purge tenant o audit_id f ≡ pg_purge tenant o audit_id f
  unfolding purge pg_purge
  purge-eq-pg_purge o audit_id f =
      simp (confirmed-same (purge_collections o) audit_id f (distinct-purge_collections o)) refl
