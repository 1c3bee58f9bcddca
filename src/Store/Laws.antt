-- ===== src/Store/Laws.antt =====
-- What a read returns after a write, and what a write leaves alone
-- (backend-api/patchforge/storage.js).
use diiac_patchforge.Prelude.{
  ◌≡◌, ◌≢◌, Bool, refl, inl, inr, true, false, some, List, [], ◌∷◌, ◌++◌, String, arith, str_eq,
  eq_iff, if◌then◌else◌, find, Bool-cases, All, All-append, All-keep,
}
use diiac_patchforge.Store.{Keyed, has_key, list_for, lookup, replace_first, append_record, replace}
use mathlib.Core.Option

module _ {A : Type 0} ⦃k : Keyed A⦄ where
  -- a read by identifier within a tenant is a search by the whole key
  pub lookup-find : (t n : String) (xs : List A) → lookup t n xs ≡ find (has_key t n) xs
  unfolding lookup has_key
  lookup-find t n [] = refl
  lookup-find t n (x ∷ xs) = ground (arith, lookup-find t n xs)

  find-replace_first :
      (t n : String) (a : A) (xs : List A)
      → find (has_key t n) (replace_first a xs)
        ≡ (if has_key t n a then some a else find (has_key t n) xs)
  unfolding replace_first has_key
  find-replace_first t n a [] = ground arith
  find-replace_first t n a (x ∷ xs) = ground (
    arith,
    find-replace_first t n a xs,
    eq_iff (k.tenant_of x) (k.tenant_of a),
    eq_iff (k.id_of x) (k.id_of a),
    eq_iff (k.tenant_of a) t,
    eq_iff (k.id_of a) n,
    eq_iff (k.tenant_of x) t,
    eq_iff (k.id_of x) n,
  )

  find-concat :
      (t n : String) (a : A) (xs : List A)
      → has_key t n a ≡ false
      → find (has_key t n) (xs ++ a ∷ []) ≡ find (has_key t n) xs
  find-concat t n a [] h = rw h
  find-concat t n a (x ∷ xs) h = ground (arith, find-concat t n a xs h)

  no_key : (t n : String) (a : A) → n ≢ "" → str_eq (k.id_of a) "" ≡ true → has_key t n a ≡ false
  unfolding has_key
  no_key t n a h e = ground (arith, eq_iff (k.id_of a) "", eq_iff (k.id_of a) n)

  pub find-append_record :
      (t n : String) (a : A) (xs : List A)
      → n ≢ ""
      → find (has_key t n) (append_record a xs)
        ≡ (if has_key t n a then some a else find (has_key t n) xs)
  unfolding append_record
  find-append_record t n a xs h = elim (Bool-cases (str_eq (k.id_of a) "")) [
    | inl e ↦ rw e (rw (no_key t n a h e) (find-concat t n a xs (no_key t n a h e)))
    | inr e ↦ rw e (find-replace_first t n a xs)
  ]

  -- A read by a key with an identifier, after a write, returns the record written if it has that
  -- key, and what it returned before otherwise.
  pub lookup-append_record :
      (t n : String) (a : A) (xs : List A)
      → n ≢ ""
      → lookup t n (append_record a xs) ≡ (if has_key t n a then some a else lookup t n xs)
  lookup-append_record t n a xs h =
      rw (lookup-find t n (append_record a xs), lookup-find t n xs) (find-append_record t n a xs h)

  pub has_key_self : (a : A) → has_key (k.tenant_of a) (k.id_of a) a ≡ true
  unfolding has_key
  has_key_self a =
      ground (arith, eq_iff (k.tenant_of a) (k.tenant_of a), eq_iff (k.id_of a) (k.id_of a))

  -- a record is what a read returns after it has been written
  pub lookup-append_record_self :
      (a : A) (xs : List A)
      → k.id_of a ≢ ""
      → lookup (k.tenant_of a) (k.id_of a) (append_record a xs) ≡ some a
  lookup-append_record_self a xs h =
      rw (lookup-append_record (k.tenant_of a) (k.id_of a) a xs h, has_key_self a) refl

  keep-replace_first :
      (t : String) (a : A) (xs : List A)
      → str_eq (k.tenant_of a) t ≡ false
      → list_for t (replace_first a xs) ≡ list_for t xs
  unfolding replace_first list_for has_key
  keep-replace_first t a [] h = rw h
  keep-replace_first t a (x ∷ xs) h = ground (
    arith,
    keep-replace_first t a xs h,
    eq_iff (k.tenant_of x) (k.tenant_of a),
    eq_iff (k.tenant_of a) t,
    eq_iff (k.tenant_of x) t,
  )

  keep-concat :
      (t : String) (a : A) (xs : List A)
      → str_eq (k.tenant_of a) t ≡ false
      → list_for t (xs ++ a ∷ []) ≡ list_for t xs
  unfolding list_for
  keep-concat t a [] h = rw h
  keep-concat t a (x ∷ xs) h = ground (arith, keep-concat t a xs h)

  -- A write for one tenant leaves the records of every other tenant as they were.
  pub list_for-append_record :
      (t : String) (a : A) (xs : List A)
      → k.tenant_of a ≢ t
      → list_for t (append_record a xs) ≡ list_for t xs
  unfolding append_record
  list_for-append_record t a xs h = elim (Bool-cases (str_eq (k.id_of a) "")) [
    | inl e ↦ rw e (keep-concat t a xs differs)
    | inr e ↦ rw e (keep-replace_first t a xs differs)
  ]
    where
      differs : str_eq (k.tenant_of a) t ≡ false
      differs = ground (arith, eq_iff (k.tenant_of a) t)

  find-replace :
      (t n : String) (p : A → Bool) (f : A → A) (xs : List A)
      → ((a : A) → has_key t n (f a) ≡ has_key t n a)
      → find (has_key t n) (replace p f xs).0
        ≡ Option.map (λ a. if p a then f a else a) (find (has_key t n) xs)
  unfolding replace
  find-replace t n p f [] same = refl
  find-replace t n p f (x ∷ xs) same = ground (arith, find-replace t n p f xs same, same x)

  -- A bulk update that keeps the keys acts on each read as on the record it returns.
  pub lookup-replace :
      (t n : String) (p : A → Bool) (f : A → A) (xs : List A)
      → ((a : A) → has_key t n (f a) ≡ has_key t n a)
      → lookup t n (replace p f xs).0 ≡ Option.map (λ a. if p a then f a else a) (lookup t n xs)
  lookup-replace t n p f xs same =
      rw (lookup-find t n (replace p f xs).0, lookup-find t n xs) (find-replace t n p f xs same)

-- A property of every record of a collection survives a write of a record that has it.
module _ {A : Type 0} ⦃k : Keyed A⦄ (P : A → Type 0) where
  All-replace_first : (a : A) (xs : List A) → P a → All P xs → All P (replace_first a xs)
  unfolding replace_first
  All-replace_first a [] h hs = (h, tt)
  All-replace_first a (x ∷ xs) h hs = elim (Bool-cases (has_key (k.tenant_of a) (k.id_of a) x)) [
    | inl e ↦ rw e (h, hs.1)
    | inr e ↦ rw e (hs.0, All-replace_first a xs h hs.1)
  ]

  pub All-append_record : (a : A) (xs : List A) → P a → All P xs → All P (append_record a xs)
  unfolding append_record
  All-append_record a xs h hs = elim (Bool-cases (str_eq (k.id_of a) "")) [
    | inl e ↦ rw e (All-append P xs (a ∷ []) hs (h, tt))
    | inr e ↦ rw e (All-replace_first a xs h hs)
  ]

  pub All-list_for : (t : String) (xs : List A) → All P xs → All P (list_for t xs)
  unfolding list_for
  All-list_for t xs h = All-keep P (λ r. str_eq (k.tenant_of r) t) xs h
