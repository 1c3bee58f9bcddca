-- ===== src/Store/Immutable.antt =====
-- The append-only collections: `appendImmutable` of backend-api/patchforge/storage.js.
use diiac_patchforge.Prelude.{
  ◌≡◌, refl, ◌≢◌, inl, inr, Bool, true, false, none, some, List, [], ◌∷◌, ◌++◌, String, arith,
  str_eq, eq_iff, find, Bool-cases, Option-cases, if◌then◌else◌,
}
use diiac_patchforge.Store.{Keyed, Stored, has_key, lookup, append_immutable}
use diiac_patchforge.Store.Laws.{lookup-find, has_key_self}

module _ {A : Type 0} ⦃k : Keyed A⦄ where
  pub find-concat_fresh :
      (p : A → Bool) (a : A) (xs : List A)
      → find p xs ≡ none
      → find p (xs ++ a ∷ []) ≡ (if p a then some a else none)
  find-concat_fresh p a [] h = refl
  find-concat_fresh p a (x ∷ xs) h = elim (Bool-cases (p x)) [
    | inl e ↦ ground arith
    | inr e ↦ rw e (find-concat_fresh p a xs (rw e at h))
  ]

  find-concat_found :
      (p : A → Bool) (a b : A) (xs : List A) → find p xs ≡ some b → find p (xs ++ a ∷ []) ≡ some b
  find-concat_found p a b [] h = ground arith
  find-concat_found p a b (x ∷ xs) h = elim (Bool-cases (p x)) [
    | inl e ↦ rw e (rw e at h)
    | inr e ↦ rw e (find-concat_found p a b xs (rw e at h))
  ]

  -- The first record written under an identifier stays: whatever is written later under it, the
  -- write returns that first record, says that it created nothing, and changes nothing.
  pub append_immutable_keeps_first :
      (a b : A) (xs : List A)
      → k.id_of a ≢ ""
      → lookup (k.tenant_of a) (k.id_of a) xs ≡ some b
      → append_immutable a xs ≡ some (record { stored = b; created = false }, xs)
  unfolding append_immutable
  append_immutable_keeps_first a b xs h found = rw (named, found') refl
    where
      named : str_eq (k.id_of a) "" ≡ false
      named = ground (arith, eq_iff (k.id_of a) "")

      found' : find (has_key (k.tenant_of a) (k.id_of a)) xs ≡ some b
      found' = rw lookup-find at found

  -- A write to an append-only collection, under an identifier that is not empty and not taken, is
  -- created, and is what a read of that identifier returns.
  pub append_immutable_creates :
      (a : A) (xs : List A)
      → k.id_of a ≢ ""
      → lookup (k.tenant_of a) (k.id_of a) xs ≡ none
      → (append_immutable a xs ≡ some (record { stored = a; created = true }, xs ++ a ∷ []))
        × (lookup (k.tenant_of a) (k.id_of a) (xs ++ a ∷ []) ≡ some a)
  unfolding append_immutable
  append_immutable_creates a xs h fresh = (
    rw (named, fresh') refl,
    rw (lookup-find (k.tenant_of a) (k.id_of a) (xs ++ a ∷ [])) (
        rw (find-concat_fresh (has_key (k.tenant_of a) (k.id_of a)) a xs fresh', has_key_self a)
          refl),
  )
    where
      named : str_eq (k.id_of a) "" ≡ false
      named = ground (arith, eq_iff (k.id_of a) "")

      fresh' : find (has_key (k.tenant_of a) (k.id_of a)) xs ≡ none
      fresh' = rw lookup-find at fresh

  -- A record that a read of an append-only collection returns is what the same read returns after
  -- any write to the collection.
  pub lookup-append_immutable :
      (t n : String) (a c : A) (s : Stored A) (xs ys : List A)
      → append_immutable a xs ≡ some (s, ys)
      → lookup t n xs ≡ some c
      → lookup t n ys ≡ some c
  unfolding append_immutable
  lookup-append_immutable t n a c s xs ys h found = elim (Bool-cases (str_eq (k.id_of a) "")) [
    | inl e ↦ ground arith
    | inr e ↦ elim (Option-cases (find (has_key (k.tenant_of a) (k.id_of a)) xs)) [
      | inl fresh ↦
          let written : ys ≡ xs ++ a ∷ [] = ground arith in
          rw (written, lookup-find t n (xs ++ a ∷ []))
            (find-concat_found (has_key t n) a c xs (rw lookup-find at found))
      | inr (b, taken) ↦ let kept : ys ≡ xs = ground arith in rw kept found
    ]
  ]
