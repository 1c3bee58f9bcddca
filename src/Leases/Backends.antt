-- ===== src/Leases/Backends.antt =====
-- The two storage classes agree on who gets a lease (backend-api/patchforge/storage.js).
use diiac_patchforge.Prelude.{
  ℕ, ◌≡◌, ◌≢◌, inl, inr, true, false, some, List, String, arith, str_eq, eq_iff, Bool-cases,
  Option-cases, is_some,
}
use diiac_patchforge.Store.{lookup, append_record}
use diiac_patchforge.Leases.{Lease, lease_keyed, acquire, pg_acquire, blocks, yields}

-- a lease stands against an owner exactly if it does not yield to it
yields-blocks :
    (owner : String) (now : ℕ) (l : Lease)
    → is_some l.expires_at ≡ true
    → yields owner now l ≡ true
    → blocks owner now (some l) ≡ false
unfolding yields blocks
yields-blocks owner now l h y = ground arith

not_yields-blocks :
    (owner : String) (now : ℕ) (l : Lease)
    → is_some l.expires_at ≡ true
    → yields owner now l ≡ false
    → blocks owner now (some l) ≡ true
unfolding yields blocks
not_yields-blocks owner now l h y = ground arith

-- For a named lease whose stored expiry, if it has one, is a date, the JSON storage and the
-- PostgreSQL storage give the same answer and leave the same leases.
pub acquire-eq-pg_acquire :
    (tenant name owner : String) (ttl now : ℕ) (leases : List Lease)
    → name ≢ ""
    → ((l : Lease) → lookup tenant name leases ≡ some l → is_some l.expires_at ≡ true)
    → acquire tenant name owner ttl now leases ≡ pg_acquire tenant name owner ttl now leases
unfolding acquire pg_acquire append_record
acquire-eq-pg_acquire tenant name owner ttl now leases named dated =
    elim (Option-cases (lookup tenant name leases)) [
      | inl e ↦ rw (e, name_test, blocks)
      | inr (l, e) ↦ elim (Bool-cases (yields owner now l)) [
        | inl y ↦ rw (e, y, yields-blocks owner now l (dated l e) y, name_test)
        | inr n ↦ rw (e, n, not_yields-blocks owner now l (dated l e) n)
      ]
    ]
  where
    name_test : str_eq name "" ≡ false
    name_test = ground (arith, eq_iff name "")
