-- ===== src/Leases/Steps.antt =====
-- Leases under interleaved calls of several owners (backend-api/patchforge/storage.js).
use diiac_patchforge.Prelude.{
  ℕ, ◌+◌, ◌<◌, ◌≡◌, ◌≢◌, refl, sym, ap, ◌∙◌, inl, inr, true, false, none, some, List, [], ◌∷◌,
  String, arith, eq_iff, eq_refl, Bool-cases, Option-cases, if◌then◌else◌, All, find_sound,
  some_inj,
}
use mathlib.Core.Option
use diiac_patchforge.Store.{has_key, lookup}
use diiac_patchforge.Store.Laws.{has_key_self, lookup-find, lookup-append_record, lookup-replace}
use diiac_patchforge.Leases.{
  Lease, lease_keyed, active, released, acquire, release, blocks, new_lease, is_owned,
  mark_released,
}

-- A call of either operation, by any owner, for any tenant and lease.
pub data Action : Type 0 where
  acquires releases : Action

pub record Call : Type 0 where
  pub action : Action
  pub tenant : String
  pub name : String
  pub owner : String
  pub ttl : ℕ
  pub now : ℕ

perform : Action → Call → List Lease → List Lease
perform acquires c leases = (acquire c.tenant c.name c.owner c.ttl c.now leases).1
perform releases c leases = (release c.tenant c.name c.owner c.now leases).0

pub run : List Call → List Lease → List Lease
unfolding perform
run [] leases = leases
run (c ∷ cs) leases = run cs (perform c.action c leases)

-- The lease of an owner that has not run out: the record that a read of its name returns.
pub record Holds (l : Lease) (expiry : ℕ) (leases : List Lease) : Type 0 where
  pub stored : lookup l.tenant_id l.lease_id leases ≡ some l
  pub expires : l.expires_at ≡ some expiry
  pub live : l.status ≡ active
  pub named : l.lease_id ≢ ""

blocks_other :
    (l : Lease) (expiry now : ℕ) (owner : String)
    → l.expires_at ≡ some expiry
    → l.status ≡ active
    → now < expiry
    → owner ≢ l.owner_id
    → blocks owner now (some l) ≡ true
unfolding blocks
blocks_other l expiry now owner e s h o = ground (arith, eq_iff l.owner_id owner)

-- While an owner's lease has not run out, no other owner gets it, and asking changes nothing.
pub acquire_excludes :
    (l : Lease) (expiry : ℕ) (leases : List Lease) (owner : String) (ttl now : ℕ)
    → Holds l expiry leases
    → now < expiry
    → owner ≢ l.owner_id
    → acquire l.tenant_id l.lease_id owner ttl now leases ≡ (none, leases)
unfolding acquire
acquire_excludes l expiry leases owner ttl now h before other =
    rw (h.stored, blocks_other l expiry now owner h.expires h.live before other) refl

has_key_iff :
    (t n : String) (l : Lease) → has_key t n l ≡ true → (l.tenant_id ≡ t) × (l.lease_id ≡ n)
unfolding has_key
has_key_iff t n l h = ground (arith, eq_iff l.tenant_id t, eq_iff l.lease_id n)

acquire-Holds :
    (l : Lease) (expiry : ℕ) (leases : List Lease) (t n owner : String) (ttl now : ℕ)
    → Holds l expiry leases
    → now < expiry
    → owner ≢ l.owner_id
    → lookup l.tenant_id l.lease_id (acquire t n owner ttl now leases).1 ≡ some l
unfolding acquire new_lease
acquire-Holds l expiry leases t n owner ttl now h before other =
    elim (Bool-cases (has_key l.tenant_id l.lease_id (new_lease t n owner ttl now))) [
      | inl e ↦
          let (et, en) = has_key_iff l.tenant_id l.lease_id (new_lease t n owner ttl now) e in
          rw (et, en, acquire_excludes l expiry leases owner ttl now h before other) h.stored
      | inr e ↦ elim (Bool-cases (blocks owner now (lookup t n leases))) [
        | inl b ↦ rw b h.stored
        | inr b ↦
            rw
              (
                b,
                lookup-append_record l.tenant_id l.lease_id (new_lease t n owner ttl now) leases
                    h.named,
                e,
              )
              h.stored
      ]
    ]

keeps_key : (t n : String) (now : ℕ) (l : Lease) → has_key t n (mark_released now l) ≡ has_key t n l
unfolding has_key mark_released
keeps_key t n now l = refl

not_owned : (t n owner : String) (l : Lease) → owner ≢ l.owner_id → is_owned t n owner l ≡ false
unfolding is_owned
not_owned t n owner l other = ground (arith, eq_iff l.owner_id owner)

release-Holds :
    (l : Lease) (expiry : ℕ) (leases : List Lease) (t n owner : String) (now : ℕ)
    → Holds l expiry leases
    → owner ≢ l.owner_id
    → lookup l.tenant_id l.lease_id (release t n owner now leases).0 ≡ some l
unfolding release
release-Holds l expiry leases t n owner now h other = rw (
  lookup-replace l.tenant_id l.lease_id (is_owned t n owner) (mark_released now) leases
      (keeps_key l.tenant_id l.lease_id now),
  h.stored,
  not_owned t n owner l other,
)

perform-Holds :
    (l : Lease) (expiry : ℕ) (c : Call) (action : Action) (leases : List Lease)
    → Holds l expiry leases
    → (c.now < expiry) × (c.owner ≢ l.owner_id)
    → Holds l expiry (perform action c leases)
unfolding perform
perform-Holds l expiry c acquires leases h (before, other) = record {
  stored = acquire-Holds l expiry leases c.tenant c.name c.owner c.ttl c.now h before other;
  expires = h.expires;
  live = h.live;
  named = h.named;
}
perform-Holds l expiry c releases leases h (before, other) = record {
  stored = release-Holds l expiry leases c.tenant c.name c.owner c.now h other;
  expires = h.expires;
  live = h.live;
  named = h.named;
}

-- Whatever the other owners call before a lease expires, in whatever order, for whatever tenants and
-- leases, the lease stays stored as it is: no one takes it over or releases it.
pub run-Holds :
    (l : Lease) (expiry : ℕ) (calls : List Call) (leases : List Lease)
    → Holds l expiry leases
    → All (λ c. (c.now < expiry) × (c.owner ≢ l.owner_id)) calls
    → Holds l expiry (run calls leases)
unfolding run
run-Holds l expiry [] leases h hs = h
run-Holds l expiry (c ∷ cs) leases h hs =
    run-Holds l expiry cs (perform c.action c leases)
      (perform-Holds l expiry c c.action leases h hs.0) hs.1

-- An owner that asks for a named lease for a positive time, where no live lease of another owner
-- stands against it, gets the lease for that time, and the lease is then stored as held.
pub acquire_grants :
    (t n owner : String) (ttl now : ℕ) (leases : List Lease)
    → n ≢ ""
    → 0 < ttl
    → blocks owner now (lookup t n leases) ≡ false
    → ((acquire t n owner ttl now leases).0 ≡ some (new_lease t n owner ttl now))
      × Holds (new_lease t n owner ttl now) (now + ttl) (acquire t n owner ttl now leases).1
unfolding acquire new_lease
acquire_grants t n owner ttl now leases named asked free = (
  rw free,
  record {
    stored =
        rw
          (
            free,
            lookup-append_record t n (new_lease t n owner ttl now) leases named,
            has_key_self (new_lease t n owner ttl now),
          )
          refl;
    expires = ground arith;
    live = refl;
    named = named;
  },
)

released_blocks_none :
    (other : String) (now released_at : ℕ) (l : Lease)
    → blocks other now (some (mark_released released_at l)) ≡ false
unfolding blocks mark_released
released_blocks_none other now released_at l = ground arith

-- After the owner of a held lease has released it, the lease stands against nobody.
pub acquire-release :
    (l : Lease) (expiry : ℕ) (leases : List Lease) (other : String) (released_at now : ℕ)
    → Holds l expiry leases
    → blocks other now (
        lookup l.tenant_id l.lease_id
          (release l.tenant_id l.lease_id l.owner_id released_at leases).0)
      ≡ false
unfolding release
acquire-release l expiry leases other released_at now h =
    rw
      (
        lookup-replace l.tenant_id l.lease_id (is_owned l.tenant_id l.lease_id l.owner_id)
            (mark_released released_at) leases (keeps_key l.tenant_id l.lease_id released_at),
        h.stored,
        owned,
      )
      (released_blocks_none other now released_at l)
  where
    owned : is_owned l.tenant_id l.lease_id l.owner_id l ≡ true
    owned = ground (arith, eq_refl l.tenant_id, eq_refl l.lease_id, eq_refl l.owner_id)

owned_by_key :
    (t n o : String) (l : Lease) → has_key t n l ≡ true → l.owner_id ≡ o → is_owned t n o l ≡ true
unfolding has_key is_owned
owned_by_key t n o l h e = ground (arith, eq_iff l.owner_id o)

released_of_owned :
    (t n o : String) (now : ℕ) (l0 l : Lease)
    → has_key t n l0 ≡ true
    → (if is_owned t n o l0 then mark_released now l0 else l0) ≡ l
    → l.owner_id ≡ o
    → l.status ≡ released
unfolding mark_released
released_of_owned t n o now l0 l key e owner = elim (Bool-cases (is_owned t n o l0)) [
  | inl h ↦ ground arith
  | inr h ↦
      let same : l0 ≡ l = rw h at e in
      cc (owned_by_key t n o l0 key (ap (λ (x : Lease). x.owner_id) same ∙ owner), h)
]

-- After a release, a lease under that name that is still its caller's is not live.
pub release-released :
    (t n o : String) (now : ℕ) (leases : List Lease) (l : Lease)
    → lookup t n (release t n o now leases).0 ≡ some l
    → l.owner_id ≡ o
    → l.status ≡ released
unfolding release
release-released t n o now leases l found owner =
    let mapped : Option.map (λ x. if is_owned t n o x then mark_released now x else x)
          (lookup t n leases)
        ≡ some l =
      rw (← lookup-replace t n (is_owned t n o) (mark_released now) leases (keeps_key t n now))
        found in
    elim (Option-cases (lookup t n leases)) [
      | inl e ↦ let gone = rw e at mapped in cc gone
      | inr (l0, e) ↦
          released_of_owned t n o now l0 l
            (find_sound (has_key t n) leases (sym (lookup-find t n leases) ∙ e))
            (some_inj (rw e at mapped)) owner
    ]
