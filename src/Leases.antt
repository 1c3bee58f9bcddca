-- ===== src/Leases.antt =====
-- Automation leases: `acquireAutomationLease` and `releaseAutomationLease` of the two storage
-- classes of backend-api/patchforge/storage.js. Instants are milliseconds.
pub mod Steps
pub mod Backends
use diiac_patchforge.Prelude.{
  ℕ, ◌+◌, ◌*◌, Bool, true, false, not, ◌&&◌, ◌||◌, Option, none, some, List, [], ◌∷◌, String,
  str_eq, ltb, leb, or_else, if◌then◌else◌,
}
use diiac_patchforge.Store.{Keyed, lookup, replace_first, append_record, replace}

pub data LeaseStatus : Type 0 where
  active released : LeaseStatus

-- `expires_at` is `none` where the stored text is no date.
pub record Lease : Type 0 where
  pub tenant_id : String
  pub lease_id : String
  pub owner_id : String
  pub acquired_at : ℕ
  pub expires_at : Option ℕ
  pub status : LeaseStatus
  pub released_at : Option ℕ

instance abbrev pub lease_keyed : Keyed Lease
lease_keyed = record { tenant_of = λ l. l.tenant_id; id_of = λ l. l.lease_id }

abbrev pub is_active : LeaseStatus → Bool
is_active active = true
is_active released = false

-- positiveNumber(ttlMs, 5 * 60 * 1000)
abbrev positive_ttl : ℕ → ℕ
positive_ttl ttl = if ltb 0 ttl then ttl else 5 * 60 * 1000

-- the lease that both backends write
unfoldable pub new_lease : String → String → String → ℕ → ℕ → Lease
new_lease tenant name owner ttl now = record {
  tenant_id = tenant;
  lease_id = name;
  owner_id = owner;
  acquired_at = now;
  expires_at = some (now + positive_ttl ttl);
  status = active;
  released_at = none;
}

expires_after : Option ℕ → ℕ → Bool
expires_after none now = false
expires_after (some t) now = ltb now t

-- the test under which another owner's lease stands
unfoldable pub blocks : String → ℕ → Option Lease → Bool
unfolding expires_after
blocks owner now none = false
blocks owner now (some existing) =
    not (str_eq existing.owner_id owner)
    && expires_after existing.expires_at now
    && is_active existing.status

-- acquireAutomationLease of the JSON storage: the lease or `null`, and the leases after the call
unfoldable pub acquire : String → String → String → ℕ → ℕ → List Lease → Option Lease × List Lease
unfolding new_lease blocks
acquire tenant name owner ttl now leases =
    if blocks owner now (lookup tenant name leases) then (none, leases) else (
      some (new_lease tenant name owner ttl now),
      append_record (new_lease tenant name owner ttl now) leases,
    )

unfoldable pub is_owned : String → String → String → Lease → Bool
is_owned tenant name owner l =
    str_eq l.tenant_id tenant && str_eq l.lease_id name && str_eq l.owner_id owner

unfoldable pub mark_released : ℕ → Lease → Lease
mark_released now l = record l { status = released; released_at = some now }

-- releaseAutomationLease of the JSON storage
unfoldable pub release : String → String → String → ℕ → List Lease → List Lease × Option Lease
unfolding is_owned mark_released
release tenant name owner now leases =
    replace (is_owned tenant name owner) (mark_released now) leases

-- The `where` of the upsert in the PostgreSQL storage. An expiry that is no date is SQL's null, under
-- which the comparison does not hold.
expires_by : Option ℕ → ℕ → Bool
expires_by none now = false
expires_by (some t) now = leb t now

unfoldable pub yields : String → ℕ → Lease → Bool
unfolding expires_by
yields owner now existing =
    str_eq existing.owner_id owner
    || not (is_active existing.status)
    || expires_by existing.expires_at now

-- insert, or update the conflicting row if it yields
unfoldable pub upsert_if_yields : Lease → ℕ → List Lease → Option Lease → Option Lease × List Lease
unfolding yields
upsert_if_yields lease now leases none = (some lease, replace_first lease leases)
upsert_if_yields lease now leases (some existing) =
    if yields lease.owner_id now existing
    then (some lease, replace_first lease leases)
    else (none, leases)

-- acquireAutomationLease of the PostgreSQL storage. The table is keyed by tenant and name, and read
-- in the order of creation.
unfoldable pub pg_acquire :
    String → String → String → ℕ → ℕ → List Lease → Option Lease × List Lease
unfolding new_lease upsert_if_yields
pg_acquire tenant name owner ttl now leases =
    upsert_if_yields (new_lease tenant name owner ttl now) now leases (lookup tenant name leases)
