-- ===== src/Cycles.antt =====
-- The two processes that run cycles of automation (backend-api/patchforge/worker.js and
-- backend-api/patchforge/scheduler.js): the lease that one cycle takes and gives back.
pub mod Worker
pub mod Scheduler
use diiac_patchforge.Prelude.{
  ℕ, ◌≡◌, refl, ◌⊎◌, inl, inr, Bool, true, false, Bool-cases, Option, none, some, String, List,
}
use diiac_patchforge.Store.{lookup}
use diiac_patchforge.Leases.{Lease, lease_keyed, acquire, release, blocks, new_lease}
use diiac_patchforge.Leases.Steps.{release-released}
use diiac_patchforge.Automation.{Db, Env, World, tick, update}
use diiac_patchforge.Automation.Execute.Whole.{is_held_by, not_held}

abbrev with_leases : Option Lease × List Lease → World → Option Lease × World
with_leases (lease, leases) w = (lease, update (λ db. record db { leases = leases }) w)

-- acquireAutomationLease, for a cycle
unfoldable pub take_cycle_lease : String → String → String → ℕ → ℕ → World → Option Lease × World
unfolding update
take_cycle_lease tenant name owner ttl now w =
    with_leases (acquire tenant name owner ttl now w.db.leases) w

-- releaseAutomationLease at a reading of the clock, in the `finally` of a cycle
unfoldable pub drop_cycle_lease : Env → String → String → String → World → World
unfolding update tick
drop_cycle_lease env tenant name owner w =
    update (λ db. record db { leases = (release tenant name owner (env.now w.turn) db.leases).0 })
      (tick w)

-- Once given back, the lease of a cycle is not live in the hands of its owner.
pub drop_cycle_lease-released :
    (env : Env) (tenant name owner : String) (w : World)
    → is_held_by owner (lookup tenant name (drop_cycle_lease env tenant name owner w).db.leases)
      ≡ false
unfolding drop_cycle_lease update tick
drop_cycle_lease-released env tenant name owner w =
    not_held owner _ (release-released tenant name owner (env.now w.turn) w.db.leases)

-- Another owner's live lease stands against a request for the lease of a cycle.
unfoldable pub is_contended : String → String → String → ℕ → World → Bool
is_contended tenant name owner now w = blocks owner now (lookup tenant name w.db.leases)

-- A request for the lease of a cycle is refused, and changes nothing, exactly where it is contended.
pub take_cycle_lease-cases :
    (tenant name owner : String) (ttl now : ℕ) (w : World)
    → ((is_contended tenant name owner now w ≡ true)
        × (take_cycle_lease tenant name owner ttl now w ≡ (none, w)))
      ⊎ ((is_contended tenant name owner now w ≡ false)
          × ((l : Lease) × ((take_cycle_lease tenant name owner ttl now w).0 ≡ some l)))
unfolding take_cycle_lease acquire update is_contended
take_cycle_lease-cases tenant name owner ttl now w =
    elim (Bool-cases (blocks owner now (lookup tenant name w.db.leases))) [
      | inl e ↦ inl (e, rw e refl)
      | inr e ↦ inr (e, (new_lease tenant name owner ttl now, rw e refl))
    ]

-- A request for the lease of a cycle that is refused changes nothing.
pub take_cycle_lease-none :
    (tenant name owner : String) (ttl now : ℕ) (w : World)
    → (take_cycle_lease tenant name owner ttl now w ≡ (none, w))
      ⊎ ((l : Lease) × ((take_cycle_lease tenant name owner ttl now w).0 ≡ some l))
unfolding take_cycle_lease acquire update
take_cycle_lease-none tenant name owner ttl now w =
    elim (Bool-cases (blocks owner now (lookup tenant name w.db.leases))) [
      | inl e ↦ inl (rw e refl)
      | inr e ↦ inr (new_lease tenant name owner ttl now, rw e refl)
    ]
