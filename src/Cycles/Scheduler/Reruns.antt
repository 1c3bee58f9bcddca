-- ===== src/Cycles/Scheduler/Reruns.antt =====
-- A second run of a cycle (backend-api/patchforge/scheduler.js).
use diiac_patchforge.Prelude.{
  ℕ, ◌≡◌, ◌⊎◌, inl, inr, Bool, true, false, Option, none, some, is_some, String, List,
}
use diiac_patchforge.Store.{lookup}
use diiac_patchforge.Leases.{Lease, lease_keyed}
use diiac_patchforge.Automation.{Checkpoint, Env, World, tick}
use diiac_patchforge.Automation.Execute.Whole.{is_held_by}
use diiac_patchforge.Cycles.{drop_cycle_lease-released, take_cycle_lease-none}
use diiac_patchforge.Cycles.Scheduler.{
  Ran, threw, gave, lease_contended, skipped_idempotent, with_lease, run_scheduler_once,
  scheduler_lease, scheduler_ttl,
}
use diiac_patchforge.Cycles.Scheduler.Refresh.{SchedulerOptions}
use diiac_patchforge.Cycles.Scheduler.Priority.{Vulnerability}

-- The client was not called, and no item of work changed.
abbrev pub IsQuiet : World → World → Type 0
IsQuiet start w = (w.requests ≡ start.requests) × (w.db.work_items ≡ start.db.work_items)

-- The answer to a run of a cycle that is complete: that another owner holds the lease, or that the
-- cycle is skipped, with the checkpoint that marks it as done.
abbrev pub Skips : Bool → Option Checkpoint → Ran → Type 0
Skips is_held found threw = ⊥
Skips is_held found (gave r) =
    ((is_held ≡ true) × (r.status ≡ lease_contended) × (r.reused_checkpoint ≡ none))
    ⊎ ((is_held ≡ false)
        × (r.status ≡ skipped_idempotent)
        × (is_some r.reused_checkpoint ≡ true)
        × (r.reused_checkpoint ≡ found))

-- that answer, and nothing else
abbrev pub IsSkipped : Bool → Option Checkpoint → World → Ran × World → Type 0
IsSkipped is_held found start (r, w) = Skips is_held found r × IsQuiet start w

module _ (hash : String → String) (listed : ℕ → List Vulnerability) (env : Env) (tenant : String)
    (o : SchedulerOptions) where
  -- The ends of a run of the scheduler: the lease is refused and the store is as it was, or the run
  -- does not keep its lease, also where an error leaves it.
  pub run_scheduler_once_ends :
      (w : World)
      → ((run_scheduler_once hash listed env tenant o w).1.db ≡ w.db)
        ⊎ (is_held_by o.lease_owner (
              lookup tenant
                (scheduler_lease tenant)
                (run_scheduler_once hash listed env tenant o w).1.db.leases)
            ≡ false)
  unfolding run_scheduler_once tick
  run_scheduler_once_ends w = ends _ _ (
      take_cycle_lease-none tenant (scheduler_lease tenant) o.lease_owner (scheduler_ttl o)
        (env.now w.turn) (tick w))
    where
      ends :
          (p : Option Lease × World) (start : World)
          → (p ≡ (none, start)) ⊎ ((l : Lease) × (p.0 ≡ some l))
          → ((with_lease hash listed env tenant o p).1.db ≡ start.db)
            ⊎ (is_held_by o.lease_owner (
                  lookup tenant
                    (scheduler_lease tenant)
                    (with_lease hash listed env tenant o p).1.db.leases)
                ≡ false)
      ends (none, w') start (inl e) = inl (λ i. (e i).1.db)
      ends (none, w') start (inr (l, e)) = cc
      ends (some l, w') start h =
          inr (drop_cycle_lease-released env tenant (scheduler_lease tenant) o.lease_owner _)
