-- ===== src/Cycles/Worker/Laws.antt =====
-- What a worker cycle keeps (backend-api/patchforge/worker.js).
use diiac_patchforge.Prelude.{
  ℕ, ◌<◌, ◌≡◌, ◌⊎◌, Bool, true, false, List, [], ◌∷◌, ◌++◌, Option, none, some, String,
}
use diiac_patchforge.Store.{lookup}
use diiac_patchforge.Leases.{Lease, lease_keyed}
use diiac_patchforge.Automation.{Env, World, Audit, Reconciliation, put_audit, update, tick}
use diiac_patchforge.Automation.Pending.{Processing}
use diiac_patchforge.Automation.Health.{Health, ready, degraded}
use diiac_patchforge.Automation.Execute.Base.{read_clock}
use diiac_patchforge.Automation.Execute.Whole.{is_held_by}
use diiac_patchforge.Automation.Reconcile.{replay_limit}
use diiac_patchforge.Automation.Replays.{IsBounded, reconcile-IsBounded}
use diiac_patchforge.Automation.Replays.Execution.{Respects, run_pending-IsBounded}
use diiac_patchforge.Cycles.{take_cycle_lease, drop_cycle_lease}
use diiac_patchforge.Cycles.Worker.{
  WorkerOptions, WorkerStatus, completed, completed_with_warnings, contended, WorkerResult,
  worker_lease, now_of, report, cycle, with_lease, ask_lease, run_worker_once,
}

module _ (env : Env) (tenant : String) (o : WorkerOptions)
    (respects : Respects (replay_limit o.max_replays) env) where
  abbrev Kept : World → Type 0
  Kept w = IsBounded (replay_limit o.max_replays) w.db

  now_of-Kept : (at : Option ℕ) (w : World) → Kept w → Kept (now_of env at w).1
  unfolding now_of read_clock tick
  now_of-Kept none w b = b
  now_of-Kept (some now) w b = b

  cycle-Kept : (w : World) → Kept w → Kept (cycle env tenant o w).1
  unfolding cycle report update put_audit tick
  cycle-Kept w b =
      run_pending-IsBounded (replay_limit o.max_replays) env o.execution tenant respects o.limit _ _
        (now_of-Kept o.execution.fixed_now _
          (reconcile-IsBounded tenant o.max_replays _ _ (now_of-Kept o.execution.fixed_now w b)))

  with_lease-Kept : (p : Option Lease × World) → Kept p.1 → Kept (with_lease env tenant o p).1
  unfolding drop_cycle_lease update tick
  with_lease-Kept (none, w) b = b
  with_lease-Kept (some l, w) b = cycle-Kept w b

  -- If the client and the other workers replay nothing beyond the worker's limit, a whole cycle of
  -- the worker, whatever its outcome, leaves no item and no letter replayed beyond the limit, if none
  -- was before it.
  pub run_worker_once-IsBounded :
      (w : World)
      → IsBounded (replay_limit o.max_replays) w.db
      → IsBounded (replay_limit o.max_replays) (run_worker_once env tenant o w).1.db
  unfolding run_worker_once take_cycle_lease update
  run_worker_once-IsBounded w b =
      with_lease-Kept (ask_lease env tenant o (now_of env o.execution.fixed_now w))
        (now_of-Kept o.execution.fixed_now w b)

-- What the status of a cycle says of its batch and of the health at its end.
abbrev pub IsStatus : WorkerStatus → Processing → Health → Type 0
IsStatus s p h =
    ((s ≡ completed) × (p.dead_lettered_items ≡ 0) × (h.health_status ≡ ready))
    ⊎ ((s ≡ completed_with_warnings) × ((0 < p.dead_lettered_items) ⊎ (h.health_status ≡ degraded)))

-- What a cycle that has its lease reports and leaves.
pub record IsReport (tenant owner : String) (r : WorkerResult) (w : World) : Type 0 where
  pub now_run : r.deferred ≡ false
  pub run : Reconciliation
  pub has_run : r.reconciliation ≡ some run
  pub batch : Processing
  pub has_batch : r.processing ≡ some batch
  pub health : Health
  pub examined : r.health ≡ some health
  pub by_status : IsStatus r.status batch health
  pub before : List Audit
  pub audited :
      w.db.audits
      ≡ before
        ++ record {
          tenant_id = tenant;
          event_type = "automation_worker_cycle_completed";
          subject = owner;
          attempts = 0;
        }
          ∷ []
  pub given_back : is_held_by owner (lookup tenant (worker_lease tenant) w.db.leases) ≡ false

-- The ends of a cycle that began in a world, by whether its lease was contended.
abbrev pub Ends : String → String → Bool → World → WorkerResult × World → Type 0
Ends tenant owner is_held start (r, w) =
    ((is_held ≡ true) × (r ≡ contended) × (w.db ≡ start.db) × (w.requests ≡ start.requests))
    ⊎ ((is_held ≡ false) × IsReport tenant owner r w)
