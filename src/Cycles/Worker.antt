-- ===== src/Cycles/Worker.antt =====
-- One cycle of the automation worker: `runWorkerOnce` of backend-api/patchforge/worker.js.
pub mod Laws
use Prim.Native.String.{◌++◌}
use diiac_patchforge.Prelude.{
  ℕ, ◌*◌, Bool, true, false, ◌||◌, Option, none, some, String, if◌then◌else◌, ltb,
}
use diiac_patchforge.Prelude.Numbers.{JsNumber, bounded_number}
use diiac_patchforge.Leases.{Lease}
use diiac_patchforge.Automation.{
  Boundary, automation_boundary, Reconciliation, Audit, Db, Env, World, put_audit, tick, update,
}
use diiac_patchforge.Automation.Execute.Base.{ExecuteOptions, read_clock}
use diiac_patchforge.Automation.Pending.{Processing, run_pending}
use diiac_patchforge.Automation.Reconcile.{reconcile}
use diiac_patchforge.Automation.Health.{
  Health, HealthStatus, ready, degraded, SloOptions, automation_health,
}
use diiac_patchforge.Cycles.{take_cycle_lease, drop_cycle_lease}

-- The options after the defaults of the process environment. `execution` holds those that are handed
-- on to the work items: its owner is the worker, and its lease time the same option as the worker's.
pub record WorkerOptions : Type 0 where
  pub execution : ExecuteOptions
  pub max_replays : JsNumber
  pub limit : JsNumber
  pub objectives : SloOptions

pub data WorkerStatus : Type 0 where
  lease_contended completed completed_with_warnings : WorkerStatus

pub record WorkerResult : Type 0 where
  pub status : WorkerStatus
  pub deferred : Bool
  pub reconciliation : Option Reconciliation
  pub processing : Option Processing
  pub health : Option Health
  pub boundary : Boundary

abbrev pub worker_lease : String → String
worker_lease tenant = "automation-worker:" ++ tenant

abbrev pub worker_ttl : WorkerOptions → ℕ
worker_ttl o = bounded_number o.execution.lease_ttl (5 * 60 * 1000) 30000 (30 * 60 * 1000)

-- `options.now || new Date()`; a reading of the clock is a turn of the world
unfoldable pub now_of : Env → Option ℕ → World → ℕ × World
now_of env (some now) w = (now, w)
now_of env none w = read_clock env w

abbrev pub is_degraded : HealthStatus → Bool
is_degraded degraded = true
is_degraded ready = false

abbrev pub cycle_status : Processing → Health → WorkerStatus
cycle_status p h =
    if ltb 0 p.dead_lettered_items || is_degraded h.health_status
    then completed_with_warnings
    else completed

abbrev pub contended : WorkerResult
contended = record {
  status = lease_contended;
  deferred = true;
  reconciliation = none;
  processing = none;
  health = none;
  boundary = automation_boundary;
}

abbrev pub cycle_result : Reconciliation → Processing → Health → WorkerResult
cycle_result r p h = record {
  status = cycle_status p h;
  deferred = false;
  reconciliation = some r;
  processing = some p;
  health = some h;
  boundary = automation_boundary;
}

module _ (env : Env) (tenant : String) (o : WorkerOptions) where
  abbrev reconciled : ℕ × World → Reconciliation × World
  reconciled (now, w) = with_db (reconcile tenant o.max_replays now w.db) w
    where
      with_db : Reconciliation × Db → World → Reconciliation × World
      with_db (r, db) w = (r, record w { db = db })

  abbrev processed : ℕ × World → Processing × World
  processed (now, w) = run_pending env o.execution tenant o.limit now w

  -- the report and its audit event; the event names the worker
  unfoldable pub report : Reconciliation → Processing → World → WorkerResult × World
  report r p w = (
    cycle_result r p (automation_health tenant o.objectives (env.now w.turn) w.db),
    update
        (put_audit (record {
          tenant_id = tenant;
          event_type = "automation_worker_cycle_completed";
          subject = o.execution.owner_id;
          attempts = 0;
        }))
        (tick w),
  )

  abbrev pub after_processing : Reconciliation → Processing × World → WorkerResult × World
  after_processing r (p, w) = report r p w

  abbrev pub after_reconciliation : Reconciliation × World → WorkerResult × World
  after_reconciliation (r, w) = after_processing r (processed (now_of env o.execution.fixed_now w))

  unfoldable pub cycle : World → WorkerResult × World
  cycle w = after_reconciliation (reconciled (now_of env o.execution.fixed_now w))

  abbrev pub finally : WorkerResult × World → WorkerResult × World
  finally (r, w) = (r, drop_cycle_lease env tenant (worker_lease tenant) o.execution.owner_id w)

  abbrev pub with_lease : Option Lease × World → WorkerResult × World
  with_lease (none, w) = (contended, w)
  with_lease (some _, w) = finally (cycle w)

  abbrev pub ask_lease : ℕ × World → Option Lease × World
  ask_lease (now, w) =
      take_cycle_lease tenant (worker_lease tenant) o.execution.owner_id (worker_ttl o) now w

  -- runWorkerOnce
  unfoldable pub run_worker_once : World → WorkerResult × World
  run_worker_once w = with_lease (ask_lease (now_of env o.execution.fixed_now w))
