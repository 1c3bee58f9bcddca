-- ===== src/Cycles/Scheduler.antt =====
-- One run of the scheduler: `runSchedulerOnce` of backend-api/patchforge/scheduler.js.
pub mod Priority
pub mod Gather
pub mod Refresh
pub mod Sweeps
pub mod Claims
pub mod Laws
pub mod Reruns
use Prim.Native.String.{◌++◌ as str_append}
use diiac_patchforge.Prelude.{
  ℕ, ◌*◌, Bool, true, false, not, ◌&&◌, ◌||◌, Option, none, some, String, List, [], ◌∷◌, ◌++◌, map,
  str_eq, if◌then◌else◌, ltb, keep, any, find, length, take, is_some,
}
use diiac_patchforge.Prelude.Numbers.{JsNumber, nan, bounded_number, of_ℕ}
use diiac_patchforge.Prelude.Texts.{member}
use diiac_patchforge.Store.{list_for}
use diiac_patchforge.Leases.{Lease}
use diiac_patchforge.Automation.{
  Boundary, automation_boundary, Lineage, WorkStatus, Work, work_keyed, Checkpoint,
  checkpoint_keyed, Failure, instant, FeedResult, Audit, Db, Env, World, put_checkpoint, put_audit,
  tick, update,
}
use diiac_patchforge.Automation.Enqueue.{
  EnqueueOptions, Enqueued, unsupported, reused, created, enqueue,
}
use diiac_patchforge.Automation.Execute.{execute, Executed, rejected, finished}
use diiac_patchforge.Automation.Execute.Base.{
  ExecuteOptions, Execution, Reason, is_completed, read_clock,
}
use diiac_patchforge.Cycles.{take_cycle_lease, drop_cycle_lease}
use Gather.{
  Gathered, nothing_yet, record_incomplete_work, add_failure, keep_cisa_run, keep_epss_run,
  add_work, sweep, is_incomplete,
}
use Priority.{Vulnerability}
use Refresh.{SchedulerOptions, refresh_feeds}

pub data SchedulerStatus : Type 0 where
  running lease_contended skipped_idempotent incomplete completed_with_warnings completed :
      SchedulerStatus

pub record SchedulerResult : Type 0 where
  pub status : SchedulerStatus
  pub gathered : Gathered
  pub deferred : Bool
  pub completed_at : Option ℕ
  pub reused_checkpoint : Option Checkpoint

-- `threw` is an error that leaves the run: an item that no worker may run
pub data Ran : Type 0 where
  threw : Ran
  gave : SchedulerResult → Ran

abbrev pub ended : SchedulerStatus → ℕ → SchedulerResult
ended status now = record {
  status = status;
  gathered = nothing_yet;
  deferred = false;
  completed_at = some now;
  reused_checkpoint = none;
}

abbrev has_warning : Option FeedResult → Bool
has_warning none = false
has_warning (some r) = str_eq r.feed_status "completed_with_warnings"

abbrev pub feed_warnings : List Work → Gathered → Bool
feed_warnings works g =
    has_warning g.cisa_run
    || any (λ r. has_warning (some r)) g.epss_runs
    || any (λ w. has_warning w.result) works

abbrev pub status_of_run : List Work → Gathered → SchedulerStatus
status_of_run works g =
    if is_incomplete g
    then incomplete
    else if feed_warnings works g || any (λ _. true) g.failures
    then completed_with_warnings
    else completed

abbrev pub status_name : SchedulerStatus → String
status_name completed = "completed"
status_name completed_with_warnings = "completed_with_warnings"
status_name incomplete = "incomplete"
status_name skipped_idempotent = "skipped_idempotent"
status_name lease_contended = "lease_contended"
status_name running = "running"

abbrev pub cycle_checkpoint_id : SchedulerOptions → String
cycle_checkpoint_id o = str_append "scheduler-cycle-" o.cycle_id

abbrev pub scheduler_lease : String → String
scheduler_lease tenant = str_append "scheduler:" tenant

abbrev pub scheduler_ttl : SchedulerOptions → ℕ
scheduler_ttl o = bounded_number o.lease_ttl (30 * 60 * 1000) 60000 (2 * 60 * 60 * 1000)

abbrev pub run_result : List Work → Gathered → ℕ → SchedulerResult
run_result works g now = record {
  status = status_of_run works g;
  gathered = g;
  deferred = is_incomplete g;
  completed_at = if is_incomplete g then none else some now;
  reused_checkpoint = none;
}

module _ (tenant : String) (o : SchedulerOptions) where
  unfoldable pub cycle_work : Db → List Work
  cycle_work db = keep (λ work. str_eq work.cycle_id o.cycle_id) (list_for tenant db.work_items)

  unfoldable pub cycle_checkpoint : SchedulerStatus → ℕ → Checkpoint
  cycle_checkpoint status now = record {
    tenant_id = tenant;
    checkpoint_id = cycle_checkpoint_id o;
    feed_id = none;
    cve = none;
    cursor = some (instant now);
    last_completed_work_id = none;
    completed_at = some now;
    result_status = status_name status;
    boundary = record automation_boundary { review_required = false };
  }

  abbrev pub run_audit : Gathered → Audit
  run_audit g = record {
    tenant_id = tenant;
    event_type =
        if is_incomplete g
        then "scheduler_source_refresh_incomplete"
        else "scheduler_source_refresh_completed";
    subject = o.scheduler_run_id;
    attempts = 0;
  }

  -- a checkpoint is a claim that the cycle is complete
  abbrev pub store_checkpoint : List Work → Gathered → ℕ → Db → Db
  store_checkpoint works g now db =
      if is_incomplete g
      then db
      else put_checkpoint (cycle_checkpoint (status_of_run works g) now) db

  abbrev is_done : Checkpoint → Bool
  is_done c =
      str_eq c.checkpoint_id (cycle_checkpoint_id o)
      && member c.result_status ("completed" ∷ "completed_with_warnings" ∷ [])

  unfoldable pub existing_cycle : Db → Option Checkpoint
  existing_cycle db = find is_done (list_for tenant db.checkpoints)

-- `hash` is the digest of enqueueSourceFeedWork; `listed` the vulnerabilities of the tenant as they are
-- read at a turn of the world.
module _ (hash : String → String) (listed : ℕ → List Vulnerability) (env : Env) (tenant : String)
    (o : SchedulerOptions) where
  -- the end of a run, with what it gathered after the sweep
  unfoldable pub conclude : List Work → Gathered → World → SchedulerResult × World
  conclude works g w = (
    run_result works g (env.now w.turn),
    update
        (λ db.
          put_audit (run_audit tenant o g) (store_checkpoint tenant o works g (env.now w.turn) db))
        (tick w),
  )

  abbrev gave_of : SchedulerResult × World → Ran × World
  gave_of (r, w) = (gave r, w)

  abbrev pub after_feeds : Option Gathered × World → Ran × World
  after_feeds (none, w) = (threw, w)
  after_feeds (some g, w) =
      gave_of (conclude (cycle_work tenant o w.db) (sweep (cycle_work tenant o w.db) g) w)

  abbrev pub skip_or_run : Option Checkpoint → World → Ran × World
  skip_or_run none w = after_feeds (refresh_feeds hash listed env tenant o w)
  skip_or_run (some c) w =
      if not o.force
      then (
        gave (record (ended skipped_idempotent (env.now w.turn)) { reused_checkpoint = some c }),
        tick w,
      )
      else after_feeds (refresh_feeds hash listed env tenant o w)

  abbrev pub finally : Ran × World → Ran × World
  finally (r, w) = (r, drop_cycle_lease env tenant (scheduler_lease tenant) o.lease_owner w)

  abbrev pub with_lease : Option Lease × World → Ran × World
  with_lease (none, w) =
      (gave (record (ended lease_contended (env.now w.turn)) { deferred = true }), tick w)
  with_lease (some _, w) = finally (skip_or_run (existing_cycle tenant o w.db) w)

  -- runSchedulerOnce, from the reading of the clock at its start
  unfoldable pub run_scheduler_once : World → Ran × World
  run_scheduler_once w = with_lease (
      take_cycle_lease tenant (scheduler_lease tenant) o.lease_owner (scheduler_ttl o)
        (env.now w.turn) (tick w))
