-- ===== src/Cycles/Scheduler/Refresh.antt =====
-- The feeds that a run of the scheduler refreshes (backend-api/patchforge/scheduler.js): the catalogue
-- first, then the scores of the vulnerabilities that matter most.
use diiac_patchforge.Prelude.{ℕ, Bool, false, Option, none, some, String, List, [], ◌∷◌, take}
use diiac_patchforge.Prelude.Numbers.{JsNumber, nan, bounded_number}
use diiac_patchforge.Automation.{Lineage, Work, work_keyed, checkpoint_keyed, Db, Env, World, tick}
use diiac_patchforge.Automation.Enqueue.{
  EnqueueOptions, Enqueued, unsupported, reused, created, enqueue,
}
use diiac_patchforge.Automation.Execute.{execute, Executed, rejected, finished}
use diiac_patchforge.Automation.Execute.Base.{ExecuteOptions, Execution}
use diiac_patchforge.Cycles.Scheduler.Gather.{
  Gathered, nothing_yet, record_incomplete_work, add_failure, keep_cisa_run, keep_epss_run,
  add_work,
}
use diiac_patchforge.Cycles.Scheduler.Priority.{Vulnerability, prioritized_cves}

-- The options after the defaults of the process environment, with the identifiers of the cycle, the
-- run and the owner of the lease as they are derived at the start.
pub record SchedulerOptions : Type 0 where
  pub cycle_id : String
  pub scheduler_run_id : String
  pub lease_owner : String
  pub cisa_limit : JsNumber
  pub epss_limit : JsNumber
  pub max_attempts : JsNumber
  pub lease_ttl : JsNumber
  pub base_delay : JsNumber
  pub max_delay : JsNumber
  pub force : Bool
  pub actor_tenant_id : String

-- schedulerLineage
abbrev scheduler_lineage : String → String → Lineage
scheduler_lineage tenant actor_tenant_id = record {
  actor_oid = some "patchforge-scheduler";
  actor_upn = some "patchforge-scheduler@diiac.io";
  actor_roles = "PatchForge.SystemScheduler" ∷ [];
  actor_tenant_id = some actor_tenant_id;
  effective_tenant_id = some tenant;
  requested_tenant_id = some tenant;
  tenant_id_source = some "scheduler_config";
  tenant_override_ignored = false;
}

-- `hash` is the digest of enqueueSourceFeedWork; `listed` the vulnerabilities of the tenant as they are
-- read at a turn of the world.
module _ (hash : String → String) (listed : ℕ → List Vulnerability) (env : Env) (tenant : String)
    (o : SchedulerOptions) where
  abbrev execute_options : ExecuteOptions
  execute_options = record {
    owner_id = o.lease_owner;
    lease_ttl = nan;
    base_delay = o.base_delay;
    max_delay = o.max_delay;
    dead_letter_retry = nan;
    fixed_now = none;
  }

  abbrev request : String → Option String → Option ℕ → ℕ → EnqueueOptions
  request feed cve limit now = record {
    feed_id = some feed;
    cve = cve;
    cycle_id = some o.cycle_id;
    idempotency_key = none;
    scheduler_run_id = some o.scheduler_run_id;
    limit = limit;
    max_attempts = o.max_attempts;
    lineage = scheduler_lineage tenant o.actor_tenant_id;
    now = now;
  }

  -- what is gathered from an execution; `keep_run` says where its result goes
  abbrev after_execute :
      (Execution → Gathered → Gathered)
      → Work
      → Gathered
      → Executed × World
      → Option Gathered × World
  after_execute keep_run work g (rejected, w) = (none, w)
  after_execute keep_run work g (finished e, w) =
      (some (record_incomplete_work e work (add_failure e.error (keep_run e g))), w)

  abbrev run_work :
      (Execution → Gathered → Gathered) → Gathered → Work → World → Option Gathered × World
  run_work keep_run g work w =
      after_execute keep_run work (add_work work.work_id g)
        (execute env execute_options tenant work w)

  abbrev after_enqueue :
      (Execution → Gathered → Gathered) → Gathered → Enqueued × Db → World → Option Gathered × World
  after_enqueue keep_run g (unsupported _, db) w = (none, w)
  after_enqueue keep_run g (reused work, db) w = run_work keep_run g work (record w { db = db })
  after_enqueue keep_run g (created work, db) w = run_work keep_run g work (record w { db = db })

  -- enqueue an item of a feed, and execute it
  unfoldable pub refresh :
      (Execution → Gathered → Gathered)
      → String
      → Option String
      → Option ℕ
      → Gathered
      → World
      → Option Gathered × World
  refresh keep_run feed cve limit g w =
      after_enqueue keep_run g (enqueue hash tenant (request feed cve limit (env.now w.turn)) w.db)
        (tick w)

  -- the loop over the prioritized identifiers; `none` once an error has been thrown
  unfoldable pub refresh_all : List String → Option Gathered × World → Option Gathered × World
  refresh_all cves (none, w) = (none, w)
  refresh_all [] (some g, w) = (some g, w)
  refresh_all (cve ∷ cves) (some g, w) =
      refresh_all cves (refresh keep_epss_run "first-epss" (some cve) none g w)

  abbrev epss_cves : World → List String
  epss_cves w = take (bounded_number o.epss_limit 10 1 50) (prioritized_cves (listed w.turn))

  abbrev after_cisa : Option Gathered × World → Option Gathered × World
  after_cisa (found, w) = refresh_all (epss_cves w) (found, tick w)

  unfoldable pub refresh_feeds : World → Option Gathered × World
  refresh_feeds w = after_cisa (
      refresh keep_cisa_run "cisa-kev" none (some (bounded_number o.cisa_limit 10 1 50)) nothing_yet
        w)
