-- ===== src/Automation/Enqueue.antt =====
-- `enqueueSourceFeedWork` of backend-api/patchforge/automationWork.js.
pub mod Laws
use Prim.Native.String.{◌++◌}
use diiac_patchforge.Prelude.{
  ℕ, Bool, true, false, Option, none, some, String, if◌then◌else◌, or_else,
}
use mathlib.Core.Option
use diiac_patchforge.Prelude.Numbers.{JsNumber, bounded_number}
use diiac_patchforge.Prelude.Texts.{member, upper, str_take}
use diiac_patchforge.Prelude.{List, [], ◌∷◌}
use diiac_patchforge.Store.{lookup}
use diiac_patchforge.Automation.{
  Lineage, automation_boundary, pending, Cursor, Work, Checkpoint, Db, work_keyed, checkpoint_keyed,
  put_work,
}

abbrev pub allowed_work_kinds : List String
allowed_work_kinds = "source_feed_refresh" ∷ []

abbrev pub allowed_feeds : List String
allowed_feeds = "cisa-kev" ∷ "first-epss" ∷ []

-- The options that the callers give. Absent values are `none`.
pub record EnqueueOptions : Type 0 where
  pub feed_id : Option String
  pub cve : Option String
  pub cycle_id : Option String
  pub idempotency_key : Option String
  pub scheduler_run_id : Option String
  pub limit : Option ℕ
  pub max_attempts : JsNumber
  pub lineage : Lineage
  pub now : ℕ

pub data Enqueued : Type 0 where
  unsupported : String → Enqueued
  reused : Work → Enqueued
  created : Work → Enqueued

abbrev pub feed_of : EnqueueOptions → String
feed_of o = or_else o.feed_id ""

abbrev pub cve_of : EnqueueOptions → Option String
cve_of o = Option.map upper o.cve

abbrev pub cycle_of : EnqueueOptions → String
cycle_of o = or_else o.cycle_id "manual"

-- `hash` is the SHA-256 digest of a text, in hexadecimal.
module _ (hash : String → String) where
  unfoldable pub idempotency_key_of : String → EnqueueOptions → String
  idempotency_key_of tenant o = or_else o.idempotency_key (
      "source-feed:"
      ++ tenant
      ++ ":"
      ++ cycle_of o
      ++ ":"
      ++ feed_of o
      ++ ":"
      ++ or_else (cve_of o) "catalogue")

  unfoldable pub work_id_of : String → EnqueueOptions → String
  work_id_of tenant o = "work-" ++ str_take 24 (hash (idempotency_key_of tenant o))

  unfoldable pub checkpoint_id_of : String → EnqueueOptions → String
  checkpoint_id_of tenant o =
      "checkpoint-"
      ++ str_take 24 (hash (tenant ++ ":" ++ feed_of o ++ ":" ++ or_else (cve_of o) "catalogue"))

  abbrev cursor_of : Option Checkpoint → Option Cursor
  cursor_of none = none
  cursor_of (some c) = c.cursor

  unfoldable pub new_work : String → EnqueueOptions → Db → Work
  new_work tenant o db = record {
    tenant_id = tenant;
    work_id = work_id_of tenant o;
    work_kind = "source_feed_refresh";
    idempotency_key = idempotency_key_of tenant o;
    cycle_id = cycle_of o;
    scheduler_run_id = o.scheduler_run_id;
    feed_id = feed_of o;
    cve = cve_of o;
    requested_limit = o.limit;
    checkpoint_id = checkpoint_id_of tenant o;
    previous_cursor = cursor_of (lookup tenant (checkpoint_id_of tenant o) db.checkpoints);
    status = pending;
    attempts = 0;
    max_attempts = bounded_number o.max_attempts 3 1 8;
    replay_count = 0;
    created_at = o.now;
    updated_at = o.now;
    lease_id = none;
    lease_owner = none;
    started_at = none;
    completed_at = none;
    next_retry_at = none;
    last_failure_id = none;
    dead_letter_id = none;
    recovery_reason = none;
    result = none;
    lineage = o.lineage;
    boundary = automation_boundary;
  }

  enqueue_new : Work → Option Work → Db → Enqueued × Db
  enqueue_new work none db = (created work, put_work work db)
  enqueue_new work (some existing) db = (reused existing, db)

  unfoldable pub enqueue : String → EnqueueOptions → Db → Enqueued × Db
  unfolding enqueue_new new_work
  enqueue tenant o db =
      if member (feed_of o) allowed_feeds
      then enqueue_new (new_work tenant o db) (lookup tenant (work_id_of tenant o) db.work_items) db
      else (unsupported (feed_of o), db)
