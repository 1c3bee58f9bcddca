-- ===== src/Scenarios.antt =====
-- Test data for backend-api/patchforge/automationWork.js and backend-api/patchforge/storage.js: one
-- tenant with a work item, a lease and dead letters, and a source-feed client that answers or throws.
pub mod Workers
pub mod Stores
pub mod Flags
pub mod Reviews
pub mod Transitions
pub mod Access
pub mod Fetches
pub mod Postures
pub mod Runs
pub mod Files
pub mod Cleanups
pub mod Comparisons
use diiac_patchforge.Prelude.{
  ℕ, suc, ◌+◌, ◌*◌, ◌≡◌, ◌≢◌, arith, str_eq, eq_iff, Bool, true, false, Option, none, some, String,
  List, [], ◌∷◌, if◌then◌else◌,
}
use diiac_patchforge.Prelude.Numbers.{of_ℕ, nan}
use diiac_patchforge.Leases.{Lease, active}
use diiac_patchforge.Automation.{
  Lineage, automation_boundary, Work, pending, DeadLetter, DeadStatus, open_letter, Db, Env, World,
  FeedResult, ErrorInfo, Outcome, returned, thrown,
}
use diiac_patchforge.Automation.Enqueue.{EnqueueOptions}
use diiac_patchforge.Automation.Execute.Base.{ExecuteOptions}

abbrev pub nobody : Lineage
nobody = record {
  actor_oid = none;
  actor_upn = none;
  actor_roles = [];
  actor_tenant_id = none;
  effective_tenant_id = none;
  requested_tenant_id = none;
  tenant_id_source = none;
  tenant_override_ignored = false;
}

abbrev pub kev_item : Work
kev_item = record {
  tenant_id = "acme";
  work_id = "w1";
  work_kind = "source_feed_refresh";
  idempotency_key = "k1";
  cycle_id = "manual";
  scheduler_run_id = none;
  feed_id = "cisa-kev";
  cve = none;
  requested_limit = none;
  checkpoint_id = "c1";
  previous_cursor = none;
  status = pending;
  attempts = 1;
  max_attempts = 3;
  replay_count = 1;
  created_at = 1000;
  updated_at = 1000;
  lease_id = none;
  lease_owner = none;
  started_at = none;
  completed_at = none;
  next_retry_at = none;
  last_failure_id = none;
  dead_letter_id = none;
  recovery_reason = none;
  result = none;
  lineage = nobody;
  boundary = automation_boundary;
}

abbrev pub deploy_item : Work
deploy_item = record kev_item { work_id = "w2"; work_kind = "patch_deployment" }

abbrev pub kev_lease : Lease
kev_lease = record {
  tenant_id = "acme";
  lease_id = "automation-work:w1";
  owner_id = "worker-a";
  acquired_at = 0;
  expires_at = some 5000;
  status = active;
  released_at = none;
}

abbrev pub kev_letter : DeadLetter
kev_letter = record {
  tenant_id = "acme";
  dead_letter_id = "dead-w1";
  work_id = "w1";
  work_kind = "source_feed_refresh";
  feed_id = some "cisa-kev";
  cve = none;
  status = open_letter;
  replay_count = 1;
  last_failure_id = none;
  last_error = "HTTP 503";
  dead_lettered_at = some 900;
  next_retry_at = some 2000;
  quarantined_at = none;
  replay_scheduled_at = none;
}

abbrev pub empty_db : Db
empty_db = record {
  work_items = [];
  checkpoints = [];
  failures = [];
  dead_letters = [];
  leases = [];
  reconciliations = [];
  audits = [];
}

abbrev pub one_item : Db
one_item = record empty_db { work_items = kev_item ∷ [] }

abbrev pub one_letter : Db
one_letter = record one_item { dead_letters = kev_letter ∷ [] }

abbrev pub start : Db → World
start db = record { db = db; turn = 0; requests = [] }

abbrev pub kev_result : FeedResult
kev_result = record {
  feed_status = "ok";
  catalog_version = some "2026.01";
  date_released = none;
  feed_completed_at = none;
}

abbrev pub outage : ErrorInfo
outage = record { code = some "HTTP_503"; name = none; message = "unavailable" }

-- A client with a constant answer, and a clock that advances by a second at each interaction.
abbrev pub answering : Outcome → Env
answering outcome = record {
  refresh = λ n body db. (outcome, db);
  now = λ n. 1000 * n;
  random = λ n. 0;
  sleep = λ n ms db. db;
}

abbrev pub options : ExecuteOptions
options = record {
  owner_id = "worker-a";
  lease_ttl = nan;
  base_delay = nan;
  max_delay = nan;
  dead_letter_retry = nan;
  fixed_now = none;
}

abbrev pub kev_request : EnqueueOptions
kev_request = record {
  feed_id = some "cisa-kev";
  cve = none;
  cycle_id = none;
  idempotency_key = none;
  scheduler_run_id = none;
  limit = none;
  max_attempts = nan;
  lineage = nobody;
  now = 7;
}

-- two texts that the test tells apart
pub differ : (a b : String) → str_eq a b ≡ false → a ≢ b
differ a b h e = ground (arith, eq_iff a b)
