-- ===== src/Automation.antt =====
-- The automation store of backend-api/patchforge/automationWork.js: work items, checkpoints,
-- failures, dead letters and reconciliation runs, and the world in which a worker runs.
-- Instants are milliseconds; the ISO texts that the code stores stand for them.
pub mod Retry
pub mod Enqueue
pub mod Execute
pub mod Pending
pub mod Reconcile
pub mod Health
pub mod Replays
use diiac_patchforge.Prelude.{
  ℕ, suc, ◌+◌, Bool, true, false, Option, none, some, List, [], ◌∷◌, ◌++◌, String,
}
use diiac_patchforge.Prelude.Numbers.{JsNumber}
use diiac_patchforge.Store.{Keyed, append_record}
use diiac_patchforge.Leases.{Lease}

-- AUTOMATION_BOUNDARY
pub record Boundary : Type 0 where
  pub advisory_only : Bool
  pub source_bound : Bool
  pub review_required : Bool
  pub no_scanner : Bool
  pub no_exploit_generation : Bool
  pub no_patch_deployment : Bool
  pub no_production_mutation : Bool
  pub no_autonomous_approval : Bool
  pub no_autonomous_risk_acceptance : Bool

abbrev pub automation_boundary : Boundary
automation_boundary = record {
  advisory_only = true;
  source_bound = true;
  review_required = true;
  no_scanner = true;
  no_exploit_generation = true;
  no_patch_deployment = true;
  no_production_mutation = true;
  no_autonomous_approval = true;
  no_autonomous_risk_acceptance = true;
}

-- lineage(value); an absent text is `none`
pub record Lineage : Type 0 where
  pub actor_oid : Option String
  pub actor_upn : Option String
  pub actor_roles : List String
  pub actor_tenant_id : Option String
  pub effective_tenant_id : Option String
  pub requested_tenant_id : Option String
  pub tenant_id_source : Option String
  pub tenant_override_ignored : Bool

pub data WorkStatus : Type 0 where
  pending running retry_scheduled completed dead_lettered quarantined : WorkStatus

-- `cursor`: a version or date that the feed names, or the instant of completion
pub data Cursor : Type 0 where
  named : String → Cursor
  instant : ℕ → Cursor

-- what the source-feed client returns
pub record FeedResult : Type 0 where
  pub feed_status : String
  pub catalog_version : Option String
  pub date_released : Option String
  pub feed_completed_at : Option String

pub record Work : Type 0 where
  pub tenant_id : String
  pub work_id : String
  pub work_kind : String
  pub idempotency_key : String
  pub cycle_id : String
  pub scheduler_run_id : Option String
  pub feed_id : String
  pub cve : Option String
  pub requested_limit : Option ℕ
  pub checkpoint_id : String
  pub previous_cursor : Option Cursor
  pub status : WorkStatus
  pub attempts : ℕ
  pub max_attempts : ℕ
  pub replay_count : ℕ
  pub created_at : ℕ
  pub updated_at : ℕ
  pub lease_id : Option String
  pub lease_owner : Option String
  pub started_at : Option ℕ
  pub completed_at : Option ℕ
  pub next_retry_at : Option ℕ
  pub last_failure_id : Option String
  pub dead_letter_id : Option String
  pub recovery_reason : Option String
  pub result : Option FeedResult
  pub lineage : Lineage
  pub boundary : Boundary

pub record Checkpoint : Type 0 where
  pub tenant_id : String
  pub checkpoint_id : String
  pub feed_id : Option String
  pub cve : Option String
  pub cursor : Option Cursor
  pub last_completed_work_id : Option String
  pub completed_at : Option ℕ
  pub result_status : String
  pub boundary : Boundary

pub record Failure : Type 0 where
  pub tenant_id : String
  pub failure_id : String
  pub work_id : String
  pub work_kind : String
  pub feed_id : String
  pub cve : Option String
  pub attempt : ℕ
  pub error_class : String
  pub message : String
  pub failed_at : ℕ
  pub retryable : Bool
  pub boundary : Boundary

pub data DeadStatus : Type 0 where
  open_letter replay_scheduled quarantined : DeadStatus

-- A letter of a quarantined item has no feed, failure or retry time.
pub record DeadLetter : Type 0 where
  pub tenant_id : String
  pub dead_letter_id : String
  pub work_id : String
  pub work_kind : String
  pub feed_id : Option String
  pub cve : Option String
  pub status : DeadStatus
  pub replay_count : ℕ
  pub last_failure_id : Option String
  pub last_error : String
  pub dead_lettered_at : Option ℕ
  pub next_retry_at : Option ℕ
  pub quarantined_at : Option ℕ
  pub replay_scheduled_at : Option ℕ

-- The identifier of a run, made of the clock and a random text, is left out.
pub record Reconciliation : Type 0 where
  pub tenant_id : String
  pub completed_at : ℕ
  pub recovered_expired_leases : ℕ
  pub requeued : ℕ
  pub quarantined : ℕ
  pub boundary : Boundary

-- An audit event, without its random identifier and its time.
pub record Audit : Type 0 where
  pub tenant_id : String
  pub event_type : String
  pub subject : String
  pub attempts : ℕ

instance abbrev pub work_keyed : Keyed Work
work_keyed = record { tenant_of = λ w. w.tenant_id; id_of = λ w. w.work_id }

instance abbrev pub checkpoint_keyed : Keyed Checkpoint
checkpoint_keyed = record { tenant_of = λ c. c.tenant_id; id_of = λ c. c.checkpoint_id }

instance abbrev pub failure_keyed : Keyed Failure
failure_keyed = record { tenant_of = λ f. f.tenant_id; id_of = λ f. f.failure_id }

instance abbrev pub dead_letter_keyed : Keyed DeadLetter
dead_letter_keyed = record { tenant_of = λ d. d.tenant_id; id_of = λ d. d.dead_letter_id }

pub record Db : Type 0 where
  pub work_items : List Work
  pub checkpoints : List Checkpoint
  pub failures : List Failure
  pub dead_letters : List DeadLetter
  pub leases : List Lease
  pub reconciliations : List Reconciliation
  pub audits : List Audit

unfoldable pub put_work : Work → Db → Db
put_work x db = record db { work_items = append_record x db.work_items }

unfoldable pub put_checkpoint : Checkpoint → Db → Db
put_checkpoint x db = record db { checkpoints = append_record x db.checkpoints }

unfoldable pub put_failure : Failure → Db → Db
put_failure x db = record db { failures = append_record x db.failures }

unfoldable pub put_dead_letter : DeadLetter → Db → Db
put_dead_letter x db = record db { dead_letters = append_record x db.dead_letters }

-- runs and audit events have identifiers of their own, so they are added
unfoldable pub put_reconciliation : Reconciliation → Db → Db
put_reconciliation x db = record db { reconciliations = db.reconciliations ++ x ∷ [] }

unfoldable pub put_audit : Audit → Db → Db
put_audit x db = record db { audits = db.audits ++ x ∷ [] }

-- the body of a refresh request
pub record RefreshBody : Type 0 where
  pub feed_id : String
  pub cve : Option String
  pub limit : Option ℕ
  pub automation_work_id : String
  pub idempotency_key : String
  pub scheduler_run_id : Option String
  pub lineage : Lineage

pub record ErrorInfo : Type 0 where
  pub code : Option String
  pub name : Option String
  pub message : String

pub data Outcome : Type 0 where
  returned : FeedResult → Outcome
  thrown : ErrorInfo → Outcome

-- What surrounds a worker: the source-feed client, which reads and writes the store too; the clock;
-- random numbers, in units of 2^-53; and what the other workers do to the store while it sleeps.
-- Each is asked by the number of the interaction, so nothing is assumed of it.
pub record Env : Type 0 where
  pub refresh : ℕ → RefreshBody → Db → Outcome × Db
  pub now : ℕ → ℕ
  pub random : ℕ → ℕ
  pub sleep : ℕ → ℕ → Db → Db

-- `requests` is the trace of the calls of the client.
pub record World : Type 0 where
  pub db : Db
  pub turn : ℕ
  pub requests : List RefreshBody

unfoldable pub tick : World → World
tick w = record w { turn = suc w.turn }

unfoldable pub update : (Db → Db) → World → World
update f w = record w { db = f w.db }
