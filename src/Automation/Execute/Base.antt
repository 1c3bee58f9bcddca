-- ===== src/Automation/Execute/Base.antt =====
-- The parts of one run of `executeSourceFeedWork` (backend-api/patchforge/automationWork.js): its
-- options, its answer, and the tests before it.
use Prim.Native.String.{◌++◌}
use diiac_patchforge.Prelude.{ℕ, Bool, true, false, ◌&&◌, Option, none, some, String}
use diiac_patchforge.Prelude.Numbers.{JsNumber, bounded_number, of_ℕ}
use diiac_patchforge.Prelude.Texts.{member}
use diiac_patchforge.Automation.{
  Audit, WorkStatus, completed, dead_lettered, quarantined, FeedResult, Work, Checkpoint, Failure,
  DeadLetter, work_keyed, Env, World, tick,
}
use diiac_patchforge.Automation.Enqueue.{allowed_work_kinds, allowed_feeds}

-- `none` stands for `options.now` left out.
pub record ExecuteOptions : Type 0 where
  pub owner_id : String
  pub lease_ttl : JsNumber
  pub base_delay : JsNumber
  pub max_delay : JsNumber
  pub dead_letter_retry : JsNumber
  pub fixed_now : Option ℕ

pub data Reason : Type 0 where
  reconciliation_required lease_contended lease_lost_before_retry lease_lost_after_retry_delay :
      Reason

pub record Execution : Type 0 where
  pub work_item : Work
  pub idempotent_reuse : Bool
  pub result : Option FeedResult
  pub checkpoint : Option Checkpoint
  pub dead_letter : Option DeadLetter
  pub error : Option Failure
  pub skipped : Bool
  pub deferred : Option Reason

-- an answer with a work item and no result
abbrev pub plain : Work → Execution
plain work = record {
  work_item = work;
  idempotent_reuse = false;
  result = none;
  checkpoint = none;
  dead_letter = none;
  error = none;
  skipped = false;
  deferred = none;
}

abbrev pub deferred_by : Reason → Work → Execution
deferred_by reason work = record (plain work) { deferred = some reason }

-- assertAllowedWork
unfoldable pub is_allowed : Work → Bool
is_allowed work = member work.work_kind allowed_work_kinds && member work.feed_id allowed_feeds

-- boundedNumber(current.max_attempts, 3, 1, 8)
unfoldable pub attempt_limit : Work → ℕ
attempt_limit work = bounded_number (of_ℕ work.max_attempts) 3 1 8

abbrev pub lease_name : Work → String
lease_name work = "automation-work:" ++ work.work_id

abbrev pub is_completed : WorkStatus → Bool
is_completed completed = true
is_completed _ = false

-- ["dead_lettered", "quarantined"].includes(status)
abbrev pub is_terminal : WorkStatus → Bool
is_terminal dead_lettered = true
is_terminal quarantined = true
is_terminal _ = false

-- a reading of the clock
unfoldable pub read_clock : Env → World → ℕ × World
unfolding tick
read_clock env w = (env.now w.turn, tick w)

-- what one round of the loop comes to: an answer, or one more round with the item as it is now
pub data Round : Type 0 where
  answer : Execution → Round
  again : Work → Round

abbrev pub answered : Execution × World → Round × World
answered (e, w) = (answer e, w)

abbrev pub audit_of : String → String → Work → ℕ → Audit
audit_of tenant event_type work attempt = record {
  tenant_id = tenant;
  event_type = event_type;
  subject = work.work_id;
  attempts = attempt;
}
