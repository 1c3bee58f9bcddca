-- ===== src/Automation/Health.antt =====
-- `automationHealth` of backend-api/patchforge/automationWork.js.
pub mod Laws
use diiac_patchforge.Prelude.{
  ℕ, zero, suc, ◌-◌, ◌*◌, Bool, true, false, not, ◌&&◌, ◌||◌, Option, none, some, String, List, [],
  ◌∷◌, ◌++◌, if◌then◌else◌, or_else, ltb, min, max, keep, length, count_if, ◌≡◌, is_some, map,
}
use diiac_patchforge.Prelude.Numbers.{JsNumber, bounded_number}
use diiac_patchforge.Store.{list_for, Keyed}
use diiac_patchforge.Automation.{
  Work, work_keyed, WorkStatus, pending, running, retry_scheduled, Checkpoint, checkpoint_keyed,
  DeadLetter, dead_letter_keyed, DeadStatus, open_letter, Reconciliation, Db,
}

pub data AlertCode : Type 0 where
  open_dead_letters quarantined_work backlog_slo_breached checkpoint_slo_breached
        checkpoint_missing :
      AlertCode

pub data Severity : Type 0 where
  high critical : Severity

-- `observed` is `count` or `observed_ms`; `threshold` is `none` for a count
pub record Alert : Type 0 where
  pub code : AlertCode
  pub severity : Severity
  pub observed : ℕ
  pub threshold : Option ℕ
  pub operator_action : String

abbrev pub is_backlog : WorkStatus → Bool
is_backlog pending = true
is_backlog retry_scheduled = true
is_backlog running = true
is_backlog _ = false

abbrev pub is_open : DeadStatus → Bool
is_open open_letter = true
is_open _ = false

abbrev pub is_quarantined : DeadStatus → Bool
is_quarantined DeadStatus.quarantined = true
is_quarantined _ = false

-- `item.created_at || item.updated_at`
abbrev pub time_of : Work → ℕ
time_of w = if ltb 0 w.created_at then w.created_at else w.updated_at

-- `Math.min(...times)`, over the times that are not 0; 0 where there is none
unfoldable pub oldest : List Work → ℕ
oldest [] = 0
oldest (w ∷ ws) =
    let rest = oldest ws in
    if not (ltb 0 (time_of w)) then rest else if ltb 0 rest then min (time_of w) rest else time_of w

abbrev later : Option ℕ → Option ℕ → Option ℕ
later none t = t
later (some a) none = some a
later (some a) (some b) = some (max a b)

-- the latest completion of a checkpoint; the ISO texts sort as the instants do
unfoldable pub latest : List Checkpoint → Option ℕ
latest [] = none
latest (c ∷ cs) = later c.completed_at (latest cs)

-- the latest completion among the reconciliation runs
unfoldable pub latest_run : List Reconciliation → Option ℕ
latest_run [] = none
latest_run (r ∷ rs) = later (some r.completed_at) (latest_run rs)

abbrev pub is_empty {ℓ} : {A : Type ℓ} → List A → Bool
is_empty [] = true
is_empty (_ ∷ _) = false

abbrev pub when : Bool → Alert → List Alert
when true a = a ∷ []
when false a = []

-- max(0, now - t)
abbrev pub age : ℕ → ℕ → ℕ
age now t = now - t

-- the age of the oldest of some work items; 0 where none has a time
unfoldable pub age_of_oldest : ℕ → List Work → ℕ
age_of_oldest now works = if ltb 0 (oldest works) then age now (oldest works) else 0

abbrev pub checkpoint_age : ℕ → Option ℕ → Option ℕ
checkpoint_age now none = none
checkpoint_age now (some t) = some (age now t)

abbrev pub review_schedule : String
review_schedule = "Review the scheduler and worker run ledger before claiming refresh success."

unfoldable pub checkpoint_alert : Option ℕ → List Work → ℕ → ℕ → List Alert
checkpoint_alert (some t) works now slo = when (ltb slo (age now t)) (record {
  code = checkpoint_slo_breached;
  severity = high;
  observed = age now t;
  threshold = some slo;
  operator_action = review_schedule;
})
checkpoint_alert none works now slo =
    when (not (is_empty works) && ltb slo (age_of_oldest now works)) (record {
      code = checkpoint_missing;
      severity = high;
      observed = age_of_oldest now works;
      threshold = some slo;
      operator_action = review_schedule;
    })

unfoldable pub backlog_of : List Work → List Work
backlog_of works = keep (λ w. is_backlog w.status) works

pub record SloOptions : Type 0 where
  pub backlog_slo : JsNumber
  pub checkpoint_slo : JsNumber

abbrev pub backlog_slo_ms : SloOptions → ℕ
backlog_slo_ms o = bounded_number o.backlog_slo (15 * 60 * 1000) 60000 (24 * 60 * 60 * 1000)

abbrev pub checkpoint_slo_ms : SloOptions → ℕ
checkpoint_slo_ms o =
    bounded_number o.checkpoint_slo (12 * 60 * 60 * 1000) (5 * 60 * 1000) (7 * 24 * 60 * 60 * 1000)

unfoldable pub open_letters : List DeadLetter → ℕ
open_letters letters = count_if (λ d. is_open d.status) letters

unfoldable pub quarantined_letters : List DeadLetter → ℕ
quarantined_letters letters = count_if (λ d. is_quarantined d.status) letters

unfoldable pub alerts_of :
    List Work → List DeadLetter → List Checkpoint → SloOptions → ℕ → List Alert
unfolding checkpoint_alert
alerts_of works letters checkpoints o now =
    when (ltb 0 (open_letters letters)) (record {
      code = open_dead_letters;
      severity = high;
      observed = open_letters letters;
      threshold = none;
      operator_action =
          "Inspect the recorded failure and upstream dependency before bounded replay.";
    })
    ++ (when (ltb 0 (quarantined_letters letters)) (record {
      code = quarantined_work;
      severity = critical;
      observed = quarantined_letters letters;
      threshold = none;
      operator_action =
          "Investigate poison work; do not delete the failure ledger to clear health.";
    })
        ++ (when
              (not (is_empty (backlog_of works))
                && ltb (backlog_slo_ms o) (age_of_oldest now (backlog_of works)))
              (record {
                code = backlog_slo_breached;
                severity = high;
                observed = age_of_oldest now (backlog_of works);
                threshold = some (backlog_slo_ms o);
                operator_action =
                    "Confirm worker lease ownership, upstream availability, and checkpoint progress.";
              })
            ++ checkpoint_alert (latest checkpoints) works now (checkpoint_slo_ms o)))

pub data HealthStatus : Type 0 where
  ready degraded : HealthStatus

pub record Health : Type 0 where
  pub health_status : HealthStatus
  pub pending_work_items : ℕ
  pub open_dead_letter_count : ℕ
  pub quarantined_work_items : ℕ
  pub checkpoint_count : ℕ
  pub last_checkpoint_at : Option ℕ
  pub last_reconciliation_at : Option ℕ
  pub backlog_age_ms : ℕ
  pub checkpoint_age_ms : Option ℕ
  pub work_history_age_ms : ℕ
  pub alerts : List Alert
  pub operator_action_required : Bool

-- a run has no identifier in the model, and reads of runs go by tenant alone
instance abbrev pub reconciliation_keyed : Keyed Reconciliation
reconciliation_keyed = record { tenant_of = λ r. r.tenant_id; id_of = λ r. "" }

-- The objectives and the boundary, which a report repeats, are left out.
unfoldable pub automation_health : String → SloOptions → ℕ → Db → Health
automation_health tenant o now db =
    let works = list_for tenant db.work_items in
    let letters = list_for tenant db.dead_letters in
    let checkpoints = list_for tenant db.checkpoints in
    let alerts = alerts_of works letters checkpoints o now in
    record {
      health_status = if is_empty alerts then ready else degraded;
      pending_work_items = length (backlog_of works);
      open_dead_letter_count = open_letters letters;
      quarantined_work_items = quarantined_letters letters;
      checkpoint_count = length checkpoints;
      last_checkpoint_at = latest checkpoints;
      last_reconciliation_at = latest_run (list_for tenant db.reconciliations);
      backlog_age_ms = age_of_oldest now (backlog_of works);
      checkpoint_age_ms = checkpoint_age now (latest checkpoints);
      work_history_age_ms = age_of_oldest now works;
      alerts = alerts;
      operator_action_required = not (is_empty alerts);
    }
