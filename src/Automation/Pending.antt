-- ===== src/Automation/Pending.antt =====
-- `runPendingAutomationWork` of backend-api/patchforge/automationWork.js: one batch of due items, with
-- the quarantine of those that may not run.
pub mod Laws
use Prim.Native.String.{◌++◌}
use diiac_patchforge.Prelude.{
  ℕ, Bool, true, false, ◌&&◌, ◌||◌, Option, none, some, String, List, [], ◌∷◌, if◌then◌else◌,
  or_else, leb, keep, take, length, count_if, is_some,
}
use diiac_patchforge.Prelude.Numbers.{JsNumber, bounded_number}
use diiac_patchforge.Store.{list_for}
use diiac_patchforge.Automation.{
  Work, work_keyed, WorkStatus, pending, retry_scheduled, completed, dead_lettered, quarantined,
  DeadLetter, DeadStatus, Env, World, put_work, put_dead_letter, update,
}
use diiac_patchforge.Automation.Execute.{execute, Executed, rejected, finished}
use diiac_patchforge.Automation.Execute.Base.{ExecuteOptions, Execution, plain, read_clock}

abbrev due_by : WorkStatus → ℕ → Option ℕ → Bool
due_by pending now retry_at = true
due_by retry_scheduled now retry_at = leb (or_else retry_at 0) now
due_by _ now retry_at = false

-- an item whose turn has come
unfoldable pub is_due : ℕ → Work → Bool
is_due now item = due_by item.status now item.next_retry_at

unfoldable pub due_items : String → JsNumber → ℕ → List Work → List Work
unfolding is_due
due_items tenant limit now items =
    take (bounded_number limit 10 1 100) (keep (is_due now) (list_for tenant items))

abbrev pub unsupported_message : String
unsupported_message = "Worker rejected unsupported or production-mutating work item."

unfoldable pub quarantine_letter : String → Work → ℕ → DeadLetter
quarantine_letter tenant item now = record {
  tenant_id = tenant;
  dead_letter_id = "dead-" ++ item.work_id;
  work_id = item.work_id;
  work_kind = item.work_kind;
  feed_id = none;
  cve = none;
  status = DeadStatus.quarantined;
  replay_count = item.replay_count;
  last_failure_id = none;
  last_error = unsupported_message;
  dead_lettered_at = none;
  next_retry_at = none;
  quarantined_at = some now;
  replay_scheduled_at = none;
}

unfoldable pub quarantined_work : Work → ℕ → DeadLetter → Work
quarantined_work item now letter = record item {
  status = quarantined;
  updated_at = now;
  dead_letter_id = some letter.dead_letter_id;
}

-- the `catch` of the batch
unfoldable pub quarantine : Env → String → Work → World → Execution × World
unfolding read_clock quarantine_letter quarantined_work update put_work put_dead_letter
quarantine env tenant item w =
    let (now, w') = read_clock env w in
    let letter = quarantine_letter tenant item now in
    let work = quarantined_work item now letter in
    (
      record (plain work) { dead_letter = some letter },
      update (λ db. put_work work (put_dead_letter letter db)) w',
    )

-- the answer for one item of the batch
unfoldable pub settled : Env → String → Work → Executed × World → Execution × World
settled env tenant item (finished e, w) = (e, w)
settled env tenant item (rejected, w) = quarantine env tenant item w

unfoldable pub run_batch :
    Env → ExecuteOptions → String → List Work → World → List Execution × World
run_batch env opts tenant [] w = ([], w)
run_batch env opts tenant (item ∷ items) w =
    let (e, w') = settled env tenant item (execute env opts tenant item w) in
    let (es, w'') = run_batch env opts tenant items w' in (e ∷ es, w'')

abbrev pub has_status : (WorkStatus → Bool) → Execution → Bool
has_status test e = test e.work_item.status

abbrev pub is_completed : WorkStatus → Bool
is_completed completed = true
is_completed _ = false

abbrev pub is_dead_lettered : WorkStatus → Bool
is_dead_lettered dead_lettered = true
is_dead_lettered _ = false

abbrev pub is_quarantined : WorkStatus → Bool
is_quarantined quarantined = true
is_quarantined _ = false

pub record Processing : Type 0 where
  pub considered : ℕ
  pub completed_items : ℕ
  pub dead_lettered_items : ℕ
  pub quarantined_items : ℕ
  pub deferred_items : ℕ
  pub results : List Execution

abbrev processing_of : List Work → List Execution × World → Processing × World
processing_of items (es, w) = (
  record {
    considered = length items;
    completed_items = count_if (has_status is_completed) es;
    dead_lettered_items = count_if (has_status is_dead_lettered) es;
    quarantined_items = count_if (has_status is_quarantined) es;
    deferred_items = count_if (λ e. is_some e.deferred) es;
    results = es;
  },
  w,
)

-- `now` is `options.now || new Date()`.
unfoldable pub run_pending :
    Env → ExecuteOptions → String → JsNumber → ℕ → World → Processing × World
run_pending env opts tenant limit now w =
    let items = due_items tenant limit now w.db.work_items in
    processing_of items (run_batch env opts tenant items w)
