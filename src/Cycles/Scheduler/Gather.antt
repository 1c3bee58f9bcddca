-- ===== src/Cycles/Scheduler/Gather.antt =====
-- What a run of the scheduler gathers: its results, and the work that is left incomplete
-- (backend-api/patchforge/scheduler.js, `recordIncompleteWork` and the loop over the cycle's work).
use diiac_patchforge.Prelude.{
  Bool, true, not, ◌&&◌, ◌||◌, Option, none, some, String, List, [], ◌∷◌, ◌++◌, str_eq,
  if◌then◌else◌, any, is_some,
}
use diiac_patchforge.Prelude.Texts.{member}
use diiac_patchforge.Automation.{WorkStatus, Work, Failure, FeedResult}
use diiac_patchforge.Automation.Execute.Base.{Execution, Reason, is_completed}

-- `execution.reason || execution.error?.error_class || "work_not_completed"`
pub data WhyIncomplete : Type 0 where
  by_reason : Reason → WhyIncomplete
  by_error : String → WhyIncomplete
  cycle_work_not_completed work_not_completed : WhyIncomplete

pub record Incomplete : Type 0 where
  pub work_id : String
  pub feed_id : String
  pub status : WorkStatus
  pub reason : WhyIncomplete

-- what a run has gathered so far
pub record Gathered : Type 0 where
  pub cisa_run : Option FeedResult
  pub epss_runs : List FeedResult
  pub work_items : List String
  pub incomplete_work_items : List Incomplete
  pub failures : List Failure

abbrev pub nothing_yet : Gathered
nothing_yet = record {
  cisa_run = none;
  epss_runs = [];
  work_items = [];
  incomplete_work_items = [];
  failures = [];
}

abbrev why_of : Option Reason → Option Failure → WhyIncomplete
why_of (some r) error = by_reason r
why_of none (some f) = by_error f.error_class
why_of none none = work_not_completed

abbrev pub add_incomplete : Incomplete → Gathered → Gathered
add_incomplete i g = record g { incomplete_work_items = g.incomplete_work_items ++ i ∷ [] }

-- recordIncompleteWork, of an execution
unfoldable pub record_incomplete_work : Execution → Work → Gathered → Gathered
record_incomplete_work e work g =
    if is_some e.deferred || is_some e.error || not (is_completed e.work_item.status)
    then add_incomplete
        (record {
          work_id = work.work_id;
          feed_id = work.feed_id;
          status = e.work_item.status;
          reason = why_of e.deferred e.error;
        })
        g
    else g

abbrev pub add_failure : Option Failure → Gathered → Gathered
add_failure none g = g
add_failure (some f) g = record g { failures = g.failures ++ f ∷ [] }

abbrev pub keep_cisa_run : Execution → Gathered → Gathered
keep_cisa_run e g = record g { cisa_run = e.result }

abbrev pub keep_epss_run : Execution → Gathered → Gathered
keep_epss_run e g = with_result e.result g
  where
    with_result : Option FeedResult → Gathered → Gathered
    with_result none g = g
    with_result (some r) g = record g { epss_runs = g.epss_runs ++ r ∷ [] }

abbrev pub add_work : String → Gathered → Gathered
add_work id g = record g { work_items = g.work_items ++ id ∷ [] }

-- an item of the cycle that this run did not execute, or did not complete
unfoldable pub sweep_one : Work → Gathered → Gathered
sweep_one work g =
    let listed = if member work.work_id g.work_items then g else add_work work.work_id g in
    if not (is_completed work.status)
      && not (any (λ i. str_eq i.work_id work.work_id) g.incomplete_work_items)
    then add_incomplete
        (record {
          work_id = work.work_id;
          feed_id = work.feed_id;
          status = work.status;
          reason = cycle_work_not_completed;
        })
        listed
    else listed

unfoldable pub sweep : List Work → Gathered → Gathered
sweep [] g = g
sweep (w ∷ ws) g = sweep ws (sweep_one w g)

abbrev pub is_incomplete : Gathered → Bool
is_incomplete g = any (λ _. true) g.incomplete_work_items
