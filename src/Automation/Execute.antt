-- ===== src/Automation/Execute.antt =====
-- `executeSourceFeedWork` of backend-api/patchforge/automationWork.js: the guards, the lease, the loop
-- over the attempts, and the release.
pub mod Base
pub mod Rounds
pub mod Loop
pub mod Budget
pub mod Endings
pub mod Whole
use Prim.Native.String.{◌++◌}
use diiac_patchforge.Prelude.{
  ℕ, zero, suc, ◌+◌, ◌-◌, ◌*◌, Bool, true, false, not, ◌&&◌, ◌||◌, Option, none, some, String, List,
  [], ◌∷◌, if◌then◌else◌, or_else, ltb, leb,
}
use diiac_patchforge.Prelude.Numbers.{JsNumber, bounded_number, of_ℕ}
use diiac_patchforge.Prelude.Texts.{member, decimal, str_take}
use diiac_patchforge.Store.{lookup}
use diiac_patchforge.Leases.{Lease, acquire, release}
use diiac_patchforge.Automation.{
  automation_boundary, Audit, WorkStatus, pending, running, retry_scheduled, completed,
  dead_lettered, quarantined, Cursor, named, instant, FeedResult, Work, Checkpoint, Failure,
  DeadLetter, open_letter, Db, work_keyed, put_work, put_checkpoint, put_failure, put_dead_letter,
  put_audit, RefreshBody, ErrorInfo, Outcome, returned, thrown, Env, World, tick, update,
}
use diiac_patchforge.Automation.Retry.{retry_delay}
use diiac_patchforge.Automation.Enqueue.{allowed_work_kinds, allowed_feeds}
use Base.{
  ExecuteOptions, Reason, reconciliation_required, lease_contended, lease_lost_before_retry,
  lease_lost_after_retry_delay, Execution, plain, deferred_by, is_allowed, attempt_limit,
  lease_name, is_completed, is_terminal, read_clock, Round, answer, again, answered, audit_of,
}
use Rounds.{call_client, take_lease, renew_lease, drop_lease, settle}

abbrev pub continue : (Work → World → Execution × World) → Round × World → Execution × World
continue next (answer e, w) = (e, w)
continue next (again work, w) = next work w

module _ (env : Env) (opts : ExecuteOptions) (tenant : String) (current : Work) where
  -- The loop over the attempts; the first argument is the number of rounds left, which is
  -- `maxAttempts + 1 - attempt`.
  unfoldable pub attempt_loop : ℕ → ℕ → Work → World → Execution × World
  attempt_loop zero attempt updated w = (plain updated, w)
  attempt_loop (suc left) attempt updated w =
      continue (attempt_loop left (suc attempt))
        (settle env opts tenant current attempt updated (call_client env opts tenant current w))

  abbrev pub finally : Execution × World → Execution × World
  finally (e, w) = (e, drop_lease env opts tenant current w)

  unfoldable pub running_work : ℕ → ℕ → Work
  running_work started updated = record current {
    status = running;
    lease_id = some (lease_name current);
    lease_owner = some opts.owner_id;
    started_at = some started;
    updated_at = updated;
  }

  -- with the answer to the request for the lease
  unfoldable pub run_leased : Option Lease × World → Execution × World
  unfolding read_clock update put_work
  run_leased (none, w) = (deferred_by lease_contended current, w)
  run_leased (some _, w) =
      let (started, w') = read_clock env w in
      let (updated, w'') = read_clock env w' in
      let work = running_work started updated in
      let first = suc current.attempts in
      finally
        (attempt_loop (suc (attempt_limit current) - first) first work (update (put_work work) w''))

  abbrev pub request_lease : Option ℕ → World → Option Lease × World
  request_lease (some now) w = take_lease env opts tenant current now w
  request_lease none w = renew_lease env opts tenant current w

  unfoldable pub execute_current : World → Execution × World
  execute_current w =
      if is_completed current.status
      then (
        record (plain current) { idempotent_reuse = true; result = current.result; skipped = true },
        w,
      )
      else if is_terminal current.status || leb (attempt_limit current) current.attempts
      then (deferred_by reconciliation_required current, w)
      else run_leased (request_lease opts.fixed_now w)

pub data Executed : Type 0 where
  rejected : Executed
  finished : Execution → Executed

abbrev pub finish : Execution × World → Executed × World
finish (e, w) = (finished e, w)

-- `rejected` is the error that `assertAllowedWork` throws.
unfoldable pub execute : Env → ExecuteOptions → String → Work → World → Executed × World
execute env opts tenant item w =
    if is_allowed item
    then finish (
        execute_current env opts tenant (or_else (lookup tenant item.work_id w.db.work_items) item)
          w)
    else (rejected, w)
