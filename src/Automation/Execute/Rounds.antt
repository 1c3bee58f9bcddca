-- ===== src/Automation/Execute/Rounds.antt =====
-- One attempt of `executeSourceFeedWork` (backend-api/patchforge/automationWork.js): the call of the
-- client, the completion, the retry with its lease renewals, and the dead letter.
use Prim.Native.String.{◌++◌}
use diiac_patchforge.Prelude.{
  ℕ, suc, ◌+◌, ◌*◌, Option, none, some, String, ◌∷◌, if◌then◌else◌, or_else, ltb,
}
use diiac_patchforge.Prelude.Numbers.{bounded_number}
use diiac_patchforge.Prelude.Texts.{decimal, str_take}
use diiac_patchforge.Leases.{Lease, acquire, release}
use diiac_patchforge.Automation.{
  automation_boundary, running, retry_scheduled, completed, dead_lettered, Cursor, named, instant,
  FeedResult, Work, Checkpoint, Failure, DeadLetter, open_letter, work_keyed, put_work,
  put_checkpoint, put_failure, put_dead_letter, put_audit, RefreshBody, ErrorInfo, Outcome,
  returned, thrown, Env, World, tick, update,
}
use diiac_patchforge.Automation.Retry.{retry_delay}
use diiac_patchforge.Automation.Execute.Base.{
  ExecuteOptions, lease_lost_before_retry, lease_lost_after_retry_delay, Execution, plain,
  deferred_by, attempt_limit, lease_name, read_clock, Round, answer, again, answered, audit_of,
}

module _ (env : Env) (opts : ExecuteOptions) (tenant : String) (current : Work) where
  abbrev pub lease_ttl_ms : ℕ
  lease_ttl_ms = bounded_number opts.lease_ttl (5 * 60 * 1000) 30000 (30 * 60 * 1000)

  unfoldable pub refresh_body : RefreshBody
  refresh_body = record {
    feed_id = current.feed_id;
    cve = current.cve;
    limit = current.requested_limit;
    automation_work_id = current.work_id;
    idempotency_key = current.idempotency_key;
    scheduler_run_id = current.scheduler_run_id;
    lineage = current.lineage;
  }

  -- sourceFeedClient.refresh, with the call added to the trace
  unfoldable pub call_client : World → Outcome × World
  unfolding refresh_body
  call_client w =
      let (outcome, db) = env.refresh w.turn refresh_body w.db in
      (outcome, record { db = db; turn = suc w.turn; requests = refresh_body ∷ w.requests })

  -- acquireAutomationLease at an instant, and the reading of the clock before it
  unfoldable pub take_lease : ℕ → World → Option Lease × World
  take_lease now w =
      let (lease, leases) =
        acquire tenant (lease_name current) opts.owner_id lease_ttl_ms now w.db.leases in
      (lease, record w { db = record w.db { leases = leases } })

  unfoldable pub renew_lease : World → Option Lease × World
  unfolding read_clock take_lease
  renew_lease w = let (now, w') = read_clock env w in take_lease now w'

  unfoldable pub drop_lease : World → World
  unfolding read_clock
  drop_lease w =
      let (now, w') = read_clock env w in
      let (leases, _) = release tenant (lease_name current) opts.owner_id now w'.db.leases in
      record w' { db = record w'.db { leases = leases } }

  unfoldable pub success_cursor : FeedResult → ℕ → Cursor
  success_cursor r now = elim r.catalog_version [
    | some v ↦ named v
    | none ↦ elim r.date_released [
      | some d ↦ named d
      | none ↦ elim r.feed_completed_at [ some c ↦ named c | none ↦ instant now ]
    ]
  ]

  unfoldable pub checkpoint_for : FeedResult → ℕ → Checkpoint
  unfolding success_cursor
  checkpoint_for r now = record {
    tenant_id = tenant;
    checkpoint_id = current.checkpoint_id;
    feed_id = some current.feed_id;
    cve = current.cve;
    cursor = some (success_cursor r now);
    last_completed_work_id = some current.work_id;
    completed_at = some now;
    result_status = r.feed_status;
    boundary = automation_boundary;
  }

  unfoldable pub completed_work : ℕ → Work → FeedResult → ℕ → Work
  completed_work attempt updated r now = record updated {
    status = completed;
    attempts = attempt;
    completed_at = some now;
    updated_at = now;
    next_retry_at = none;
    result = some r;
  }

  -- the body of the `try` after the client has answered
  unfoldable pub succeed : ℕ → Work → FeedResult → World → Execution × World
  unfolding read_clock checkpoint_for completed_work update put_work put_checkpoint put_audit
  succeed attempt updated r w =
      let (now, w') = read_clock env w in
      let done = completed_work attempt updated r now in
      let checkpoint = checkpoint_for r now in
      let event = audit_of tenant "automation_work_completed" done attempt in
      (
        record (plain done) { result = some r; checkpoint = some checkpoint },
        update (λ db. put_audit event (put_work done (put_checkpoint checkpoint db))) w',
      )

  unfoldable pub failure_of : ℕ → ErrorInfo → ℕ → Failure
  failure_of attempt e now = record {
    tenant_id = tenant;
    failure_id = "failure-" ++ current.work_id ++ "-" ++ decimal attempt;
    work_id = current.work_id;
    work_kind = current.work_kind;
    feed_id = current.feed_id;
    cve = current.cve;
    attempt = attempt;
    error_class = or_else e.code (or_else e.name "Error");
    message = str_take 1000 e.message;
    failed_at = now;
    retryable = ltb attempt (attempt_limit current);
    boundary = automation_boundary;
  }

  unfoldable pub scheduled_work : ℕ → Work → Failure → ℕ → Work
  scheduled_work attempt updated failure next_retry_at = record updated {
    status = retry_scheduled;
    attempts = attempt;
    last_failure_id = some failure.failure_id;
    next_retry_at = some next_retry_at;
    updated_at = failure.failed_at;
  }

  -- after the wait, with the answer to the second renewal of the lease
  unfoldable pub resume : Work → Option Lease × World → Round × World
  unfolding read_clock update put_work
  resume scheduled (none, w) = (answer (deferred_by lease_lost_after_retry_delay scheduled), w)
  resume scheduled (some _, w) =
      let (now, w') = read_clock env w in
      let restarted = record scheduled { status = running; updated_at = now } in
      (again restarted, update (put_work restarted) w')

  -- with the answer to the renewal before the wait
  unfoldable pub wait : ℕ → Work → Option Lease × World → Round × World
  unfolding renew_lease tick
  wait backoff scheduled (none, w) = (answer (deferred_by lease_lost_before_retry scheduled), w)
  wait backoff scheduled (some _, w) =
      resume scheduled (renew_lease (tick (record w { db = env.sleep w.turn backoff w.db })))

  unfoldable pub retry : ℕ → Work → Failure → World → Round × World
  unfolding scheduled_work renew_lease read_clock tick update put_work
  retry attempt updated failure w =
      let backoff = retry_delay attempt opts.base_delay opts.max_delay (env.random w.turn) in
      let (now, w') = read_clock env (tick w) in
      let scheduled = scheduled_work attempt updated failure (now + backoff) in
      wait backoff scheduled (renew_lease (update (put_work scheduled) w'))

  unfoldable pub dead_letter_of : Failure → ℕ → DeadLetter
  dead_letter_of failure next_retry_at = record {
    tenant_id = tenant;
    dead_letter_id = "dead-" ++ current.work_id;
    work_id = current.work_id;
    work_kind = current.work_kind;
    feed_id = some current.feed_id;
    cve = current.cve;
    status = open_letter;
    replay_count = current.replay_count;
    last_failure_id = some failure.failure_id;
    last_error = failure.message;
    dead_lettered_at = some failure.failed_at;
    next_retry_at = some next_retry_at;
    quarantined_at = none;
    replay_scheduled_at = none;
  }

  unfoldable pub dead_work : ℕ → Work → Failure → DeadLetter → Work
  dead_work attempt updated failure letter = record updated {
    status = dead_lettered;
    attempts = attempt;
    last_failure_id = some failure.failure_id;
    dead_letter_id = some letter.dead_letter_id;
    completed_at = some failure.failed_at;
    updated_at = failure.failed_at;
  }

  -- the last attempt has failed
  unfoldable pub bury : ℕ → Work → Failure → World → Execution × World
  unfolding read_clock dead_letter_of dead_work update put_work put_dead_letter put_audit
  bury attempt updated failure w =
      let (now, w') = read_clock env w in
      let letter =
        dead_letter_of failure (
          now
          + bounded_number opts.dead_letter_retry (15 * 60 * 1000) 1000 (24 * 60 * 60 * 1000)) in
      let dead = dead_work attempt updated failure letter in
      let event = audit_of tenant "automation_work_dead_lettered" dead attempt in
      (
        record (plain dead) { dead_letter = some letter; error = some failure },
        update (λ db. put_audit event (put_work dead (put_dead_letter letter db))) w',
      )

  -- the `catch` of one attempt
  unfoldable pub fail : ℕ → Work → ErrorInfo → World → Round × World
  unfolding read_clock failure_of update put_failure
  fail attempt updated e w =
      let (now, w') = read_clock env w in
      let failure = failure_of attempt e now in
      let recorded = update (put_failure failure) w' in
      if ltb attempt (attempt_limit current)
      then retry attempt updated failure recorded
      else answered (bury attempt updated failure recorded)

  unfoldable pub settle : ℕ → Work → Outcome × World → Round × World
  settle attempt updated (returned r, w) = answered (succeed attempt updated r w)
  settle attempt updated (thrown e, w) = fail attempt updated e w
