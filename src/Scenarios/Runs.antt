-- ===== src/Scenarios/Runs.antt =====
-- Cycles of the worker and runs of the scheduler (backend-api/patchforge/worker.js and
-- backend-api/patchforge/scheduler.js).
use diiac_patchforge.Prelude.{ℕ, ◌≡◌, refl, true, false, arith, none, some, String, List, [], ◌∷◌}
use diiac_patchforge.Prelude.Numbers.{nan, bounded_number}
use diiac_patchforge.Prelude.Texts.{upper, str_take, lower, lower_code}
use diiac_patchforge.Store.{list_for, lookup, append_record, has_key, replace, replace_first}
use diiac_patchforge.Leases.{
  lease_keyed, acquire, release, blocks, is_owned, mark_released, new_lease,
}
use diiac_patchforge.Automation.{Env, returned, put_audit, put_checkpoint, put_work, tick, update}
use diiac_patchforge.Automation.Enqueue.{
  enqueue, new_work, work_id_of, idempotency_key_of, checkpoint_id_of,
}
use diiac_patchforge.Automation.Execute.{
  execute, execute_current, attempt_loop, running_work, run_leased,
}
use diiac_patchforge.Automation.Execute.Base.{read_clock, attempt_limit, is_allowed}
use diiac_patchforge.Automation.Execute.Rounds.{
  renew_lease, settle, call_client, refresh_body, take_lease, drop_lease, succeed, completed_work,
  checkpoint_for, success_cursor,
}
use diiac_patchforge.Automation.Reconcile.{replay_limit}
use diiac_patchforge.Automation.Replays.{IsBounded}
use diiac_patchforge.Automation.Replays.Execution.{Respects}
use diiac_patchforge.Cycles.{take_cycle_lease, drop_cycle_lease}
use diiac_patchforge.Cycles.Worker.{WorkerOptions, run_worker_once}
use diiac_patchforge.Cycles.Worker.Laws.{run_worker_once-IsBounded}
use diiac_patchforge.Cycles.Scheduler.{
  run_scheduler_once, conclude, cycle_work, cycle_checkpoint, existing_cycle, completed, gave,
  SchedulerResult,
}
use diiac_patchforge.Cycles.Scheduler.Gather.{record_incomplete_work, sweep, sweep_one}
use diiac_patchforge.Cycles.Scheduler.Refresh.{
  SchedulerOptions, refresh, refresh_all, refresh_feeds,
}
use diiac_patchforge.Cycles.Scheduler.Priority.{
  Vulnerability, prioritized_cves, sort_by_score, insert_by_score, score_vulnerability,
}
use diiac_patchforge.Cycles.Scheduler.Priority.Order.{
  IsDescending, of_score, sort_by_score-IsSorted,
}
use diiac_patchforge.Cycles.Scheduler.Claims.{ClaimHolds}
use diiac_patchforge.Cycles.Scheduler.Laws.{run_scheduler_once-ClaimHolds}
use diiac_patchforge.Scenarios.{empty_db, one_letter, start, kev_result, answering, options}

abbrev calm : Env
calm = answering (returned kev_result)

abbrev worker : WorkerOptions
worker = record {
  execution = options;
  max_replays = nan;
  limit = nan;
  objectives = record { backlog_slo = nan; checkpoint_slo = nan };
}

calm-Respects : Respects (replay_limit nan) calm
calm-Respects = record { refreshes = λ n body db b. b; sleeps = λ n ms db b. b }

letter_in_limit : IsBounded (replay_limit nan) one_letter
unfolding replay_limit bounded_number
letter_in_limit = ((omega arith, tt), (omega arith, tt))

run_worker_once-IsBounded_example :
    IsBounded (replay_limit nan) (run_worker_once calm "acme" worker (start one_letter)).1.db
run_worker_once-IsBounded_example =
    run_worker_once-IsBounded calm "acme" worker calm-Respects (start one_letter) letter_in_limit

abbrev short_hash : String → String
short_hash s = "0123456789abcdef"

abbrev exploited : Vulnerability
exploited = record {
  vulnerability_id = "cve-2026-0001";
  canonical_id = "";
  known_exploited = true;
  internet_exposed = false;
  severity = "Critical";
  patch_status = "";
  ot_relevant = false;
}

abbrev quiet_one : Vulnerability
quiet_one = record exploited { vulnerability_id = "cve-2026-0002"; known_exploited = false }

abbrev scheduler : SchedulerOptions
scheduler = record {
  cycle_id = "cycle-1";
  scheduler_run_id = "scheduler-cycle-1";
  lease_owner = "scheduler-a";
  cisa_limit = nan;
  epss_limit = nan;
  max_attempts = nan;
  lease_ttl = nan;
  base_delay = nan;
  max_delay = nan;
  force = false;
  actor_tenant_id = "entra";
}

abbrev no_vulnerabilities : ℕ → List Vulnerability
no_vulnerabilities n = []

abbrev first_result : SchedulerResult
first_result = record {
  status = completed;
  gathered = record {
    cisa_run = some kev_result;
    epss_runs = [];
    work_items = "work-0123456789abcdef" ∷ [];
    incomplete_work_items = [];
    failures = [];
  };
  deferred = false;
  completed_at = some 9000;
  reused_checkpoint = none;
}

first_run :
    (run_scheduler_once short_hash no_vulnerabilities calm "acme" scheduler (start empty_db)).0
    ≡ gave first_result
unfolding run_scheduler_once conclude cycle_work cycle_checkpoint existing_cycle
    record_incomplete_work sweep sweep_one refresh refresh_all refresh_feeds prioritized_cves
    sort_by_score insert_by_score score_vulnerability take_cycle_lease drop_cycle_lease renew_lease
    settle call_client refresh_body take_lease drop_lease succeed completed_work checkpoint_for
    success_cursor read_clock attempt_limit is_allowed execute execute_current attempt_loop
    running_work run_leased enqueue new_work work_id_of idempotency_key_of checkpoint_id_of
    put_audit put_checkpoint put_work tick update acquire release blocks is_owned mark_released
    new_lease list_for lookup append_record has_key replace replace_first bounded_number upper
    str_take
first_run = refl

run_scheduler_once-ClaimHolds_example :
    ClaimHolds "acme" scheduler
      (run_scheduler_once short_hash no_vulnerabilities calm "acme" scheduler (start empty_db)).1.db
run_scheduler_once-ClaimHolds_example =
    run_scheduler_once-ClaimHolds short_hash no_vulnerabilities calm "acme" scheduler
      (start empty_db) first_result first_run

sort_by_score-IsSorted_example :
    IsDescending (sort_by_score (quiet_one ∷ exploited ∷ []))
    × (of_score 60 (sort_by_score (quiet_one ∷ exploited ∷ []))
        ≡ of_score 60 (quiet_one ∷ exploited ∷ []))
sort_by_score-IsSorted_example = sort_by_score-IsSorted 60 (quiet_one ∷ exploited ∷ [])

most_urgent_first :
    prioritized_cves (quiet_one ∷ exploited ∷ []) ≡ "CVE-2026-0001" ∷ "CVE-2026-0002" ∷ []
unfolding prioritized_cves sort_by_score insert_by_score score_vulnerability upper lower lower_code
most_urgent_first = refl
