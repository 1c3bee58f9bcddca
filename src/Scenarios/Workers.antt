-- ===== src/Scenarios/Workers.antt =====
-- Runs of the work queue (backend-api/patchforge/automationWork.js).
use diiac_patchforge.Prelude.{
  ◌+◌, ◌-◌, ◌≤◌, ◌<◌, ◌⊎◌, ◌≡◌, refl, true, false, some, [], ◌∷◌, String, arith, or_else, length,
  keep, All,
}
use diiac_patchforge.Prelude.Numbers.{nan, bounded_number}
use diiac_patchforge.Prelude.Texts.{member}
use diiac_patchforge.Store.{list_for, lookup, append_record, has_key, replace, replace_first}
use diiac_patchforge.Leases.{
  lease_keyed, acquire, release, blocks, is_owned, mark_released, new_lease,
}
use diiac_patchforge.Automation.{
  Work, work_keyed, dead_letter_keyed, completed, quarantined, running, thrown, Db, Env, DeadLetter,
  put_audit, put_dead_letter, put_failure, put_work, tick, update,
}
use diiac_patchforge.Automation.Retry.{exponential, jitter, retry_delay}
use diiac_patchforge.Automation.Execute.Rounds.{
  renew_lease, settle, call_client, fail, retry, wait, resume, bury, dead_letter_of, dead_work,
  failure_of, refresh_body, scheduled_work, take_lease, drop_lease,
}
use diiac_patchforge.Automation.Enqueue.{enqueue, reused, work_id_of, allowed_work_kinds}
use diiac_patchforge.Automation.Enqueue.Laws.{requests, writes, all_changed, enqueue_once}
use diiac_patchforge.Automation.Execute.{
  execute, execute_current, attempt_loop, running_work, run_leased,
}
use diiac_patchforge.Automation.Execute.Base.{read_clock, attempt_limit, is_allowed}
use diiac_patchforge.Automation.Execute.Budget.{requests-execute}
use diiac_patchforge.Automation.Pending.{settled, is_due}
use diiac_patchforge.Automation.Pending.Laws.{unsupported_is_quarantined}
use diiac_patchforge.Automation.Reconcile.{
  reconcile, replay_one, is_running, has_lost_lease, is_due_letter, replay_limit,
}
use diiac_patchforge.Automation.Reconcile.Laws.{IsRequeued, IsReplayed, IsBuried, replay_decides}
use diiac_patchforge.Automation.Replays.{IsBounded, reconcile-IsBounded}
use diiac_patchforge.Automation.Replays.Execution.{Respects}
use diiac_patchforge.Automation.Health.{
  automation_health, alerts_of, open_letters, quarantined_letters, age_of_oldest, oldest, latest,
  ready, SloOptions, is_open, is_quarantined, time_of, backlog_of, backlog_slo_ms,
}
use diiac_patchforge.Automation.Health.Laws.{ready_means}
use diiac_patchforge.Scenarios.{
  kev_item, deploy_item, kev_lease, kev_letter, empty_db, one_item, one_letter, start, kev_result,
  outage, answering, options, kev_request,
}

abbrev outcome_env : Env
outcome_env = answering (thrown outage)

-- two attempts are left, and both fail
run_of_outage : length (execute outcome_env options "acme" kev_item (start one_item)).1.requests ≡ 2
unfolding execute is_allowed execute_current lookup attempt_limit bounded_number run_leased
    running_work attempt_loop renew_lease settle call_client fail retry wait resume bury
    dead_letter_of dead_work failure_of refresh_body scheduled_work take_lease drop_lease acquire
    release append_record read_clock exponential jitter retry_delay put_audit put_dead_letter
    put_failure put_work tick update blocks is_owned mark_released new_lease has_key list_for
    replace replace_first
run_of_outage = refl

requests-execute_example :
    let current = or_else (lookup "acme" "w1" one_item.work_items) kev_item in
    (length (execute outcome_env options "acme" kev_item (start one_item)).1.requests
      ≤ 0 + (attempt_limit current - current.attempts))
    × (attempt_limit current - current.attempts ≤ 8)
requests-execute_example = requests-execute outcome_env options "acme" kev_item (start one_item)

abbrev done_item : Work
done_item = record kev_item { status = completed; result = some kev_result }

abbrev done_db : Db
done_db = record empty_db { work_items = done_item ∷ [] }

kev_item_allowed : is_allowed kev_item ≡ true
unfolding is_allowed
kev_item_allowed = refl

done_stored : lookup "acme" "w1" (done_item ∷ []) ≡ some done_item
unfolding lookup
done_stored = refl

deploy_refused : is_allowed deploy_item ≡ false
unfolding is_allowed
deploy_refused = refl

unsupported_is_quarantined_example :
    let (e, w') =
      settled outcome_env "acme" deploy_item
        (execute outcome_env options "acme" deploy_item (start one_item)) in
    (w'.requests ≡ [])
    × (e.work_item.status ≡ quarantined)
    × (lookup "acme" "w2" w'.db.work_items ≡ some e.work_item)
    × (is_due 9000 e.work_item ≡ false)
unsupported_is_quarantined_example =
    unsupported_is_quarantined outcome_env options "acme" deploy_item (start one_item) 9000 refl
      (λ e. cc) deploy_refused

-- in place of the digest, the text itself
abbrev plain_hash : String → String
plain_hash s = s

cisa_kev_allowed : member "cisa-kev" ("cisa-kev" ∷ "first-epss" ∷ []) ≡ true
cisa_kev_allowed = refl

enqueue_once_example :
    let later =
      all_changed plain_hash
        (requests "globex" kev_request ∷ writes deploy_item ∷ [])
        (enqueue plain_hash "acme" kev_request empty_db).1 in
    (w : Work) × (enqueue plain_hash "acme" kev_request later ≡ (reused w, later))
    × (lookup "acme" (work_id_of plain_hash "acme" kev_request) later.work_items ≡ some w)
enqueue_once_example =
    enqueue_once plain_hash "acme" kev_request kev_request empty_db
      (requests "globex" kev_request ∷ writes deploy_item ∷ []) cisa_kev_allowed cisa_kev_allowed
      refl

within_limit : IsBounded (replay_limit nan) one_letter
unfolding replay_limit bounded_number
within_limit = ((omega arith, tt), (omega arith, tt))

reconcile-IsBounded_example : IsBounded (replay_limit nan) (reconcile "acme" nan 3000 one_letter).1
reconcile-IsBounded_example = reconcile-IsBounded "acme" nan 3000 one_letter within_limit

answering-Respects : Respects 2 outcome_env
answering-Respects = record { refreshes = λ n body db b. b; sleeps = λ n ms db b. b }

kind_allowed : member "source_feed_refresh" allowed_work_kinds ≡ true
kind_allowed = refl

replay_decides_example :
    let (db', tally') =
      replay_one 2 3000 kev_letter
        (some kev_item)
        (one_letter, record { recovered = 0; requeued = 0; quarantined = 0 }) in
    ((1 < 2)
      × ((work' : Work) × (lookup "acme" "w1" db'.work_items ≡ some work')
          × IsRequeued 3000 kev_letter kev_item work')
      × ((d' : DeadLetter) × (lookup "acme" "dead-w1" db'.dead_letters ≡ some d')
          × IsReplayed 3000 kev_letter d')
      × (tally'.requeued ≡ 1))
    ⊎ ((2 ≤ 1)
        × (db'.work_items ≡ kev_item ∷ [])
        × ((d' : DeadLetter) × (lookup "acme" "dead-w1" db'.dead_letters ≡ some d')
            × IsBuried 3000 kev_letter d')
        × (tally'.quarantined ≡ 1))
replay_decides_example =
    replay_decides 2 3000 kev_letter kev_item one_letter
      (record { recovered = 0; requeued = 0; quarantined = 0 }) kind_allowed (λ e. cc) (λ e. cc)

abbrev busy_item : Work
busy_item = record kev_item { status = running; lease_id = some "automation-work:w1" }

abbrev busy_db : Db
busy_db = record empty_db { work_items = busy_item ∷ []; leases = kev_lease ∷ [] }

busy_live :
    All
      (λ w. has_lost_lease (list_for "acme" (kev_lease ∷ [])) 4000 w ≡ false)
      (keep (λ w. is_running w.status) (list_for "acme" (busy_item ∷ [])))
unfolding has_lost_lease list_for
busy_live = (refl, tt)

nothing_due : keep (is_due_letter 4000) (list_for {A = DeadLetter} "acme" []) ≡ []
unfolding list_for
nothing_due = refl

abbrev default_slos : SloOptions
default_slos = record { backlog_slo = nan; checkpoint_slo = nan }

one_item_ready : (automation_health "acme" default_slos 2000 one_item).health_status ≡ ready
unfolding automation_health alerts_of open_letters list_for quarantined_letters backlog_of
    bounded_number age_of_oldest oldest latest
one_item_ready = refl

ready_means_example :
    All (λ d. is_open d.status ≡ false) (list_for "acme" one_item.dead_letters)
    × All (λ d. is_quarantined d.status ≡ false) (list_for "acme" one_item.dead_letters)
    × All
        (λ w. (time_of w ≡ 0) ⊎ (2000 ≤ time_of w + backlog_slo_ms default_slos))
        (backlog_of (list_for "acme" one_item.work_items))
ready_means_example = ready_means "acme" default_slos 2000 one_item one_item_ready
