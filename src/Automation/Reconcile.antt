-- ===== src/Automation/Reconcile.antt =====
-- `reconcileAutomationWork` of backend-api/patchforge/automationWork.js: items whose worker is gone
-- are queued again, and dead letters are replayed a bounded number of times.
pub mod Laws
use diiac_patchforge.Prelude.{
  ℕ, suc, ◌+◌, Bool, true, false, not, ◌&&◌, ◌||◌, Option, none, some, String, List, [], ◌∷◌,
  if◌then◌else◌, or_else, leb, keep, find, str_eq,
}
use diiac_patchforge.Prelude.Numbers.{JsNumber, bounded_number}
use diiac_patchforge.Prelude.Texts.{member}
use diiac_patchforge.Store.{list_for}
use diiac_patchforge.Leases.{Lease, lease_keyed}
use diiac_patchforge.Automation.{
  automation_boundary, Work, work_keyed, WorkStatus, pending, running, DeadLetter,
  dead_letter_keyed, DeadStatus, open_letter, replay_scheduled, Reconciliation, Db, put_work,
  put_dead_letter, put_reconciliation,
}
use diiac_patchforge.Automation.Enqueue.{allowed_work_kinds}

pub record Tally : Type 0 where
  pub recovered : ℕ
  pub requeued : ℕ
  pub quarantined : ℕ

abbrev pub is_running : WorkStatus → Bool
is_running running = true
is_running _ = false

-- `lease.lease_id === work.lease_id`
abbrev lease_is : Option String → Lease → Bool
lease_is none l = false
lease_is (some id) l = str_eq l.lease_id id

-- `!lease || timestampMs(lease.expires_at) <= now`
abbrev is_lost : ℕ → Option Lease → Bool
is_lost now none = true
is_lost now (some l) = leb (or_else l.expires_at 0) now

unfoldable pub has_lost_lease : List Lease → ℕ → Work → Bool
has_lost_lease leases now work = is_lost now (find (lease_is work.lease_id) leases)

unfoldable pub recovered_work : ℕ → Work → Work
recovered_work now work = record work {
  status = pending;
  lease_owner = none;
  updated_at = now;
  recovery_reason = some "expired_or_missing_lease";
}

-- one running item
unfoldable pub recover_one : List Lease → ℕ → Work → Db × Tally → Db × Tally
unfolding recovered_work put_work
recover_one leases now work (db, tally) =
    if has_lost_lease leases now work
    then (put_work (recovered_work now work) db, record tally { recovered = suc tally.recovered })
    else (db, tally)

-- the loop over the running items
unfoldable pub recover : List Lease → ℕ → List Work → Db × Tally → Db × Tally
recover leases now [] s = s
recover leases now (work ∷ works) s = recover leases now works (recover_one leases now work s)

abbrev is_open : DeadStatus → Bool
is_open open_letter = true
is_open _ = false

unfoldable pub is_due_letter : ℕ → DeadLetter → Bool
is_due_letter now d = is_open d.status && leb (or_else d.next_retry_at 0) now

unfoldable pub quarantined_letter : ℕ → DeadLetter → DeadLetter
quarantined_letter now d = record d { status = DeadStatus.quarantined; quarantined_at = some now }

unfoldable pub replayed_work : ℕ → DeadLetter → Work → Work
replayed_work now d work = record work {
  status = pending;
  attempts = 0;
  replay_count = d.replay_count + 1;
  updated_at = now;
  recovery_reason = some "bounded_dead_letter_replay";
}

unfoldable pub replayed_letter : ℕ → DeadLetter → DeadLetter
replayed_letter now d = record d {
  status = replay_scheduled;
  replay_count = d.replay_count + 1;
  replay_scheduled_at = some now;
}

-- one due letter, with the item that it names
unfoldable pub replay_one : ℕ → ℕ → DeadLetter → Option Work → Db × Tally → Db × Tally
unfolding quarantined_letter replayed_work replayed_letter put_work put_dead_letter
replay_one most now d none s = s
replay_one most now d (some work) (db, tally) =
    if not (member work.work_kind allowed_work_kinds)
    then (db, tally)
    else if leb most d.replay_count
    then (
      put_dead_letter (quarantined_letter now d) db,
      record tally { quarantined = suc tally.quarantined },
    )
    else (
      put_dead_letter (replayed_letter now d) (put_work (replayed_work now d work) db),
      record tally { requeued = suc tally.requeued },
    )

unfoldable pub work_of : List Work → DeadLetter → Option Work
work_of works d = find (λ w. str_eq w.work_id d.work_id) works

-- the loop over the due letters
unfoldable pub replay : ℕ → ℕ → List Work → List DeadLetter → Db × Tally → Db × Tally
replay most now works [] s = s
replay most now works (d ∷ ds) s =
    replay most now works ds (replay_one most now d (work_of works d) s)

abbrev recorded : String → ℕ → Db × Tally → Reconciliation × Db
recorded tenant now (db, tally) =
    let run : Reconciliation = record {
      tenant_id = tenant;
      completed_at = now;
      recovered_expired_leases = tally.recovered;
      requeued = tally.requeued;
      quarantined = tally.quarantined;
      boundary = automation_boundary;
    } in
    (run, put_reconciliation run db)

-- boundedNumber(options.maxReplays, 2, 0, 10)
unfoldable pub replay_limit : JsNumber → ℕ
replay_limit n = bounded_number n 2 0 10

unfoldable pub reconcile : String → JsNumber → ℕ → Db → Reconciliation × Db
unfolding put_reconciliation
reconcile tenant max_replays now db =
    let works = list_for tenant db.work_items in
    let letters = list_for tenant db.dead_letters in
    let leases = list_for tenant db.leases in
    let none_yet : Tally = record { recovered = 0; requeued = 0; quarantined = 0 } in
    recorded tenant now (
      replay (replay_limit max_replays) now works (keep (is_due_letter now) letters)
        (recover leases now (keep (λ w. is_running w.status) works) (db, none_yet)))
