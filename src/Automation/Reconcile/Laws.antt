-- ===== src/Automation/Reconcile/Laws.antt =====
-- What a reconciliation run changes, and what it leaves alone
-- (backend-api/patchforge/automationWork.js, `reconcileAutomationWork`).
use diiac_patchforge.Prelude.{
  ℕ, suc, ◌≤◌, ◌<◌, ◌⊎◌, ◌≡◌, ◌≢◌, refl, inl, inr, true, false, some, String, List, [], ◌∷◌, arith,
  leb, keep, Bool-cases, All,
}
use diiac_patchforge.Prelude.Numbers.{JsNumber}
use diiac_patchforge.Prelude.Texts.{member}
use diiac_patchforge.Store.{list_for, lookup}
use diiac_patchforge.Store.Laws.{lookup-append_record_self}
use diiac_patchforge.Leases.{Lease, lease_keyed}
use diiac_patchforge.Automation.{
  automation_boundary, Work, work_keyed, DeadLetter, dead_letter_keyed, Reconciliation, Db,
  put_reconciliation, pending, DeadStatus, replay_scheduled,
}
use diiac_patchforge.Automation.Enqueue.{allowed_work_kinds}
use diiac_patchforge.Automation.Reconcile.{
  Tally, is_running, has_lost_lease, recover_one, recover, is_due_letter, replay_one, replay,
  replayed_work, replayed_letter, quarantined_letter, reconcile,
}

recover_live :
    (leases : List Lease) (now : ℕ) (works : List Work) (s : Db × Tally)
    → All (λ w. has_lost_lease leases now w ≡ false) works
    → recover leases now works s ≡ s
unfolding recover recover_one
recover_live leases now [] s h = refl
recover_live leases now (work ∷ works) (db, tally) h =
    rw h.0 (recover_live leases now works (db, tally) h.1)

-- Where every running item has a live lease, and no dead letter is open and due, reconciliation changes
-- no item and no letter: it adds its record, which counts nothing.
pub reconcile_quiet :
    (tenant : String) (max_replays : JsNumber) (now : ℕ) (db : Db)
    → All
        (λ w. has_lost_lease (list_for tenant db.leases) now w ≡ false)
        (keep (λ w. is_running w.status) (list_for tenant db.work_items))
    → keep (is_due_letter now) (list_for tenant db.dead_letters) ≡ []
    → let run : Reconciliation = record {
      tenant_id = tenant;
      completed_at = now;
      recovered_expired_leases = 0;
      requeued = 0;
      quarantined = 0;
      boundary = automation_boundary;
    } in
      reconcile tenant max_replays now db ≡ (run, put_reconciliation run db)
unfolding reconcile replay
reconcile_quiet tenant max_replays now db live nothing_due =
    rw
      (
        nothing_due,
        recover_live (list_for tenant db.leases) now
            (keep (λ w. is_running w.status) (list_for tenant db.work_items))
            (db, record { recovered = 0; requeued = 0; quarantined = 0 }) live,
      )
      refl

-- An item that is queued again for a replay of a letter: no attempt is used, and it counts one replay
-- more than the letter did.
abbrev pub IsRequeued : ℕ → DeadLetter → Work → Work → Type 0
IsRequeued now d work work' =
    (work'.status ≡ pending)
    × (work'.attempts ≡ 0)
    × (work'.replay_count ≡ suc d.replay_count)
    × (work'.updated_at ≡ now)
    × (work'.feed_id ≡ work.feed_id)
    × (work'.cve ≡ work.cve)
    × (work'.max_attempts ≡ work.max_attempts)

-- A letter that is replayed: it counts one replay more, and is due at no time.
abbrev pub IsReplayed : ℕ → DeadLetter → DeadLetter → Type 0
IsReplayed now d d' =
    (d'.status ≡ replay_scheduled)
    × (d'.replay_count ≡ suc d.replay_count)
    × (d'.replay_scheduled_at ≡ some now)
    × ((later : ℕ) → is_due_letter later d' ≡ false)

-- A letter that is quarantined: its count stays, and it is due at no time.
abbrev pub IsBuried : ℕ → DeadLetter → DeadLetter → Type 0
IsBuried now d d' =
    (d'.status ≡ DeadStatus.quarantined)
    × (d'.replay_count ≡ d.replay_count)
    × (d'.quarantined_at ≡ some now)
    × ((later : ℕ) → is_due_letter later d' ≡ false)

replayed_work-IsRequeued :
    (now : ℕ) (d : DeadLetter) (work : Work) → IsRequeued now d work (replayed_work now d work)
unfolding replayed_work
replayed_work-IsRequeued now d work = (refl, refl, omega arith, refl, refl, refl, refl)

replayed_letter-IsReplayed : (now : ℕ) (d : DeadLetter) → IsReplayed now d (replayed_letter now d)
unfolding replayed_letter is_due_letter
replayed_letter-IsReplayed now d = (refl, omega arith, refl, λ later. refl)

quarantined_letter-IsBuried : (now : ℕ) (d : DeadLetter) → IsBuried now d (quarantined_letter now d)
unfolding quarantined_letter is_due_letter
quarantined_letter-IsBuried now d = (refl, refl, refl, λ later. refl)

-- What becomes of a due letter whose item is known and of a kind that may run, both having
-- identifiers. Below the limit both are written: the item is queued with no attempt used, and it
-- and the letter count one replay more than the letter did. At the limit the letter is quarantined with
-- its count, and no item is written. Neither letter is due again, whatever the time.
pub replay_decides :
    (most now : ℕ) (d : DeadLetter) (work : Work) (db : Db) (tally : Tally)
    → member work.work_kind allowed_work_kinds ≡ true
    → work.work_id ≢ ""
    → d.dead_letter_id ≢ ""
    → let (db', tally') = replay_one most now d (some work) (db, tally) in
      ((d.replay_count < most)
        × ((work' : Work) × (lookup work.tenant_id work.work_id db'.work_items ≡ some work')
            × IsRequeued now d work work')
        × ((d' : DeadLetter) × (lookup d.tenant_id d.dead_letter_id db'.dead_letters ≡ some d')
            × IsReplayed now d d')
        × (tally'.requeued ≡ suc tally.requeued))
      ⊎ ((most ≤ d.replay_count)
          × (db'.work_items ≡ db.work_items)
          × ((d' : DeadLetter) × (lookup d.tenant_id d.dead_letter_id db'.dead_letters ≡ some d')
              × IsBuried now d d')
          × (tally'.quarantined ≡ suc tally.quarantined))
unfolding replay_one
replay_decides most now d work db tally allowed named named' =
    elim (Bool-cases (leb most d.replay_count)) [
      | inl full ↦
          rw (allowed, full)
            (inr (
              ground arith,
              refl,
              (
                quarantined_letter now d,
                lookup-append_record_self (quarantined_letter now d) db.dead_letters named',
                quarantined_letter-IsBuried now d,
              ),
              refl,
            ))
      | inr room ↦
          rw (allowed, room)
            (inl (
              ground arith,
              (
                replayed_work now d work,
                lookup-append_record_self (replayed_work now d work) db.work_items named,
                replayed_work-IsRequeued now d work,
              ),
              (
                replayed_letter now d,
                lookup-append_record_self (replayed_letter now d) db.dead_letters named',
                replayed_letter-IsReplayed now d,
              ),
              refl,
            ))
    ]

-- A quarantined letter is never due, whatever the time: it is not replayed again.
pub quarantined_not_due :
    (now later : ℕ) (d : DeadLetter) → is_due_letter later (quarantined_letter now d) ≡ false
unfolding is_due_letter quarantined_letter
quarantined_not_due now later d = refl
