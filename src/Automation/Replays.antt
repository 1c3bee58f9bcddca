-- ===== src/Automation/Replays.antt =====
-- Replay counts stay within the limit that reconciliation enforces, whatever the workers do
-- (backend-api/patchforge/automationWork.js).
pub mod Execution
use diiac_patchforge.Prelude.{
  ℕ, zero, suc, ◌+◌, ◌≤◌, ◌<◌, ◌≡◌, ◌≢◌, refl, inl, inr, ◌⊎◌, Bool, true, false, Option, none, some,
  String, List, [], ◌∷◌, arith, leb, not, if◌then◌else◌, Bool-cases, Option-cases, All, All-keep,
  All-find, keep, find, str_eq,
}
use diiac_patchforge.Prelude.Numbers.{JsNumber}
use diiac_patchforge.Prelude.Texts.{member}
use diiac_patchforge.Store.{list_for, append_record}
use diiac_patchforge.Store.Laws.{All-append_record, All-list_for}
use diiac_patchforge.Leases.{Lease, lease_keyed}
use diiac_patchforge.Automation.{
  Work, work_keyed, DeadLetter, dead_letter_keyed, Db, put_work, put_dead_letter,
  put_reconciliation,
}
use diiac_patchforge.Automation.Enqueue.{allowed_work_kinds}
use diiac_patchforge.Automation.Reconcile.{
  Tally, is_running, has_lost_lease, recovered_work, recover_one, recover, is_due_letter,
  quarantined_letter, replayed_work, replayed_letter, replay_one, work_of, replay, replay_limit,
  reconcile,
}

-- No work item and no dead letter has been replayed more than `most` times.
abbrev pub IsBounded : ℕ → Db → Type 0
IsBounded most db =
    All (λ (w : Work). w.replay_count ≤ most) db.work_items
    × All (λ (d : DeadLetter). d.replay_count ≤ most) db.dead_letters

pub put_work-IsBounded :
    (most : ℕ) (work : Work) (db : Db)
    → work.replay_count ≤ most
    → IsBounded most db
    → IsBounded most (put_work work db)
unfolding put_work
put_work-IsBounded most work db h b =
    (All-append_record (λ w. w.replay_count ≤ most) work db.work_items h b.0, b.1)

pub put_dead_letter-IsBounded :
    (most : ℕ) (d : DeadLetter) (db : Db)
    → d.replay_count ≤ most
    → IsBounded most db
    → IsBounded most (put_dead_letter d db)
unfolding put_dead_letter
put_dead_letter-IsBounded most d db h b =
    (b.0, All-append_record (λ x. x.replay_count ≤ most) d db.dead_letters h b.1)

recover_one-IsBounded :
    (most : ℕ) (leases : List Lease) (now : ℕ) (work : Work) (s : Db × Tally)
    → work.replay_count ≤ most
    → IsBounded most s.0
    → IsBounded most (recover_one leases now work s).0
unfolding recover_one
recover_one-IsBounded most leases now work (db, tally) h b =
    elim (Bool-cases (has_lost_lease leases now work)) [
      | inl e ↦ rw e (put_work-IsBounded most (recovered_work now work) db h b)
      | inr e ↦ rw e b
    ]

recover-IsBounded :
    (most : ℕ) (leases : List Lease) (now : ℕ) (works : List Work) (s : Db × Tally)
    → All (λ (w : Work). w.replay_count ≤ most) works
    → IsBounded most s.0
    → IsBounded most (recover leases now works s).0
unfolding recover
recover-IsBounded most leases now [] s h b = b
recover-IsBounded most leases now (work ∷ works) s h b =
    recover-IsBounded most leases now works (recover_one leases now work s) h.1
      (recover_one-IsBounded most leases now work s h.0 b)

replay_one-IsBounded :
    (most now : ℕ) (d : DeadLetter) (found : Option Work) (s : Db × Tally)
    → d.replay_count ≤ most
    → IsBounded most s.0
    → IsBounded most (replay_one most now d found s).0
unfolding replay_one
replay_one-IsBounded most now d none s h b = b
replay_one-IsBounded most now d (some work) (db, tally) h b =
    elim (Bool-cases (member work.work_kind allowed_work_kinds)) [
      | inr e ↦ rw e b
      | inl e ↦ elim (Bool-cases (leb most d.replay_count)) [
        | inl full ↦ rw (e, full) (put_dead_letter-IsBounded most (quarantined_letter now d) db h b)
        | inr room ↦
            rw (e, room)
              (put_dead_letter-IsBounded most (replayed_letter now d)
                (put_work (replayed_work now d work) db) (ground arith)
                (put_work-IsBounded most (replayed_work now d work) db (ground arith) b))
      ]
    ]

replay-IsBounded :
    (most now : ℕ) (works : List Work) (ds : List DeadLetter) (s : Db × Tally)
    → All (λ (d : DeadLetter). d.replay_count ≤ most) ds
    → IsBounded most s.0
    → IsBounded most (replay most now works ds s).0
unfolding replay
replay-IsBounded most now works [] s h b = b
replay-IsBounded most now works (d ∷ ds) s h b =
    replay-IsBounded most now works ds _ h.1
      (replay_one-IsBounded most now d (work_of works d) s h.0 b)

-- Where no work item and no dead letter has been replayed beyond the limit of a reconciliation,
-- none has been after it.
pub reconcile-IsBounded :
    (tenant : String) (max_replays : JsNumber) (now : ℕ) (db : Db)
    → IsBounded (replay_limit max_replays) db
    → IsBounded (replay_limit max_replays) (reconcile tenant max_replays now db).1
unfolding reconcile
reconcile-IsBounded tenant max_replays now db b = kept
  where
    most : ℕ
    most = replay_limit max_replays

    works : All (λ (w : Work). w.replay_count ≤ most) (list_for tenant db.work_items)
    works = All-list_for (λ w. w.replay_count ≤ most) tenant db.work_items b.0

    letters : All (λ (d : DeadLetter). d.replay_count ≤ most) (list_for tenant db.dead_letters)
    letters = All-list_for (λ d. d.replay_count ≤ most) tenant db.dead_letters b.1

    recovered : Db × Tally
    recovered =
        recover (list_for tenant db.leases) now
          (keep (λ w. is_running w.status) (list_for tenant db.work_items))
          (db, record { recovered = 0; requeued = 0; quarantined = 0 })

    kept :
        IsBounded most
          (replay most now
            (list_for tenant db.work_items)
            (keep (is_due_letter now) (list_for tenant db.dead_letters))
            recovered).0
    kept =
        replay-IsBounded most now (list_for tenant db.work_items)
          (keep (is_due_letter now) (list_for tenant db.dead_letters)) recovered
          (All-keep (λ d. d.replay_count ≤ most) (is_due_letter now) _ letters)
          (recover-IsBounded most (list_for tenant db.leases) now
            (keep (λ w. is_running w.status) (list_for tenant db.work_items)) _
            (All-keep (λ w. w.replay_count ≤ most) (λ w. is_running w.status) _ works) b)
