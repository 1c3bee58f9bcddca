-- ===== src/Cycles/Scheduler/Claims.antt =====
-- What a claim of completion rests on, and what a run leaves by the status that it reports
-- (backend-api/patchforge/scheduler.js).
use diiac_patchforge.Prelude.{
  ℕ, ◌≡◌, refl, ap, ◌∙◌, inl, inr, Bool, true, false, ◌&&◌, some, is_some, String, List, [], ◌∷◌,
  str_eq, find, All, Bool-cases, some_inj,
}
use diiac_patchforge.Prelude.Texts.{member, append-ne-nil}
use diiac_patchforge.Store.{lookup, list_for, append_record}
use diiac_patchforge.Store.Laws.{lookup-append_record_self}
use diiac_patchforge.Leases.{Lease, lease_keyed}
use diiac_patchforge.Automation.{
  Work, work_keyed, Checkpoint, checkpoint_keyed, Audit, Db, World, put_audit,
}
use diiac_patchforge.Automation.Execute.Base.{is_completed}
use diiac_patchforge.Cycles.Scheduler.{
  SchedulerStatus, running, lease_contended, skipped_idempotent, incomplete,
  completed_with_warnings, completed, Ran, threw, gave, cycle_checkpoint_id, cycle_work,
  cycle_checkpoint, existing_cycle, status_name,
}
use diiac_patchforge.Cycles.Scheduler.Refresh.{SchedulerOptions}

-- the statuses by which a run claims that its cycle is complete
abbrev pub claims_completion : SchedulerStatus → Bool
claims_completion completed = true
claims_completion completed_with_warnings = true
claims_completion _ = false

find_both :
    (p q : Checkpoint → Bool) (xs : List Checkpoint) (a : Checkpoint)
    → find p xs ≡ some a
    → q a ≡ true
    → find (λ x. p x && q x) xs ≡ some a
find_both p q [] a h k = cc
find_both p q (x ∷ xs) a h k = elim (Bool-cases (p x)) [
  | inl e ↦ let same : some x ≡ some a = rw e at h in rw (e, (ap q (some_inj same) ∙ k)) same
  | inr e ↦ rw e (find_both p q xs a (rw e at h) k)
]

claim_is_done :
    (s : SchedulerStatus)
    → claims_completion s ≡ true
    → member (status_name s) ("completed" ∷ "completed_with_warnings" ∷ []) ≡ true
claim_is_done completed h = refl
claim_is_done completed_with_warnings h = refl
claim_is_done running h = cc
claim_is_done lease_contended h = cc
claim_is_done skipped_idempotent h = cc
claim_is_done incomplete h = cc

module _ (tenant : String) (o : SchedulerOptions) where
  -- What a claim of completion rests on, and leaves: every item of the cycle is completed, and the
  -- checkpoint is stored by which a later run of the cycle is skipped.
  abbrev pub ClaimHolds : Db → Type 0
  ClaimHolds db =
      All (λ (w : Work). is_completed w.status ≡ true) (cycle_work tenant o db)
      × (is_some (existing_cycle tenant o db) ≡ true)

  -- What a run leaves, by the status that it reports: a claim that holds; or no checkpoint of its own, so
  -- that the checkpoints are those of the start, or for an incomplete run those after its feeds.
  abbrev pub Leaves : SchedulerStatus → List Checkpoint → List Checkpoint → Db → Type 0
  Leaves completed start fed db = ClaimHolds db
  Leaves completed_with_warnings start fed db = ClaimHolds db
  Leaves incomplete start fed db = db.checkpoints ≡ fed
  Leaves skipped_idempotent start fed db = db.checkpoints ≡ start
  Leaves lease_contended start fed db = db.checkpoints ≡ start
  Leaves running start fed db = ⊥

  abbrev pub Honest : List Checkpoint → List Checkpoint → Ran × World → Type 0
  Honest start fed (threw, w) = Unit
  Honest start fed (gave r, w) = Leaves r.status start fed w.db

  pub claim-Leaves :
      (s : SchedulerStatus) (start fed : List Checkpoint) (db : Db)
      → claims_completion s ≡ true
      → ClaimHolds db
      → Leaves s start fed db
  claim-Leaves completed start fed db h k = k
  claim-Leaves completed_with_warnings start fed db h k = k
  claim-Leaves incomplete start fed db h k = cc
  claim-Leaves skipped_idempotent start fed db h k = cc
  claim-Leaves lease_contended start fed db h k = cc
  claim-Leaves running start fed db h k = cc

  pub Leaves-claim :
      (s : SchedulerStatus) (start fed : List Checkpoint) (db : Db)
      → claims_completion s ≡ true
      → Leaves s start fed db
      → ClaimHolds db
  Leaves-claim completed start fed db h k = k
  Leaves-claim completed_with_warnings start fed db h k = k
  Leaves-claim incomplete start fed db h k = cc
  Leaves-claim skipped_idempotent start fed db h k = cc
  Leaves-claim lease_contended start fed db h k = cc
  Leaves-claim running start fed db h k = cc

  pub leases-Leaves :
      (s : SchedulerStatus) (start fed : List Checkpoint) (ls : List Lease) (db : Db)
      → Leaves s start fed db
      → Leaves s start fed (record db { leases = ls })
  unfolding existing_cycle cycle_work
  leases-Leaves completed start fed ls db h = h
  leases-Leaves completed_with_warnings start fed ls db h = h
  leases-Leaves incomplete start fed ls db h = h
  leases-Leaves skipped_idempotent start fed ls db h = h
  leases-Leaves lease_contended start fed ls db h = h
  leases-Leaves running start fed ls db h = h

  pub checkpoint-IsDone :
      (s : SchedulerStatus) (now : ℕ) (db : Db)
      → claims_completion s ≡ true
      → is_some (
          existing_cycle tenant o (record db {
            checkpoints = append_record (cycle_checkpoint tenant o s now) db.checkpoints;
          }))
        ≡ true
  unfolding existing_cycle cycle_checkpoint lookup
  checkpoint-IsDone s now db h =
      let c = cycle_checkpoint tenant o s now in
      let found : lookup tenant (cycle_checkpoint_id o) (append_record c db.checkpoints) ≡ some c =
        lookup-append_record_self c db.checkpoints
          (append-ne-nil "scheduler-cycle-" o.cycle_id (λ e. cc)) in
      let done =
        find_both (λ x. str_eq x.checkpoint_id (cycle_checkpoint_id o))
          (λ x. member x.result_status ("completed" ∷ "completed_with_warnings" ∷ []))
          (list_for tenant (append_record c db.checkpoints)) c found (claim_is_done s h) in
      ap is_some done

  pub put_audit-ClaimHolds : (a : Audit) (db : Db) → ClaimHolds db → ClaimHolds (put_audit a db)
  unfolding put_audit existing_cycle cycle_work
  put_audit-ClaimHolds a db h = h
