-- ===== src/Cycles/Scheduler/Laws.antt =====
-- What a run of the scheduler claims and leaves (backend-api/patchforge/scheduler.js).
use diiac_patchforge.Prelude.{
  ℕ, ◌≡◌, refl, ◌⊎◌, inl, inr, ◌||◌, Bool, true, false, not, Option, none, some, String, List, any,
  All, if_false, if_both,
}
use diiac_patchforge.Leases.{Lease, lease_keyed}
use diiac_patchforge.Automation.{
  Work, work_keyed, Checkpoint, checkpoint_keyed, Db, Env, World, put_audit, put_checkpoint, update,
  tick,
}
use diiac_patchforge.Automation.Execute.Base.{is_completed}
use diiac_patchforge.Cycles.{take_cycle_lease, drop_cycle_lease}
use diiac_patchforge.Cycles.Scheduler.{
  SchedulerResult, Ran, threw, gave, status_of_run, feed_warnings, run_audit, scheduler_lease,
  scheduler_ttl, conclude, store_checkpoint, cycle_work, after_feeds, skip_or_run, finally,
  with_lease, run_scheduler_once,
}
use diiac_patchforge.Cycles.Scheduler.Refresh.{SchedulerOptions, refresh_feeds}
use diiac_patchforge.Cycles.Scheduler.Gather.{Gathered, sweep, is_incomplete}
use diiac_patchforge.Cycles.Scheduler.Priority.{Vulnerability}
use diiac_patchforge.Cycles.Scheduler.Sweeps.{sweep_complete}
use diiac_patchforge.Cycles.Scheduler.Claims.{
  claims_completion, ClaimHolds, Leaves, Honest, claim-Leaves, leases-Leaves, checkpoint-IsDone,
  put_audit-ClaimHolds,
}

either : (b : Bool) → b ≡ false ⊎ b ≡ true
either true = inr refl
either false = inl refl

gave_inj : {r s : SchedulerResult} → gave r ≡ gave s → r ≡ s
gave_inj h = cc

module _ (hash : String → String) (listed : ℕ → List Vulnerability) (env : Env) (tenant : String)
    (o : SchedulerOptions) where
  stored_claim :
      (works : List Work) (g : Gathered) (now : ℕ) (db : Db)
      → All (λ (w : Work). is_completed w.status ≡ true) (cycle_work tenant o db)
      → is_incomplete g ≡ false
      → claims_completion (status_of_run works g) ≡ true
      → ClaimHolds tenant o (store_checkpoint tenant o works g now db)
  unfolding put_checkpoint cycle_work
  stored_claim works g now db h e k =
      if_false (ClaimHolds tenant o) (is_incomplete g) db e
        (h, checkpoint-IsDone tenant o (status_of_run works g) now db k)

  claimed :
      (works : List Work) (g : Gathered)
      → is_incomplete g ≡ false
      → claims_completion (status_of_run works g) ≡ true
  claimed works g e = rw e (
      if_both (λ s. claims_completion s ≡ true)
        (feed_warnings works g || any (λ _. true) g.failures) refl refl)

  -- the end of a run, by whether what it gathered is incomplete
  concluded :
      (start : List Checkpoint) (works : List Work) (g : Gathered) (now : ℕ) (db : Db)
      → works ≡ cycle_work tenant o db
      → is_incomplete g ≡ false ⊎ is_incomplete g ≡ true
      → (is_incomplete g ≡ false → All (λ (w : Work). is_completed w.status ≡ true) works)
      → Leaves tenant o
          (status_of_run works g)
          start
          db.checkpoints
          (put_audit (run_audit tenant o g) (store_checkpoint tenant o works g now db))
  unfolding put_audit
  concluded start works g now db same (inr e) all = rw e refl
  concluded start works g now db same (inl e) all =
      let claims = claimed works g e in
      claim-Leaves tenant o (status_of_run works g) start db.checkpoints _ claims (
        put_audit-ClaimHolds tenant o (run_audit tenant o g) _
          (stored_claim works g now db (rw same at all e) e claims))

  conclude-Honest :
      (start : List Checkpoint) (g : Gathered) (w : World)
      → Honest tenant o start w.db.checkpoints (after_feeds hash listed env tenant o (some g, w))
  unfolding conclude update tick
  conclude-Honest start g w =
      let works = cycle_work tenant o w.db in
      concluded start works (sweep works g) (env.now w.turn) w.db refl
        (either (is_incomplete (sweep works g))) (λ e. (sweep_complete works g e).1)

  after_feeds-Honest :
      (start : List Checkpoint) (p : Option Gathered × World)
      → Honest tenant o start p.1.db.checkpoints (after_feeds hash listed env tenant o p)
  after_feeds-Honest start (none, w) = tt
  after_feeds-Honest start (some g, w) = conclude-Honest start g w

  -- the checkpoints once the feeds of a run have been refreshed
  abbrev pub fed_checkpoints : World → List Checkpoint
  fed_checkpoints w = (refresh_feeds hash listed env tenant o w).1.db.checkpoints

  skip_or_run-Honest :
      (c : Option Checkpoint) (w : World)
      → Honest tenant o w.db.checkpoints
          (fed_checkpoints w)
          (skip_or_run hash listed env tenant o c w)
  unfolding tick
  skip_or_run-Honest none w = after_feeds-Honest w.db.checkpoints _
  skip_or_run-Honest (some c) w =
      if_both (Honest tenant o w.db.checkpoints (fed_checkpoints w)) (not o.force) refl
        (after_feeds-Honest w.db.checkpoints _)

  finally-Honest :
      (start fed : List Checkpoint) (p : Ran × World)
      → Honest tenant o start fed p
      → Honest tenant o start fed (finally hash listed env tenant o p)
  unfolding drop_cycle_lease update tick
  finally-Honest start fed (threw, w) h = tt
  finally-Honest start fed (gave r, w) h = leases-Leaves tenant o r.status start fed _ w.db h

  with_lease-Honest :
      (p : Option Lease × World)
      → Honest tenant o p.1.db.checkpoints
          (fed_checkpoints p.1)
          (with_lease hash listed env tenant o p)
  unfolding tick
  with_lease-Honest (none, w) = refl
  with_lease-Honest (some l, w) =
      finally-Honest w.db.checkpoints (fed_checkpoints w) _ (skip_or_run-Honest _ w)

  given-Leaves :
      (start fed : List Checkpoint) (p : Ran × World) (r : SchedulerResult)
      → Honest tenant o start fed p
      → p.0 ≡ gave r
      → Leaves tenant o r.status start fed p.1.db
  given-Leaves start fed (threw, w) r h e = cc
  given-Leaves start fed (gave r', w) r h e = rw (← (gave_inj e)) h

  -- the world of a run that has asked for its lease
  abbrev pub leased : World → World
  leased w =
      (take_cycle_lease tenant (scheduler_lease tenant) o.lease_owner (scheduler_ttl o)
        (env.now w.turn) (tick w)).1

  -- A run of the scheduler that gives a result claims that its cycle is complete, by its status and by
  -- a checkpoint, only where it is. One that reports its cycle as completed, with or without warnings,
  -- has left every item of the cycle completed, and the checkpoint that marks the cycle as done. One
  -- that reports it as incomplete has stored no checkpoint since its feeds were refreshed, and one that is skipped or
  -- finds its lease contended has stored none at all.
  pub run_scheduler_once-ClaimHolds :
      (w : World) (r : SchedulerResult)
      → (run_scheduler_once hash listed env tenant o w).0 ≡ gave r
      → Leaves tenant o r.status w.db.checkpoints
          (fed_checkpoints (leased w))
          (run_scheduler_once hash listed env tenant o w).1.db
  unfolding run_scheduler_once take_cycle_lease update tick
  run_scheduler_once-ClaimHolds w r e =
      given-Leaves w.db.checkpoints (fed_checkpoints (leased w)) _ r (with_lease-Honest _) e
