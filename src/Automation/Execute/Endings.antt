-- ===== src/Automation/Execute/Endings.antt =====
-- How one run of a work item ends (backend-api/patchforge/automationWork.js,
-- `executeSourceFeedWork`).
use diiac_patchforge.Prelude.{
  ℕ, suc, ◌+◌, ◌≤◌, ◌<◌, ◌≡◌, ◌≢◌, refl, inl, inr, true, Option, none, some, String, List, arith,
  ltb, is_some, Bool-cases,
}
use diiac_patchforge.Leases.{Lease}
use diiac_patchforge.Store.{lookup, append_record}
use diiac_patchforge.Store.Laws.{lookup-append_record, has_key_self}
use diiac_patchforge.Automation.{
  Work, work_keyed, completed, dead_lettered, retry_scheduled, open_letter, DeadLetter, Env, World,
  Db, Outcome, returned, thrown, Failure, put_work, put_audit, put_checkpoint, put_dead_letter,
  update,
}
use diiac_patchforge.Automation.Execute.{attempt_loop}
use diiac_patchforge.Automation.Execute.Loop.{RoundHolds, PostHolds, attempt_loop_rule}
use diiac_patchforge.Automation.Execute.Base.{
  ExecuteOptions, Execution, lease_lost_before_retry, lease_lost_after_retry_delay, attempt_limit,
}
use diiac_patchforge.Automation.Execute.Rounds.{
  call_client, settle, succeed, fail, retry, wait, resume, bury, completed_work, dead_work,
}

-- An item waits for another attempt, and has one left.
abbrev pub IsScheduled : Work → Work → Type 0
IsScheduled current u =
    (u.status ≡ retry_scheduled)
    × (is_some u.next_retry_at ≡ true)
    × (u.attempts < attempt_limit current)

-- The ways in which a run that has its lease ends.
pub data Ending (env : Env) (tenant : String) (current : Work) (e : Execution) (w : World)
    : Type 0 where
  completes :
      e.work_item.status ≡ completed
      → is_some e.result ≡ true
      → e.work_item.result ≡ e.result
      → e.work_item.attempts ≤ attempt_limit current
      → lookup tenant current.work_id w.db.work_items ≡ some e.work_item
      → Ending env tenant current e w
  buries :
      (d : DeadLetter)
      → e.work_item.status ≡ dead_lettered
      → e.work_item.attempts ≡ attempt_limit current
      → e.dead_letter ≡ some d
      → d.status ≡ open_letter
      → d.replay_count ≡ current.replay_count
      → lookup tenant current.work_id w.db.work_items ≡ some e.work_item
      → Ending env tenant current e w
  -- the lease is lost at once, with the item stored
  defers :
      IsScheduled current e.work_item
      → e.deferred ≡ some lease_lost_before_retry
      → lookup tenant current.work_id w.db.work_items ≡ some e.work_item
      → Ending env tenant current e w
  -- the lease is lost during the wait: the item was stored before it, and the items are what the other
  -- workers left of them by its end
  waits :
      (turn backoff : ℕ) (before : Db)
      → IsScheduled current e.work_item
      → e.deferred ≡ some lease_lost_after_retry_delay
      → lookup tenant current.work_id before.work_items ≡ some e.work_item
      → w.db.work_items ≡ (env.sleep turn backoff before).work_items
      → Ending env tenant current e w

module _ (env : Env) (opts : ExecuteOptions) (tenant : String) (current : Work) where
  -- the item that the loop carries is the item of the run
  abbrev Carried : ℕ → Work → World → Type 0
  Carried attempt u w = (u.tenant_id ≡ tenant) × (u.work_id ≡ current.work_id)

  module _ (named : current.work_id ≢ "") where
    stored :
        (u : Work) (items : List Work)
        → u.tenant_id ≡ tenant
        → u.work_id ≡ current.work_id
        → lookup tenant current.work_id (append_record u items) ≡ some u
    stored u items t i =
        rw (lookup-append_record tenant current.work_id u items named)
          (rw (← t, ← i, has_key_self u))

    resume_round :
        (attempt : ℕ) (scheduled : Work) (p : Option Lease × World)
        → Carried attempt scheduled p.1
        → scheduled.status ≡ retry_scheduled
        → scheduled.attempts ≡ attempt
        → is_some scheduled.next_retry_at ≡ true
        → attempt < attempt_limit current
        → (turn backoff : ℕ) (before : Db)
        → lookup tenant current.work_id before.work_items ≡ some scheduled
        → p.1.db.work_items ≡ (env.sleep turn backoff before).work_items
        → RoundHolds
            (attempt_limit current)
            Carried
            (Ending env tenant current)
            attempt
            (resume env opts tenant current scheduled p)
    unfolding resume
    resume_round attempt scheduled (none, w) c s a n h turn backoff before kept left =
        waits turn backoff before (s, n, rw a h) refl kept left
    resume_round attempt scheduled (some l, w) c s a n h turn backoff before kept left = (h, c)

    wait_round :
        (attempt backoff : ℕ) (scheduled : Work) (p : Option Lease × World)
        → Carried attempt scheduled p.1
        → scheduled.status ≡ retry_scheduled
        → scheduled.attempts ≡ attempt
        → is_some scheduled.next_retry_at ≡ true
        → attempt < attempt_limit current
        → lookup tenant current.work_id p.1.db.work_items ≡ some scheduled
        → RoundHolds
            (attempt_limit current)
            Carried
            (Ending env tenant current)
            attempt
            (wait env opts tenant current backoff scheduled p)
    unfolding wait
    wait_round attempt backoff scheduled (none, w) c s a n h kept = defers (s, n, rw a h) refl kept
    wait_round attempt backoff scheduled (some l, w) c s a n h kept =
        resume_round attempt scheduled _ c s a n h w.turn backoff w.db kept refl

    retry_round :
        (attempt : ℕ) (u : Work) (failure : Failure) (w : World)
        → Carried attempt u w
        → attempt < attempt_limit current
        → RoundHolds
            (attempt_limit current)
            Carried
            (Ending env tenant current)
            attempt
            (retry env opts tenant current attempt u failure w)
    unfolding retry
    retry_round attempt u failure w c h =
        wait_round attempt _ _ _ c refl refl refl h (stored _ _ c.0 c.1)

    settle_round :
        (attempt : ℕ) (u : Work) (p : Outcome × World)
        → attempt ≤ attempt_limit current
        → Carried attempt u p.1
        → RoundHolds
            (attempt_limit current)
            Carried
            (Ending env tenant current)
            attempt
            (settle env opts tenant current attempt u p)
    unfolding settle succeed fail bury completed_work dead_work update put_work put_audit
        put_checkpoint put_dead_letter
    settle_round attempt u (returned r, w) le c = completes refl refl refl le (stored _ _ c.0 c.1)
    settle_round attempt u (thrown e, w) le c =
        elim (Bool-cases (ltb attempt (attempt_limit current))) [
          | inl t ↦ rw t (retry_round attempt u _ _ c (ground arith))
          | inr f ↦ rw f (buries _ refl (ground arith) refl refl refl (stored _ _ c.0 c.1))
        ]

    -- A run of the loop over the attempts ends in one of four ways. The item is stored as completed,
    -- with the client's result; or every attempt has failed, and it is stored as dead-lettered, with
    -- an open letter that carries its replay count; or its lease went to another worker, before the wait
    -- for a retry or during it, and it is stored as scheduled for a retry, with attempts to spare.
    pub attempt_loop-Ending :
        (left attempt : ℕ) (u : Work) (w : World)
        → attempt + left ≡ suc (attempt_limit current)
        → attempt ≤ attempt_limit current
        → Carried attempt u w
        → PostHolds
            (Ending env tenant current)
            (attempt_loop env opts tenant current left attempt u w)
    unfolding call_client
    attempt_loop-Ending left attempt u w total within c =
        attempt_loop_rule env opts tenant current Carried (Ending env tenant current)
          (λ a v x le h. settle_round a v (call_client env opts tenant current x) le h) left attempt
          u w total within c
