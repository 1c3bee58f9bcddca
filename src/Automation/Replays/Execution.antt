-- ===== src/Automation/Replays/Execution.antt =====
-- The execution of a batch keeps the bound on replays (backend-api/patchforge/automationWork.js).
use diiac_patchforge.Prelude.{
  ℕ, suc, ◌-◌, ◌≤◌, ◌<◌, inl, inr, ◌||◌, Option, none, some, String, List, [], ◌∷◌, arith, ltb, leb,
  or_else, Bool-cases, Option-cases, All, All-find, All-take, All-keep, str_eq,
}
use diiac_patchforge.Prelude.Numbers.{JsNumber}
use diiac_patchforge.Leases.{Lease}
use diiac_patchforge.Store.{lookup, list_for}
use diiac_patchforge.Store.Laws.{All-append_record, All-list_for}
use diiac_patchforge.Automation.{
  Work, work_keyed, dead_letter_keyed, RefreshBody, DeadLetter, Db, Env, World, Outcome, returned,
  thrown, FeedResult, Failure, put_work, put_dead_letter, update, tick,
}
use diiac_patchforge.Automation.Replays.{IsBounded, put_work-IsBounded}
use diiac_patchforge.Automation.Execute.{
  attempt_loop, finally, run_leased, running_work, request_lease, execute_current, execute, finish,
}
use diiac_patchforge.Automation.Execute.Base.{
  ExecuteOptions, Execution, attempt_limit, is_allowed, is_completed, is_terminal,
}
use diiac_patchforge.Automation.Execute.Loop.{RoundHolds, PostHolds, attempt_loop_rule}
use diiac_patchforge.Automation.Execute.Rounds.{
  refresh_body, call_client, settle, succeed, fail, retry, wait, resume, bury, dead_letter_of,
  drop_lease, take_lease, renew_lease,
}
use diiac_patchforge.Automation.Pending.{
  due_items, is_due, settled, quarantine, quarantined_work, quarantine_letter, run_batch,
  run_pending,
}

-- What is assumed of the client and of the other workers: they replay nothing beyond the bound.
pub record Respects (most : ℕ) (env : Env) : Type 0 where
  pub refreshes :
      (n : ℕ) (body : RefreshBody) (db : Db)
      → IsBounded most db
      → IsBounded most (env.refresh n body db).1
  pub sleeps : (n ms : ℕ) (db : Db) → IsBounded most db → IsBounded most (env.sleep n ms db)

module _ (most : ℕ) (env : Env) (opts : ExecuteOptions) (tenant : String) (current : Work)
    (respects : Respects most env) (start : current.replay_count ≤ most) where
  abbrev Inv : ℕ → Work → World → Type 0
  Inv attempt u w = IsBounded most w.db × (u.replay_count ≤ most)

  abbrev Post : Execution → World → Type 0
  Post e w = IsBounded most w.db × (e.work_item.replay_count ≤ most)

  resume_round :
      (attempt : ℕ) (scheduled : Work) (p : Option Lease × World)
      → attempt < attempt_limit current
      → Inv attempt scheduled p.1
      → RoundHolds
          (attempt_limit current)
          Inv
          Post
          attempt
          (resume env opts tenant current scheduled p)
  unfolding resume
  resume_round attempt scheduled (none, w) h i = i
  resume_round attempt scheduled (some l, w) h i =
      (h, (put_work-IsBounded most _ w.db i.1 i.0, i.1))

  wait_round :
      (attempt backoff : ℕ) (scheduled : Work) (p : Option Lease × World)
      → attempt < attempt_limit current
      → Inv attempt scheduled p.1
      → RoundHolds
          (attempt_limit current)
          Inv
          Post
          attempt
          (wait env opts tenant current backoff scheduled p)
  unfolding wait renew_lease take_lease tick
  wait_round attempt backoff scheduled (none, w) h i = i
  wait_round attempt backoff scheduled (some l, w) h i =
      resume_round attempt scheduled _ h (respects.sleeps w.turn backoff w.db i.0, i.1)

  retry_round :
      (attempt : ℕ) (u : Work) (failure : Failure) (w : World)
      → attempt < attempt_limit current
      → Inv attempt u w
      → RoundHolds
          (attempt_limit current)
          Inv
          Post
          attempt
          (retry env opts tenant current attempt u failure w)
  unfolding retry take_lease
  retry_round attempt u failure w h i =
      wait_round attempt _ _ _ h (put_work-IsBounded most _ w.db i.1 i.0, i.1)

  bury-Post :
      (attempt : ℕ) (u : Work) (failure : Failure) (w : World)
      → Inv attempt u w
      → PostHolds Post (bury env opts tenant current attempt u failure w)
  unfolding bury dead_letter_of put_dead_letter put_work
  bury-Post attempt u failure w i = (
    (
      All-append_record (λ x. x.replay_count ≤ most) _ w.db.work_items i.1 i.0.0,
      All-append_record (λ (x : DeadLetter). x.replay_count ≤ most) _ w.db.dead_letters start i.0.1,
    ),
    i.1,
  )

  succeed-Post :
      (attempt : ℕ) (u : Work) (r : FeedResult) (w : World)
      → Inv attempt u w
      → PostHolds Post (succeed env opts tenant current attempt u r w)
  unfolding succeed
  succeed-Post attempt u r w i = (put_work-IsBounded most _ w.db i.1 i.0, i.1)

  settle_round :
      (attempt : ℕ) (u : Work) (p : Outcome × World)
      → attempt ≤ attempt_limit current
      → Inv attempt u p.1
      → RoundHolds
          (attempt_limit current)
          Inv
          Post
          attempt
          (settle env opts tenant current attempt u p)
  unfolding settle fail
  settle_round attempt u (returned r, w) le i = succeed-Post attempt u r w i
  settle_round attempt u (thrown e, w) le i =
      elim (Bool-cases (ltb attempt (attempt_limit current))) [
        | inl t ↦ rw t (retry_round attempt u _ _ (ground arith) i)
        | inr f ↦ rw f (bury-Post attempt u _ _ i)
      ]

  finally-Post :
      (p : Execution × World)
      → PostHolds Post p
      → PostHolds Post (finally env opts tenant current p)
  unfolding drop_lease
  finally-Post (e, w) h = h

  run_leased-Post :
      (p : Option Lease × World)
      → IsBounded most p.1.db
      → current.attempts < attempt_limit current
      → PostHolds Post (run_leased env opts tenant current p)
  unfolding run_leased running_work call_client tick update
  run_leased-Post (none, w) b h = (b, start)
  run_leased-Post (some l, w) b h =
      let work = running_work env opts tenant current (env.now w.turn) (env.now (suc w.turn)) in
      finally-Post
        (attempt_loop env opts tenant current (suc (attempt_limit current) - suc current.attempts)
          (suc current.attempts) work (update (put_work work) (tick (tick w))))
        (attempt_loop_rule env opts tenant current Inv Post
          (λ a u x le i.
            settle_round a u (call_client env opts tenant current x) le
              (respects.refreshes x.turn (refresh_body env opts tenant current) x.db i.0, i.1))
          (suc (attempt_limit current) - suc current.attempts) (suc current.attempts) _ _
          (omega arith) (omega arith) (put_work-IsBounded most _ w.db start b, start))

  request_lease-IsBounded :
      (now : Option ℕ) (w : World)
      → IsBounded most w.db
      → IsBounded most (request_lease env opts tenant current now w).1.db
  unfolding take_lease renew_lease
  request_lease-IsBounded none w b = b
  request_lease-IsBounded (some now) w b = b

  execute_current-Post :
      (w : World) → IsBounded most w.db → PostHolds Post (execute_current env opts tenant current w)
  unfolding execute_current
  execute_current-Post w b = elim (Bool-cases (is_completed current.status)) [
    | inl done ↦ rw done (b, start)
    | inr open_work ↦
        elim (Bool-cases
          (is_terminal current.status || leb (attempt_limit current) current.attempts)) [
            | inl stopped ↦ rw (open_work, stopped) (b, start)
            | inr going ↦
                rw (open_work, going)
                  (run_leased-Post _ (request_lease-IsBounded opts.fixed_now w b) (ground arith))
          ]
  ]

module _ (most : ℕ) (env : Env) (opts : ExecuteOptions) (tenant : String)
    (respects : Respects most env) where
  settled-Post :
      (item : Work) (p : Execution × World)
      → PostHolds (λ e v. IsBounded most v.db × (e.work_item.replay_count ≤ most)) p
      → IsBounded most (settled env tenant item (finish p)).1.db
  unfolding settled
  settled-Post item (e, w) h = h.0

  current-IsBounded :
      (item : Work) (db : Db)
      → item.replay_count ≤ most
      → IsBounded most db
      → (or_else (lookup tenant item.work_id db.work_items) item).replay_count ≤ most
  unfolding lookup
  current-IsBounded item db h b = elim (Option-cases (lookup tenant item.work_id db.work_items)) [
    | inl e ↦ rw e h
    | inr (x, e) ↦ rw e (
        All-find (λ (y : Work). y.replay_count ≤ most) (λ y. str_eq y.work_id item.work_id)
          (list_for tenant db.work_items)
          (All-list_for (λ y. y.replay_count ≤ most) tenant db.work_items b.0) e)
  ]

  execute-IsBounded :
      (item : Work) (w : World)
      → item.replay_count ≤ most
      → IsBounded most w.db
      → IsBounded most (settled env tenant item (execute env opts tenant item w)).1.db
  unfolding execute settled quarantine quarantine_letter quarantined_work put_work put_dead_letter
  execute-IsBounded item w h b = elim (Bool-cases (is_allowed item)) [
    | inl allowed ↦
        let current = or_else (lookup tenant item.work_id w.db.work_items) item in
        rw allowed (
          settled-Post item (execute_current env opts tenant current w) (
            execute_current-Post most env opts tenant current respects
              (current-IsBounded item w.db h b) w b))
    | inr refused ↦ rw refused (
      All-append_record (λ x. x.replay_count ≤ most) _ w.db.work_items h b.0,
      All-append_record (λ (x : DeadLetter). x.replay_count ≤ most) _ w.db.dead_letters h b.1,
    )
  ]

  run_batch-IsBounded :
      (items : List Work) (w : World)
      → All (λ (x : Work). x.replay_count ≤ most) items
      → IsBounded most w.db
      → IsBounded most (run_batch env opts tenant items w).1.db
  unfolding run_batch
  run_batch-IsBounded [] w h b = b
  run_batch-IsBounded (item ∷ items) w h b =
      run_batch-IsBounded items (settled env tenant item (execute env opts tenant item w)).1 h.1
        (execute-IsBounded item w h.0 b)

  -- If the client and the other workers replay nothing beyond a bound, a batch of work keeps the
  -- bound too: completing, retrying, dead-lettering or quarantining an item never raises its
  -- replay count beyond it.
  pub run_pending-IsBounded :
      (limit : JsNumber) (now : ℕ) (w : World)
      → IsBounded most w.db
      → IsBounded most (run_pending env opts tenant limit now w).1.db
  unfolding run_pending due_items
  run_pending-IsBounded limit now w b =
      run_batch-IsBounded (due_items tenant limit now w.db.work_items) w
        (All-take (λ (x : Work). x.replay_count ≤ most) _ _
          (All-keep (λ (x : Work). x.replay_count ≤ most) (is_due now) _
            (All-list_for (λ x. x.replay_count ≤ most) tenant w.db.work_items b.0)))
        b
