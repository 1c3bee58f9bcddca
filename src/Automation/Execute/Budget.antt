-- ===== src/Automation/Execute/Budget.antt =====
-- How often one run of `executeSourceFeedWork` calls the source-feed client
-- (backend-api/patchforge/automationWork.js).
use diiac_patchforge.Prelude.{
  ℕ, zero, suc, ◌+◌, ◌-◌, ◌≤◌, ◌≡◌, refl, ap, inl, inr, ◌||◌, Option, none, some, String, List,
  arith, length, ltb, leb, or_else, Bool-cases,
}
use diiac_patchforge.Leases.{Lease}
use mathlib.Core.Path.{subst}
use diiac_patchforge.Prelude.Numbers.{of_ℕ, bounded_number-le}
use diiac_patchforge.Store.{lookup}
use diiac_patchforge.Automation.{
  Work, work_keyed, Env, World, Outcome, returned, thrown, FeedResult, RefreshBody, ErrorInfo,
  Failure, tick, update,
}
use diiac_patchforge.Automation.Execute.{
  attempt_loop, run_leased, request_lease, execute_current, execute, continue,
}
use diiac_patchforge.Automation.Execute.Base.{
  ExecuteOptions, Execution, Round, answer, again, is_allowed, attempt_limit, is_completed,
  is_terminal,
}
use diiac_patchforge.Automation.Execute.Rounds.{
  call_client, take_lease, renew_lease, drop_lease, settle, succeed, fail, retry, wait, resume,
  bury,
}

module _ (env : Env) (opts : ExecuteOptions) (tenant : String) (current : Work) where
  requests-resume :
      (scheduled : Work) (p : Option Lease × World)
      → (resume env opts tenant current scheduled p).1.requests ≡ p.1.requests
  unfolding resume
  requests-resume scheduled (none, w) = refl
  requests-resume scheduled (some l, w) = refl

  requests-wait :
      (backoff : ℕ) (scheduled : Work) (p : Option Lease × World)
      → (wait env opts tenant current backoff scheduled p).1.requests ≡ p.1.requests
  unfolding wait
  requests-wait backoff scheduled (none, w) = refl
  requests-wait backoff scheduled (some l, w) = requests-resume scheduled _

  requests-retry :
      (attempt : ℕ) (updated : Work) (failure : Failure) (w : World)
      → (retry env opts tenant current attempt updated failure w).1.requests ≡ w.requests
  unfolding retry
  requests-retry attempt updated failure w = search requests-wait

  requests-bury :
      (attempt : ℕ) (updated : Work) (failure : Failure) (w : World)
      → (bury env opts tenant current attempt updated failure w).1.requests ≡ w.requests
  unfolding bury
  requests-bury attempt updated failure w = refl

  requests-fail :
      (attempt : ℕ) (updated : Work) (e : ErrorInfo) (w : World)
      → (fail env opts tenant current attempt updated e w).1.requests ≡ w.requests
  unfolding fail
  requests-fail attempt updated e w = elim (Bool-cases (ltb attempt (attempt_limit current))) [
    | inl t ↦ rw t (search requests-retry)
    | inr f ↦ rw f (search requests-bury)
  ]

  requests-succeed :
      (attempt : ℕ) (updated : Work) (r : FeedResult) (w : World)
      → (succeed env opts tenant current attempt updated r w).1.requests ≡ w.requests
  unfolding succeed
  requests-succeed attempt updated r w = refl

  requests-settle :
      (attempt : ℕ) (updated : Work) (p : Outcome × World)
      → (settle env opts tenant current attempt updated p).1.requests ≡ p.1.requests
  unfolding settle
  requests-settle attempt updated (returned r, w) = search requests-succeed
  requests-settle attempt updated (thrown e, w) = requests-fail attempt updated e w

  requests-call_client :
      (w : World)
      → length (call_client env opts tenant current w).1.requests ≡ suc (length w.requests)
  unfolding call_client
  requests-call_client w = refl

  requests-continue :
      (next : Work → World → Execution × World) (p : Round × World) (n : ℕ)
      → ((u : Work) (w : World) → length (next u w).1.requests ≤ length w.requests + n)
      → length (continue next p).1.requests ≤ length p.1.requests + n
  requests-continue next (answer e, w) n h = omega arith
  requests-continue next (again u, w) n h = h u w

  requests-attempt_loop :
      (left attempt : ℕ) (updated : Work) (w : World)
      → length (attempt_loop env opts tenant current left attempt updated w).1.requests
        ≤ length w.requests + left
  unfolding attempt_loop
  requests-attempt_loop zero attempt updated w = omega arith
  requests-attempt_loop (suc left) attempt updated w =
      let called = call_client env opts tenant current w in
      omega (
        arith,
        requests-continue (attempt_loop env opts tenant current left (suc attempt))
            (settle env opts tenant current attempt updated called) left
            (λ u v. requests-attempt_loop left (suc attempt) u v),
        ap length (requests-settle attempt updated called),
        requests-call_client w,
      )

  requests-run_leased :
      (p : Option Lease × World)
      → length (run_leased env opts tenant current p).1.requests
        ≤ length p.1.requests + (attempt_limit current - current.attempts)
  unfolding run_leased drop_lease update tick
  requests-run_leased (none, w) = omega arith
  requests-run_leased (some l, w) = within _ _ (
      requests-attempt_loop (suc (attempt_limit current) - suc current.attempts)
        (suc current.attempts) _ _)
    where
      within :
          (m n : ℕ)
          → m ≤ n + (suc (attempt_limit current) - suc current.attempts)
          → m ≤ n + (attempt_limit current - current.attempts)
      within m n h = omega arith

  requests-request_lease :
      (now : Option ℕ) (w : World)
      → (request_lease env opts tenant current now w).1.requests ≡ w.requests
  unfolding take_lease renew_lease
  requests-request_lease none w = refl
  requests-request_lease (some now) w = refl

  requests-execute_current :
      (w : World)
      → length (execute_current env opts tenant current w).1.requests
        ≤ length w.requests + (attempt_limit current - current.attempts)
  unfolding execute_current
  requests-execute_current w = elim (Bool-cases (is_completed current.status)) [
    | inl done ↦ rw done (omega arith)
    | inr open_work ↦
        elim (Bool-cases
          (is_terminal current.status || leb (attempt_limit current) current.attempts)) [
            | inl stopped ↦ rw (open_work, stopped) (omega arith)
            | inr going ↦
                rw (open_work, going)
                  (subst
                    (λ (rs : List RefreshBody).
                      length
                        (run_leased env opts tenant current
                          (request_lease env opts tenant current opts.fixed_now w)).1.requests
                      ≤ length rs + (attempt_limit current - current.attempts))
                    (requests-request_lease opts.fixed_now w)
                    (requests-run_leased (request_lease env opts tenant current opts.fixed_now w)))
          ]
  ]

attempt_limit-le : (work : Work) → attempt_limit work ≤ 8
unfolding attempt_limit
attempt_limit-le work =
    bounded_number-le (of_ℕ work.max_attempts) 3 1 8 8 (omega arith) (omega arith) (omega arith)

-- One run of a work item calls the source-feed client no more often than the item has attempts left,
-- and so eight times at most, whatever the client, the clock and the other workers do.
pub requests-execute :
    (env : Env) (opts : ExecuteOptions) (tenant : String) (item : Work) (w : World)
    → let current = or_else (lookup tenant item.work_id w.db.work_items) item in
      (length (execute env opts tenant item w).1.requests
        ≤ length w.requests + (attempt_limit current - current.attempts))
      × (attempt_limit current - current.attempts ≤ 8)
unfolding execute
requests-execute env opts tenant item w =
    let current = or_else (lookup tenant item.work_id w.db.work_items) item in
    let budget : attempt_limit current - current.attempts ≤ 8 =
      omega (arith, attempt_limit-le current) in
    elim (Bool-cases (is_allowed item)) [
      | inl allowed ↦ rw allowed (requests-execute_current env opts tenant current w, budget)
      | inr refused ↦ rw refused (omega arith, budget)
    ]
