-- ===== src/Automation/Pending/Laws.antt =====
-- What one batch does (backend-api/patchforge/automationWork.js, `runPendingAutomationWork`).
use diiac_patchforge.Prelude.{
  ℕ, suc, ◌≤◌, ◌≡◌, ◌≢◌, refl, false, some, String, List, [], ◌∷◌, arith, length, length-take-le,
  count_if-le, keep, is_some, ap,
}
use diiac_patchforge.Prelude.Numbers.{JsNumber, bounded_number, bounded_number_bounds}
use diiac_patchforge.Store.{lookup, list_for}
use diiac_patchforge.Store.Laws.{lookup-append_record_self}
use diiac_patchforge.Automation.{
  Work, work_keyed, quarantined, Env, World, put_work, put_dead_letter,
}
use diiac_patchforge.Automation.Execute.{execute}
use diiac_patchforge.Automation.Execute.Base.{ExecuteOptions, Execution, is_allowed}
use diiac_patchforge.Automation.Pending.{
  is_due, due_items, quarantine, quarantined_work, settled, run_batch, run_pending, has_status,
  is_completed, is_dead_lettered, is_quarantined,
}

module _ (env : Env) (opts : ExecuteOptions) (tenant : String) where
  length-run_batch :
      (items : List Work) (w : World) → length (run_batch env opts tenant items w).0 ≡ length items
  unfolding run_batch
  length-run_batch [] w = refl
  length-run_batch (item ∷ items) w =
      ap suc (length-run_batch items (settled env tenant item (execute env opts tenant item w)).1)

  -- A batch answers once for each item that it considers, a hundred items at most; and it counts no
  -- more completed, dead-lettered, quarantined or deferred items than it considers.
  pub run_pending_counts :
      (limit : JsNumber) (now : ℕ) (w : World)
      → let p = (run_pending env opts tenant limit now w).0 in
        (length p.results ≡ p.considered)
        × (p.considered ≤ 100)
        × (p.completed_items ≤ p.considered)
        × (p.dead_lettered_items ≤ p.considered)
        × (p.quarantined_items ≤ p.considered)
        × (p.deferred_items ≤ p.considered)
  unfolding run_pending due_items
  run_pending_counts limit now w = (
    answers,
    omega (
      arith,
      length-take-le (bounded_number limit 10 1 100)
          (keep (is_due now) (list_for tenant w.db.work_items)),
      bounded_number_bounds limit 10 1 100 (omega arith) (omega arith),
    ),
    omega (arith, answers, count_if-le (has_status is_completed) es),
    omega (arith, answers, count_if-le (has_status is_dead_lettered) es),
    omega (arith, answers, count_if-le (has_status is_quarantined) es),
    omega (arith, answers, count_if-le {A = Execution} (λ e. is_some e.deferred) es),
  )
    where
      es : List Execution
      es = (run_batch env opts tenant (due_items tenant limit now w.db.work_items) w).0

      answers : length es ≡ length (due_items tenant limit now w.db.work_items)
      answers = length-run_batch (due_items tenant limit now w.db.work_items) w

  -- An item of the tenant, with an identifier, of a kind or a feed that no worker may run never
  -- reaches the source-feed client: it is stored as quarantined, and as it is stored it is not
  -- due at any time.
  pub unsupported_is_quarantined :
      (item : Work) (w : World) (later : ℕ)
      → item.tenant_id ≡ tenant
      → item.work_id ≢ ""
      → is_allowed item ≡ false
      → let (e, w') = settled env tenant item (execute env opts tenant item w) in
        (w'.requests ≡ w.requests)
        × (e.work_item.status ≡ quarantined)
        × (lookup tenant item.work_id w'.db.work_items ≡ some e.work_item)
        × (is_due later e.work_item ≡ false)
  unfolding settled execute quarantine quarantined_work is_due put_work put_dead_letter
  unsupported_is_quarantined item w later owned named refused =
      rw refused
        (refl, refl, rw (← owned) (lookup-append_record_self _ w.db.work_items named), refl)
