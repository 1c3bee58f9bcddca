-- ===== src/Automation/Execute/Whole.antt =====
-- One whole run of `executeSourceFeedWork` (backend-api/patchforge/automationWork.js): the guards, the
-- lease taken and given back, and the end of the item.
use diiac_patchforge.Prelude.{
  ◌≤◌, ◌≡◌, refl, inl, inr, ◌⊎◌, true, false, ◌||◌, ◌&&◌, Bool, Option, none, some, String, arith,
  leb, str_eq, eq_iff, Bool-cases,
}
use diiac_patchforge.Leases.{Lease, lease_keyed, released, is_active}
use diiac_patchforge.Store.{lookup}
use diiac_patchforge.Automation.{Work, work_keyed, Env, World}
use diiac_patchforge.Automation.Execute.{execute_current, execute, finished}
use diiac_patchforge.Automation.Execute.Base.{
  ExecuteOptions, Execution, reconciliation_required, plain, deferred_by, attempt_limit, is_allowed,
  is_completed, is_terminal, lease_name,
}

-- whether a stored lease is an owner's, and live
abbrev pub is_held_by : String → Option Lease → Bool
is_held_by owner none = false
is_held_by owner (some l) = str_eq l.owner_id owner && is_active l.status

-- No live lease of the item is left to the worker.
abbrev pub IsReleased : ExecuteOptions → String → Work → World → Type 0
IsReleased opts tenant current w =
    is_held_by opts.owner_id (lookup tenant (lease_name current) w.db.leases) ≡ false

pub not_held :
    (owner : String) (found : Option Lease)
    → ((l : Lease) → found ≡ some l → l.owner_id ≡ owner → l.status ≡ released)
    → is_held_by owner found ≡ false
not_held owner none h = refl
not_held owner (some l) h = elim (Bool-cases (str_eq l.owner_id owner)) [
  | inr e ↦ rw e refl
  | inl e ↦ let r = h l refl (ground (arith, eq_iff l.owner_id owner)) in rw (e, r) refl
]

-- A run of an item that is completed, that has ended otherwise, or that has no attempt left, changes
-- nothing and calls nobody: it says that the item is done, or that reconciliation is needed.
pub execute_leaves_ended :
    (env : Env) (opts : ExecuteOptions) (tenant : String) (item current : Work) (w : World)
    → is_allowed item ≡ true
    → lookup tenant item.work_id w.db.work_items ≡ some current
    → (is_completed current.status ≡ true)
      ⊎ (is_terminal current.status ≡ true)
      ⊎ (attempt_limit current ≤ current.attempts)
    → (e : Execution) × (execute env opts tenant item w ≡ (finished e, w))
      × (e.work_item ≡ current)
      × ((e.skipped ≡ true) ⊎ (e.deferred ≡ some reconciliation_required))
unfolding execute execute_current
execute_leaves_ended env opts tenant item current w allowed found ended =
    elim (Bool-cases (is_completed current.status)) [
      | inl done ↦ (
        record (plain current) { idempotent_reuse = true; result = current.result; skipped = true },
        rw (allowed, found, done) refl,
        refl,
        inl refl,
      )
      | inr open_work ↦ (
        deferred_by reconciliation_required current,
        rw (allowed, found, open_work, stopped open_work ended) refl,
        refl,
        inr refl,
      )
    ]
  where
    stopped :
        is_completed current.status ≡ false
        → (is_completed current.status ≡ true)
          ⊎ (is_terminal current.status ≡ true)
          ⊎ (attempt_limit current ≤ current.attempts)
        → (is_terminal current.status || leb (attempt_limit current) current.attempts) ≡ true
    stopped o h = ground arith
