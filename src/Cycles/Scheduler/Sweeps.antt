-- ===== src/Cycles/Scheduler/Sweeps.antt =====
-- What the sweep over the work of a cycle has seen (backend-api/patchforge/scheduler.js).
use diiac_patchforge.Prelude.{
  ◌≡◌, refl, sym, ap, ◌∙◌, inl, inr, Bool, true, false, not, ◌&&◌, String, List, [], ◌∷◌, ◌++◌,
  str_eq, any, All, Bool-cases, if◌then◌else◌,
}
use diiac_patchforge.Prelude.Texts.{member}
use diiac_patchforge.Leases.{lease_keyed}
use diiac_patchforge.Automation.{Work, work_keyed, checkpoint_keyed}
use diiac_patchforge.Automation.Execute.Base.{is_completed}
use diiac_patchforge.Cycles.Scheduler.Gather.{
  Gathered, Incomplete, sweep_one, sweep, add_work, add_incomplete, is_incomplete,
}

any-append_one : (xs : List Incomplete) (x : Incomplete) → any (λ _. true) (xs ++ x ∷ []) ≡ true
any-append_one [] x = refl
any-append_one (y ∷ xs) x = refl

any_of-empty :
    (test : Incomplete → Bool) (xs : List Incomplete)
    → any (λ _. true) xs ≡ false
    → any test xs ≡ false
any_of-empty test [] h = refl
any_of-empty test (x ∷ xs) h = cc

swept :
    (g listed : Gathered) (x : Incomplete) (id : String) (done : Bool)
    → listed.incomplete_work_items ≡ g.incomplete_work_items
    → is_incomplete (
        if not done && not (any (λ i. str_eq i.work_id id) g.incomplete_work_items)
        then add_incomplete x listed
        else listed)
      ≡ false
    → (done ≡ true) × (is_incomplete g ≡ false)
swept g listed x id true same h = (refl, sym (ap (any (λ _. true)) same) ∙ h)
swept g listed x id false same h =
    elim (Bool-cases (any (λ i. str_eq i.work_id id) g.incomplete_work_items)) [
      | inl e ↦
          let empty = sym (ap (any (λ _. true)) same) ∙ (rw e at h) in
          let e' = any_of-empty (λ i. str_eq i.work_id id) g.incomplete_work_items empty in cc
      | inr e ↦ let h' = rw e at h in let t = any-append_one listed.incomplete_work_items x in cc
    ]

listed_same :
    (b : Bool) (id : String) (g : Gathered)
    → (if b then g else add_work id g).incomplete_work_items ≡ g.incomplete_work_items
listed_same true id g = refl
listed_same false id g = refl

sweep_one_complete :
    (w : Work) (g : Gathered)
    → is_incomplete (sweep_one w g) ≡ false
    → (is_completed w.status ≡ true) × (is_incomplete g ≡ false)
unfolding sweep_one
sweep_one_complete w g h =
    swept g _ _ w.work_id _ (listed_same (member w.work_id g.work_items) w.work_id g) h

-- Where a sweep finds nothing incomplete, every item that it saw is completed.
pub sweep_complete :
    (ws : List Work) (g : Gathered)
    → is_incomplete (sweep ws g) ≡ false
    → (is_incomplete g ≡ false) × All (λ (w : Work). is_completed w.status ≡ true) ws
unfolding sweep
sweep_complete [] g h = (h, tt)
sweep_complete (w ∷ ws) g h =
    let rest = sweep_complete ws (sweep_one w g) h in
    let this = sweep_one_complete w g rest.0 in (this.1, (this.0, rest.1))
