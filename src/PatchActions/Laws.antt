-- ===== src/PatchActions/Laws.antt =====
-- Which action a comparison selects (backend-api/patchforge/priority.js).
use diiac_patchforge.Prelude.{
  ◌≤◌, ◌≡◌, refl, ap, ◌∙◌, Bool, true, false, ◌||◌, Option, some, [], ◌∷◌, arith, All,
  if◌then◌else◌, find,
}
use diiac_patchforge.Prelude.Numbers.{ℤ, clamp}
use diiac_patchforge.PatchActions.{
  ActionType, direct_patch, workaround, defer_with_exception, is_type, ActionInput, ActionOption,
  PatchComparison, Weights, weights_of, action_options, best_option, insert_option, sort_options,
  is_severe, has_evidence, defers, is_mitigated, compared, select_candidate, compare_patch_actions,
}

-- What a comparison selects, said without scores.
abbrev pub expected_type : Bool → Bool → ActionType
expected_type deferred mitigated =
    if deferred then defer_with_exception else if mitigated then workaround else direct_patch

abbrev pub InRange : ActionOption → Type 0
InRange o = (o.risk_reduction ≤ 100) × (o.operational_risk ≤ 100)

pub record IsChosen (i : ActionInput) (c : PatchComparison) : Type 0 where
  pub of_type : c.selected_candidate ≡ expected_type (defers i) (is_mitigated i)
  pub approval : c.ciso_approval_required ≡ (is_severe i || defers i)
  pub open_gaps : c.unresolved_gaps ≡ [] → has_evidence i ≡ true
  pub scores : All InRange c.options

clamp_le : (z : ℤ) → clamp 0 100 z ≤ 100
clamp_le (ℤ.pos n) = omega arith
clamp_le (ℤ.negsuc n) = omega arith

module _ (i : ActionInput) where
  options-InRange : (w : Weights) → All InRange (action_options i w)
  unfolding action_options
  options-InRange w = (
    (clamp_le _, omega arith),
    (
      (clamp_le _, omega arith),
      (
        (clamp_le _, omega arith),
        ((clamp_le _, omega arith), ((clamp_le _, omega arith), ((clamp_le _, omega arith), tt))),
      ),
    ),
  )

  -- What is read of a selected option.
  abbrev Reads : Weights → ActionType → Option ActionOption → Type 0
  Reads w t found =
      (o : ActionOption) × (found ≡ some o)
      × (o.action_type ≡ t)
      × (o.ciso_approval_required ≡ (w.severe || is_type t defer_with_exception))
      × (o.unresolved_gaps ≡ [] → w.evidence ≡ true)

  gap_open : {A : Type 0} (b : Bool) (a : A) → (if b then [] else a ∷ []) ≡ [] → b ≡ true
  gap_open true a h = refl
  gap_open false a h = cc

  abbrev weights : Bool → Bool → Bool → Bool → Weights
  weights k e h s = record { kev = k; evidence = e; high_risk = h; severe = s }

  -- Whatever the flags are, the direct patch scores best.
  direct-best :
      (k e h s : Bool)
      → best_option (action_options i (weights k e h s))
        ≡ find (λ o. is_type o.action_type direct_patch) (action_options i (weights k e h s))
  unfolding best_option action_options sort_options insert_option
  direct-best true true true s = refl
  direct-best true true false s = refl
  direct-best true false true s = refl
  direct-best true false false s = refl
  direct-best false true true s = refl
  direct-best false true false s = refl
  direct-best false false true s = refl
  direct-best false false false s = refl

  direct-Reads : (w : Weights) → Reads w direct_patch (best_option (action_options i w))
  unfolding action_options
  direct-Reads w =
      (_, direct-best w.kev w.evidence w.high_risk w.severe, refl, refl, gap_open w.evidence _)

  workaround-Reads :
      (w : Weights)
      → Reads w workaround (find (λ o. is_type o.action_type workaround) (action_options i w))
  unfolding action_options
  workaround-Reads w = (_, refl, refl, refl, gap_open w.evidence _)

  defer-Reads :
      (w : Weights)
      → Reads w defer_with_exception
          (find (λ o. is_type o.action_type defer_with_exception) (action_options i w))
  unfolding action_options
  defer-Reads w = (_, refl, refl, refl, gap_open w.evidence _)

  select-Reads :
      (w : Weights) (deferred mitigated : Bool)
      → Reads w
          (expected_type deferred mitigated)
          (select_candidate (action_options i w) deferred mitigated)
  unfolding select_candidate
  select-Reads w true mitigated = defer-Reads w
  select-Reads w false true = workaround-Reads w
  select-Reads w false false = direct-Reads w

  is_deferral : (d m : Bool) → is_type (expected_type d m) defer_with_exception ≡ d
  is_deferral true m = refl
  is_deferral false true = refl
  is_deferral false false = refl

  -- Every comparison selects a candidate: the deferral where the caller asks for one or accepts the
  -- risk, else the workaround where there is one and no patch, and else the direct patch, never a
  -- hotfix or an upgrade. The CISO has to approve it exactly if the vulnerability is severe or the
  -- action is deferred, a comparison without an open gap has evidence, and all scores are 100 at most.
  pub compare_patch_actions-IsChosen :
      (c : PatchComparison) × (compare_patch_actions i ≡ some c) × IsChosen i c
  unfolding compare_patch_actions weights_of
  compare_patch_actions-IsChosen =
      let (o, found, t, ciso, gaps) = select-Reads (weights_of i) (defers i) (is_mitigated i) in
      (
        _,
        ap (compared i (action_options i (weights_of i))) found,
        record {
          of_type = t;
          approval = ciso ∙ ap (λ b. is_severe i || b) (is_deferral (defers i) (is_mitigated i));
          open_gaps = gaps;
          scores = options-InRange (weights_of i);
        },
      )
