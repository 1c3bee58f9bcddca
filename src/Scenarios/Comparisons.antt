-- ===== src/Scenarios/Comparisons.antt =====
-- A known exploited vulnerability without a patch (backend-api/patchforge/priority.js).
use diiac_patchforge.Prelude.{◌≡◌, none, some}
use diiac_patchforge.Applicability.{text}
use diiac_patchforge.Security.{undefined, str, parse_security_boolean}
use diiac_patchforge.PatchActions.{
  ActionInput, PatchComparison, direct_patch, compare_patch_actions,
}
use diiac_patchforge.PatchActions.Laws.{IsChosen, compare_patch_actions-IsChosen}
use diiac_patchforge.Prelude.Texts.{codes}

abbrev exploited_input : ActionInput
exploited_input = record {
  kev = str "yes";
  known_exploited = undefined;
  cisa_kev = undefined;
  active_exploitation = undefined;
  patch_available = undefined;
  workaround_available = undefined;
  production_impacting = undefined;
  defer = undefined;
  accepted_risk = undefined;
  severity = "High";
  operational_risk = "high";
  evidence_refs = text (codes "advisory-1, test-2");
  patch_url = none;
  hotfix_url = none;
  workaround_text = none;
}

compare_patch_actions-IsChosen_example :
    (c : PatchComparison) × (compare_patch_actions exploited_input ≡ some c)
    × IsChosen exploited_input c
compare_patch_actions-IsChosen_example = compare_patch_actions-IsChosen exploited_input

-- without a patch or a workaround it is still the direct patch that is selected
patch_selected :
    (compare_patch_actions-IsChosen exploited_input).0.selected_candidate ≡ direct_patch
unfolding parse_security_boolean
patch_selected = (compare_patch_actions-IsChosen exploited_input).2.of_type
