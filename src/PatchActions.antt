-- ===== src/PatchActions.antt =====
-- The comparison of the actions on a vulnerability: `comparePatchActions` of
-- backend-api/patchforge/priority.js, with `normalizeDecisionFlags`, `actionOption` and
-- `selectCandidate`. The identifiers, the time and the summary in English are left out.
pub mod Laws
use diiac_patchforge.Prelude.{
  ℕ, ◌+◌, ◌*◌, Bool, true, false, not, ◌&&◌, ◌||◌, Option, none, some, String, List, [], ◌∷◌,
  str_eq, if◌then◌else◌, ltb, find,
}
use diiac_patchforge.Prelude.Numbers.{ℤ, sub_ℕ, clamp}
use diiac_patchforge.Prelude.Texts.{codes, lower, text_eq}
use diiac_patchforge.Security.{Value, parse_security_boolean, parse_security_boolean_any}
use diiac_patchforge.Applicability.{Text, Field}
use diiac_patchforge.Applicability.Terms.{list}

pub data ActionType : Type 0 where
  direct_patch hotfix major_upgrade workaround compensating_controls defer_with_exception :
      ActionType

-- A flag as the caller gives it is a `Value`; an absent text is `none`, or empty.
pub record ActionInput : Type 0 where
  pub kev : Value
  pub known_exploited : Value
  pub cisa_kev : Value
  pub active_exploitation : Value
  pub patch_available : Value
  pub workaround_available : Value
  pub production_impacting : Value
  pub defer : Value
  pub accepted_risk : Value
  pub severity : String
  pub operational_risk : String
  pub evidence_refs : Field
  pub patch_url : Option String
  pub hotfix_url : Option String
  pub workaround_text : Option String

pub record ActionOption : Type 0 where
  pub action_type : ActionType
  pub recommended_action : String
  pub patch_url : Option String
  pub hotfix_url : Option String
  pub workaround_text : Option String
  pub risk_reduction : ℕ
  pub operational_risk : ℕ
  pub service_impact : String
  pub rollback_risk : String
  pub change_window_suitability : String
  pub ciso_approval_required : Bool
  pub human_change_approval_required : Bool
  pub no_autonomous_production_approval : Bool
  pub evidence_refs : List Text
  pub unresolved_gaps : List String

pub record PatchComparison : Type 0 where
  pub options : List ActionOption
  pub selected_candidate : ActionType
  pub evidence_refs : List Text
  pub unresolved_gaps : List String
  pub ciso_approval_required : Bool
  pub human_change_approval_required : Bool
  pub no_autonomous_production_approval : Bool

abbrev pub parsed : Value → Bool
parsed v = parse_security_boolean v false

-- `kev` behind normalizeDecisionFlags
unfoldable pub is_kev : ActionInput → Bool
is_kev i = parse_security_boolean_any (i.kev ∷ i.known_exploited ∷ i.cisa_kev ∷ [])

abbrev is_any : List Text → Bool
is_any [] = false
is_any (_ ∷ _) = true

unfoldable pub has_evidence : ActionInput → Bool
has_evidence i = is_any (list i.evidence_refs)

unfoldable pub is_severe : ActionInput → Bool
is_severe i =
    text_eq (lower (codes i.severity)) (codes "critical")
    || is_kev i
    || parsed i.active_exploitation

unfoldable pub is_risk_high : ActionInput → Bool
is_risk_high i = str_eq i.operational_risk "high"

abbrev pub is_type : ActionType → ActionType → Bool
is_type direct_patch direct_patch = true
is_type hotfix hotfix = true
is_type major_upgrade major_upgrade = true
is_type workaround workaround = true
is_type compensating_controls compensating_controls = true
is_type defer_with_exception defer_with_exception = true
is_type _ _ = false

abbrev pub is_control : ActionType → Bool
is_control t = is_type t workaround || is_type t compensating_controls

abbrev pub points : Bool → ℕ → ℕ
points b n = if b then n else 0

abbrev given : Bool → Option String → Option String
given b text = if b then text else none

abbrev or_default : Option String → String → Option String
or_default none s = some s
or_default (some text) s = some text

-- the flags that the score of an option depends on
pub record Weights : Type 0 where
  pub kev : Bool
  pub evidence : Bool
  pub high_risk : Bool
  pub severe : Bool

unfoldable pub weights_of : ActionInput → Weights
weights_of i = record {
  kev = is_kev i;
  evidence = has_evidence i;
  high_risk = is_risk_high i;
  severe = is_severe i;
}

abbrev pub is_production_impacting : ActionType → ActionInput → Bool
is_production_impacting t i = not (is_control t) || parsed i.production_impacting

abbrev pub action_option : ActionInput → Weights → ActionType → ℕ → ℕ → String → ActionOption
action_option i w t risk_base operational_base recommendation = record {
  action_type = t;
  recommended_action = recommendation;
  patch_url = given (is_type t direct_patch) i.patch_url;
  hotfix_url = given (is_type t hotfix) i.hotfix_url;
  workaround_text =
      given (is_control t)
        (or_default i.workaround_text "Documented mitigation evidence required.");
  risk_reduction =
      clamp 0 100
        (sub_ℕ (risk_base + points w.kev 6 + points w.evidence 4) (points (not w.evidence) 8));
  operational_risk = clamp 0 100 (ℤ.pos (operational_base + points w.high_risk 12));
  service_impact =
      if is_production_impacting t i
      then "production-impacting change review required"
      else "control-only review required";
  rollback_risk =
      if is_type t major_upgrade
      then "high"
      else if is_type t direct_patch
      then "medium"
      else "low_to_medium";
  change_window_suitability =
      if is_type t hotfix
      then "short_window_candidate"
      else if is_type t major_upgrade
      then "planned_window_required"
      else "standard_window_required";
  ciso_approval_required = w.severe || is_type t defer_with_exception;
  human_change_approval_required = true;
  no_autonomous_production_approval = true;
  evidence_refs = list i.evidence_refs;
  unresolved_gaps =
      if w.evidence
      then []
      else "Reviewed source, test, rollback, and service-impact evidence required." ∷ [];
}

unfoldable pub action_options : ActionInput → Weights → List ActionOption
action_options i w =
    action_option i w direct_patch 88 42
      "Apply the vendor-supported fixed version through normal or emergency change."
    ∷ action_option i w hotfix 78 55
        "Use a vendor hotfix when the full patch cannot be adopted in the available window."
    ∷ action_option i w major_upgrade 84 75
        "Move to the supported major branch when fixed versions require platform uplift."
    ∷ action_option i w workaround 45 30
        "Apply a documented mitigation while patch evidence or window is completed."
    ∷ action_option i w compensating_controls 38 28
        "Reduce exposure through layered controls and monitoring with owner and expiry."
    ∷ action_option i w defer_with_exception 5 65
        "Defer only with accountable risk owner, CISO review, rationale, expiry, and evidence."
    ∷ []

-- a.risk_reduction - a.operational_risk / 2 is below that of b: both sides doubled
abbrev pub is_worse : ActionOption → ActionOption → Bool
is_worse a b =
    ltb (2 * a.risk_reduction + b.operational_risk) (2 * b.risk_reduction + a.operational_risk)

-- into a list in the order of `sort`, which is stable: after those that are at least as good
unfoldable pub insert_option : ActionOption → List ActionOption → List ActionOption
insert_option o [] = o ∷ []
insert_option o (x ∷ xs) =
    let rest = insert_option o xs in if is_worse x o then o ∷ x ∷ xs else x ∷ rest

unfoldable pub sort_options : List ActionOption → List ActionOption → List ActionOption
sort_options sorted [] = sorted
sort_options sorted (o ∷ os) = sort_options (insert_option o sorted) os

abbrev first_option : List ActionOption → Option ActionOption
first_option [] = none
first_option (o ∷ _) = some o

abbrev pub defers : ActionInput → Bool
defers i = parsed i.defer || parsed i.accepted_risk

abbrev pub is_mitigated : ActionInput → Bool
is_mitigated i = not (parsed i.patch_available) && parsed i.workaround_available

unfoldable pub best_option : List ActionOption → Option ActionOption
best_option options = first_option (sort_options [] options)

-- selectCandidate
unfoldable pub select_candidate : List ActionOption → Bool → Bool → Option ActionOption
select_candidate options deferred mitigated =
    if deferred
    then find (λ o. is_type o.action_type defer_with_exception) options
    else if mitigated
    then find (λ o. is_type o.action_type workaround) options
    else best_option options

abbrev pub compared : ActionInput → List ActionOption → Option ActionOption → Option PatchComparison
compared i options none = none
compared i options (some o) = some (record {
  options = options;
  selected_candidate = o.action_type;
  evidence_refs = list i.evidence_refs;
  unresolved_gaps = o.unresolved_gaps;
  ciso_approval_required = o.ciso_approval_required;
  human_change_approval_required = true;
  no_autonomous_production_approval = true;
})

-- comparePatchActions; `none` is the error of a candidate that is not there
unfoldable pub compare_patch_actions : ActionInput → Option PatchComparison
compare_patch_actions i =
    let options = action_options i (weights_of i) in
    compared i options (select_candidate options (defers i) (is_mitigated i))
