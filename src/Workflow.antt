-- ===== src/Workflow.antt =====
-- Workflow items (backend-api/patchforge/priority.js): `createWorkflowItem` and
-- `transitionWorkflowItem`. Identifiers and clock times are left out.
pub mod Laws
use diiac_patchforge.Prelude.{
  ℕ, Bool, true, false, ◌&&◌, ◌||◌, Option, none, some, String, List, [], ◌∷◌, ◌++◌, str_eq,
  if◌then◌else◌, or_else, ◌==◌,
}
use diiac_patchforge.Prelude.Texts.{codes, fold_case, contains}
use diiac_patchforge.Security.{Value, str, parse_security_boolean, parse_security_boolean_any}

-- WORKFLOW_REVIEW_STATES
pub data ReviewState : Type 0 where
  triage ciso_review_required : ReviewState

-- workflowLineage
pub record WorkflowLineage : Type 0 where
  pub actor_oid : Option String
  pub actor_upn : Option String
  pub actor_roles : List String
  pub actor_tenant_id : Option String
  pub effective_tenant_id : Option String

pub record TrailEntry : Type 0 where
  pub event : String
  pub from : Option ReviewState
  pub to : ReviewState
  pub actor : String
  pub by : WorkflowLineage

-- A flag as the caller gives it is a `Value`; a status that is `null` or absent is `none`.
pub record WorkflowInput : Type 0 where
  pub recommended_action : Option String
  pub status : Option Value
  pub owner : Option String
  pub sla : Option String
  pub exception_requested : Value
  pub ciso_approval_required : Value
  pub ciso_review_required : Value
  pub lineage : WorkflowLineage

pub record WorkflowItem : Type 0 where
  pub recommended_action : String
  pub status : ReviewState
  pub owner : String
  pub sla : Option String
  pub exception_requested : Bool
  pub review_required : Bool
  pub audit_trail : List TrailEntry
  pub lineage : WorkflowLineage
  pub final_approval_issued : Bool
  pub human_review_required : Bool
  pub no_autonomous_production_approval : Bool

abbrev pub is_ciso : ReviewState → Bool
is_ciso ciso_review_required = true
is_ciso triage = false

-- workflowReviewState; `none` is the error that it throws
unfoldable pub workflow_review_state : Value → Option ReviewState
workflow_review_state (str s) =
    if str_eq s "triage"
    then some triage
    else if str_eq s "ciso_review_required"
    then some ciso_review_required
    else none
workflow_review_state _ = none

-- `/critical|emergency|exception|accepted_risk/i`
unfoldable pub names_risk : String → Bool
names_risk action =
    let text = fold_case (codes action) in
    contains text (codes "critical")
    || contains text (codes "emergency")
    || contains text (codes "exception")
    || contains text (codes "accepted_risk")

unfoldable pub review_is_required : WorkflowInput → Bool
review_is_required i =
    parse_security_boolean_any
      (i.ciso_approval_required ∷ i.ciso_review_required ∷ i.exception_requested ∷ [])
    || names_risk (or_else i.recommended_action "")

abbrev initial_status : Option Value → Bool → Value
initial_status (some v) required = v
initial_status none required = str (if required then "ciso_review_required" else "triage")

abbrev actor_of : WorkflowLineage → String
actor_of l = or_else l.actor_upn "system"

abbrev pub created_with : WorkflowInput → Bool → Option ReviewState → Option WorkflowItem
created_with i required none = none
created_with i required (some status) = some (record {
  recommended_action = or_else i.recommended_action "complete_evidence_review";
  status = status;
  owner = or_else i.owner "unassigned";
  sla = i.sla;
  exception_requested = parse_security_boolean i.exception_requested false;
  review_required = required || is_ciso status;
  audit_trail =
      record {
        event = "workflow_item_created";
        from = none;
        to = status;
        actor = actor_of i.lineage;
        by = i.lineage;
      }
      ∷ [];
  lineage = i.lineage;
  final_approval_issued = false;
  human_review_required = true;
  no_autonomous_production_approval = true;
})

-- createWorkflowItem
unfoldable pub create_workflow_item : WorkflowInput → Option WorkflowItem
create_workflow_item i =
    created_with i (review_is_required i)
      (workflow_review_state (initial_status i.status (review_is_required i)))

abbrev status_text : ReviewState → String
status_text triage = "triage"
status_text ciso_review_required = "ciso_review_required"

abbrev next_status : Option Value → ReviewState → Value
next_status (some v) status = v
next_status none status = str (status_text status)

-- `input.sla || item.sla`
abbrev first_given : Option String → Option String → Option String
first_given (some s) old = some s
first_given none old = old

abbrev pub transitioned_with :
    WorkflowItem → WorkflowInput → Option ReviewState → Option WorkflowItem
transitioned_with item i none = none
transitioned_with item i (some status) = some (record item {
  status = status;
  owner = or_else i.owner item.owner;
  sla = first_given i.sla item.sla;
  review_required =
      item.review_required
      || parse_security_boolean_any (i.ciso_review_required ∷ i.ciso_approval_required ∷ [])
      || is_ciso status;
  lineage = i.lineage;
  final_approval_issued = false;
  human_review_required = true;
  no_autonomous_production_approval = true;
  audit_trail =
      item.audit_trail
      ++ record {
        event = "workflow_status_transitioned";
        from = some item.status;
        to = status;
        actor = actor_of i.lineage;
        by = i.lineage;
      }
        ∷ [];
})

-- transitionWorkflowItem
unfoldable pub transition_workflow_item : WorkflowItem → WorkflowInput → Option WorkflowItem
transition_workflow_item item i =
    transitioned_with item i (workflow_review_state (next_status i.status item.status))
