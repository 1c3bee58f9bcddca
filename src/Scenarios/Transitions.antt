-- ===== src/Scenarios/Transitions.antt =====
-- An item that is escalated (backend-api/patchforge/priority.js).
use diiac_patchforge.Prelude.{◌≡◌, refl, true, false, ◌||◌, none, some, [], ◌∷◌, length}
use diiac_patchforge.Prelude.Texts.{fold_case, contains}
use diiac_patchforge.Security.{undefined, str, parse_security_boolean, parse_security_boolean_any}
use diiac_patchforge.Workflow.{
  WorkflowInput, WorkflowItem, WorkflowLineage, triage, ciso_review_required, create_workflow_item,
  transition_workflow_item, workflow_review_state, review_is_required, names_risk,
}
use diiac_patchforge.Workflow.Laws.{Reaches, here, step, IsGoverned, Reaches-IsGoverned}

abbrev system : WorkflowLineage
system = record {
  actor_oid = none;
  actor_upn = none;
  actor_roles = [];
  actor_tenant_id = none;
  effective_tenant_id = none;
}

abbrev plain_input : WorkflowInput
plain_input = record {
  recommended_action = none;
  status = none;
  owner = none;
  sla = none;
  exception_requested = undefined;
  ciso_approval_required = undefined;
  ciso_review_required = undefined;
  lineage = system;
}

abbrev escalation : WorkflowInput
escalation = record plain_input { status = some (str "ciso_review_required") }

abbrev triaged : WorkflowItem
triaged = record {
  recommended_action = "complete_evidence_review";
  status = triage;
  owner = "unassigned";
  sla = none;
  exception_requested = false;
  review_required = false;
  audit_trail =
      record {
        event = "workflow_item_created";
        from = none;
        to = triage;
        actor = "system";
        by = system;
      }
      ∷ [];
  lineage = system;
  final_approval_issued = false;
  human_review_required = true;
  no_autonomous_production_approval = true;
}

abbrev escalated_item : WorkflowItem
escalated_item = record triaged {
  status = ciso_review_required;
  review_required = true;
  audit_trail =
      record {
        event = "workflow_item_created";
        from = none;
        to = triage;
        actor = "system";
        by = system;
      }
      ∷ record {
        event = "workflow_status_transitioned";
        from = some triage;
        to = ciso_review_required;
        actor = "system";
        by = system;
      }
      ∷ [];
}

triaged_created : create_workflow_item plain_input ≡ some triaged
unfolding create_workflow_item workflow_review_state review_is_required names_risk contains
    fold_case parse_security_boolean parse_security_boolean_any
triaged_created = refl

approval_refused :
    transition_workflow_item triaged (record plain_input { status = some (str "approved") }) ≡ none
unfolding transition_workflow_item workflow_review_state
approval_refused = refl

escalated_reached : Reaches triaged escalated_item 1
unfolding transition_workflow_item workflow_review_state parse_security_boolean
    parse_security_boolean_any
escalated_reached = step triaged triaged escalated_item escalation 0 (here triaged) refl

Reaches-IsGoverned_example :
    IsGoverned escalated_item
    × ((triaged.review_required || escalated_item.review_required) ≡ escalated_item.review_required)
    × (length escalated_item.audit_trail ≡ 2)
Reaches-IsGoverned_example =
    Reaches-IsGoverned plain_input triaged escalated_item 1 triaged_created escalated_reached
