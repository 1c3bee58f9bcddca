-- ===== src/Scenarios/Reviews.antt =====
-- Runs of the review of evidence (backend-api/patchforge/evidenceReview.js).
use diiac_patchforge.Prelude.{
  ◌≡◌, ◌≢◌, refl, true, false, Option, none, some, String, List, [], ◌∷◌, All, if◌then◌else◌,
}
use diiac_patchforge.Prelude.Texts.{codes, trim, lower, lower_code, is_word, str_take}
use diiac_patchforge.Evidence.{
  Evidence, Finding, Event, Payload, review, reopen, accepted, reopened, date, is_nil, is_expired,
  normalize_id, same_id, roles_for_evidence_class, distinct, distinct_from, sorted, insert_sorted,
  codes_le, submission_payload, event_payload, string_list, distinct_codes,
}
use diiac_patchforge.Evidence.Replay.{
  reviewed, rejected_state, reopened_state, replay_events, replay_of, walk, choose, relevant,
  is_current, current_finding_hash, failures_of, submission_failures, event_failures, event_checks,
  has_role, is_valid_transition, latest_hash, state_after, current_state_of, evidence_event_id_of,
}
use diiac_patchforge.Evidence.Replay.Chain.{IsSound, replay_events-IsSound}
use diiac_patchforge.Evidence.Replay.Append.{IsFresh}
use diiac_patchforge.Evidence.Actions.{
  Principal, ActionBody, issued, create_review, create_reopen, review_guards, reopen_guards,
  reviewable_guards, conflicts, rationale_of, is_accept, is_reject, build_event, seal,
}
use diiac_patchforge.Evidence.Actions.Cycle.{review_extends, reopen_extends, review_once}
use diiac_patchforge.Evidence.Projection.{
  project, accepted_positive_evidence, is_accepted_replay, is_rejected_replay,
}
use diiac_patchforge.Evidence.Projection.Laws.{IsAccepted, project-IsAccepted}
use diiac_patchforge.Scenarios.{nobody, differ}

-- in place of the digest, a constant
abbrev one_digest : Payload → String
one_digest p = "h"

abbrev cve_finding : Finding
cve_finding = record { vulnerability_id = "CVE-1"; content_hash = "f1"; content = "" }

abbrev signoff : Evidence
signoff = record {
  tenant_id = "acme";
  evidence_id = "ev1";
  vulnerability_id = "CVE-1";
  canonical_id = "CVE-1";
  evidence_class = "human_review_signoff";
  summary = "signed";
  evidence = "";
  source_refs = [];
  submitted_source_type = "human_evidence_submission";
  finding_revision_hash = "f1";
  expires_at = date 9000;
  content_hash = "h";
  server_owned = true;
  immutable = true;
}

abbrev approver : Option Principal
approver = some (record { oid = "o1"; upn = ""; roles = "PatchForge.CABApprover" ∷ [] })

abbrev accept_body : ActionBody
accept_body = record {
  decision = "Accept";
  rationale = "";
  expected_content_hash = "h";
  expected_event_hash = none;
}

abbrev reopen_body : ActionBody
reopen_body = record {
  decision = "";
  rationale = "new data";
  expected_content_hash = "h";
  expected_event_hash = some "h";
}

abbrev first_review : Event
first_review = record {
  tenant_id = "acme";
  evidence_event_id = "finding-evidence-event-h";
  evidence_id = "ev1";
  vulnerability_id = "CVE-1";
  canonical_id = "CVE-1";
  evidence_class = "human_review_signoff";
  evidence_content_hash = "h";
  finding_revision_hash = "f1";
  previous_event_hash = "";
  event_type = review;
  decision = accepted;
  rationale = [];
  actor_oid = "o1";
  actor_upn = "";
  actor_roles = "PatchForge.CABApprover" ∷ [];
  lineage = nobody;
  expires_at = date 9000;
  created_at = 5000;
  server_owned = true;
  immutable = true;
  event_hash = "h";
}

first_review_issued :
    create_review one_digest signoff cve_finding [] accept_body approver nobody 5000
    ≡ issued first_review
unfolding create_review review_guards reviewable_guards same_id lower lower_code trim is_current
    current_finding_hash has_role roles_for_evidence_class replay_events replay_of failures_of
    submission_failures walk relevant current_state_of is_expired build_event conflicts is_accept
    is_reject rationale_of seal choose event_checks event_failures evidence_event_id_of
    is_valid_transition latest_hash state_after codes_le distinct distinct_codes distinct_from
    event_payload insert_sorted normalize_id sorted string_list submission_payload is_word str_take
first_review_issued = refl

abbrev one_review : List Event
one_review = first_review ∷ []

-- the reopening that follows it
abbrev first_reopening : Event
first_reopening = record first_review {
  previous_event_hash = "h";
  event_type = reopen;
  decision = reopened;
  rationale = codes "new data";
  created_at = 6000;
}

first_reopening_issued :
    create_reopen one_digest signoff cve_finding one_review reopen_body approver nobody 6000
    ≡ issued first_reopening
unfolding create_reopen reopen_guards reviewable_guards same_id lower lower_code trim is_current
    current_finding_hash has_role roles_for_evidence_class replay_events replay_of failures_of
    submission_failures walk relevant current_state_of is_expired build_event conflicts rationale_of
    seal choose event_checks event_failures evidence_event_id_of is_valid_transition latest_hash
    state_after codes_le distinct distinct_codes distinct_from event_payload insert_sorted
    normalize_id sorted string_list submission_payload is_word str_take
first_reopening_issued = refl

tenant_named : is_nil (normalize_id "acme") ≡ false
unfolding normalize_id trim lower
tenant_named = refl

finding_named : is_nil (normalize_id "CVE-1") ≡ false
unfolding normalize_id trim lower
finding_named = refl

in_time : is_expired (date 9000) 6000 ≡ false
unfolding is_expired
in_time = refl

none_before :
    IsFresh
      (replay_events one_digest signoff cve_finding [] 5000).latest_event_hash
      ""
      (replay_events one_digest signoff cve_finding [] 5000).events
unfolding same_id lower lower_code trim is_current current_finding_hash has_role
    roles_for_evidence_class replay_events replay_of failures_of submission_failures walk relevant
    current_state_of is_expired choose event_checks event_failures evidence_event_id_of
    is_valid_transition latest_hash state_after codes_le distinct distinct_codes distinct_from
    event_payload insert_sorted normalize_id sorted string_list submission_payload is_word str_take
none_before = tt

one_before :
    IsFresh
      (replay_events one_digest signoff cve_finding one_review 6000).latest_event_hash
      ""
      (replay_events one_digest signoff cve_finding one_review 6000).events
unfolding same_id lower lower_code trim is_current current_finding_hash has_role
    roles_for_evidence_class replay_events replay_of failures_of submission_failures walk relevant
    current_state_of is_expired choose event_checks event_failures evidence_event_id_of
    is_valid_transition latest_hash state_after codes_le distinct distinct_codes distinct_from
    event_payload insert_sorted normalize_id sorted string_list submission_payload is_word str_take
one_before = (differ "h" "" refl, tt)

one_review_verified :
    (replay_events one_digest signoff cve_finding one_review 6000).replay_verified ≡ true
unfolding same_id lower lower_code trim is_current current_finding_hash has_role
    roles_for_evidence_class replay_events replay_of failures_of submission_failures walk relevant
    current_state_of is_expired choose event_checks event_failures evidence_event_id_of
    is_valid_transition latest_hash state_after codes_le distinct distinct_codes distinct_from
    event_payload insert_sorted normalize_id sorted string_list submission_payload is_word str_take
one_review_verified = refl

one_review_accepted :
    (project (replay_events one_digest signoff cve_finding one_review 6000)).evidence_state
    ≡ accepted_positive_evidence
unfolding project is_accepted_replay is_rejected_replay same_id lower lower_code trim is_current
    current_finding_hash has_role roles_for_evidence_class replay_events replay_of failures_of
    submission_failures walk relevant current_state_of is_expired choose event_checks event_failures
    evidence_event_id_of is_valid_transition latest_hash state_after codes_le distinct
    distinct_codes distinct_from event_payload insert_sorted normalize_id sorted string_list
    submission_payload is_word str_take
one_review_accepted = refl

replay_events-IsSound_example :
    All (IsSound one_digest signoff) (relevant one_digest signoff one_review)
replay_events-IsSound_example =
    replay_events-IsSound one_digest signoff cve_finding one_review 6000 one_review_verified

project-IsAccepted_example :
    IsAccepted one_digest signoff cve_finding 6000
      (replay_events one_digest signoff cve_finding one_review 6000)
project-IsAccepted_example =
    project-IsAccepted one_digest signoff cve_finding one_review 6000 one_review_accepted

review_extends_example :
    let p = replay_events one_digest signoff cve_finding one_review 5000 in
    (p.replay_verified ≡ true)
    × (p.latest_event ≡ some first_review)
    × (p.current_state ≡ (if is_accept accept_body then reviewed else rejected_state))
review_extends_example =
    review_extends one_digest signoff cve_finding [] accept_body approver nobody 5000 first_review
      tenant_named finding_named none_before first_review_issued

reopen_extends_example :
    let p =
      replay_events one_digest signoff cve_finding (first_review ∷ first_reopening ∷ []) 6000 in
    (p.replay_verified ≡ true)
    × (p.latest_event ≡ some first_reopening)
    × (p.current_state ≡ reopened_state)
reopen_extends_example =
    reopen_extends one_digest signoff cve_finding one_review reopen_body approver nobody 6000
      first_reopening tenant_named finding_named in_time one_before first_reopening_issued

review_once_example :
    create_review one_digest signoff cve_finding one_review accept_body approver nobody 6000
    ≢ issued first_reopening
review_once_example =
    review_once one_digest signoff cve_finding [] accept_body accept_body approver approver nobody
      nobody 5000 6000 first_review first_reopening tenant_named finding_named none_before
      first_review_issued
