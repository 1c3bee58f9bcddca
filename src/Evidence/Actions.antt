-- ===== src/Evidence/Actions.antt =====
-- The reviews and reopenings of evidence, and the projection of its state
-- (backend-api/patchforge/evidenceReview.js).
pub mod Guards
pub mod Passes
pub mod Extends
pub mod Cycle
use diiac_patchforge.Prelude.{
  first_of, ℕ, Bool, true, false, not, ◌&&◌, ◌||◌, Option, none, some, String, List, [], ◌∷◌, ◌++◌,
  str_eq, if◌then◌else◌,
}
use diiac_patchforge.Prelude.Texts.{codes, trim, lower, is_word}
use diiac_patchforge.Automation.{Lineage}
use diiac_patchforge.Evidence.{
  Evidence, Finding, Event, EventType, review, reopen, other_type, Decision, accepted, rejected,
  reopened, Payload, event, is_expired, is_nil, same_id, distinct, sorted, event_payload,
}
use diiac_patchforge.Evidence.Replay.{
  EvidenceState, pending_review, reviewed, rejected_state, reopened_state, expired_state,
  invalidated, stale, Replay, has_role, current_finding_hash, evidence_event_id_of, is_current,
  replay_events,
}

pub record Principal : Type 0 where
  pub oid : String
  pub upn : String
  pub roles : List String

-- The body of a request. `expected_event_hash` is `none` where neither field for it is given.
pub record ActionBody : Type 0 where
  pub decision : String
  pub rationale : String
  pub expected_content_hash : String
  pub expected_event_hash : Option String

-- an error, by its code, or the event
pub data Submitted : Type 0 where
  refused : String → Submitted
  issued : Event → Submitted

abbrev pub answer_with : Option String → Event → Submitted
answer_with (some code) e = refused code
answer_with none e = issued e

abbrev pub roles_of : Option Principal → List String
roles_of none = []
roles_of (some p) = p.roles

abbrev pub oid_of : Option Principal → String
oid_of none = ""
oid_of (some p) = p.oid

abbrev pub upn_of : Option Principal → String
upn_of none = ""
upn_of (some p) = p.upn

abbrev pub is_reviewable_state : EvidenceState → Bool
is_reviewable_state pending_review = true
is_reviewable_state reopened_state = true
is_reviewable_state _ = false

abbrev pub is_reopenable_state : EvidenceState → Bool
is_reopenable_state reviewed = true
is_reopenable_state rejected_state = true
is_reopenable_state expired_state = true
is_reopenable_state _ = false

abbrev is_reopen_type : EventType → Bool
is_reopen_type reopen = true
is_reopen_type _ = false

abbrev pub is_reopen_event : Option Event → Bool
is_reopen_event none = false
is_reopen_event (some e) = is_reopen_type e.event_type

abbrev pub accept_words : List String
accept_words = "accept" ∷ "accepted" ∷ "reviewed" ∷ []

abbrev pub reject_words : List String
reject_words = "reject" ∷ "rejected" ∷ []

-- `supplied !== latest`, where `none` is `null`
abbrev differs : Option String → String → Bool
differs none latest = true
differs (some s) latest = not (str_eq s latest)

abbrev is_given : Option String → Bool
is_given none = false
is_given (some s) = not (str_eq s "")

-- assertExpectedEventHash: whether it throws
unfoldable pub conflicts : Option String → String → Bool
conflicts supplied latest = if str_eq latest "" then is_given supplied else differs supplied latest

unfoldable pub rationale_of : ActionBody → List ℕ
rationale_of body = trim (codes body.rationale)

unfoldable pub is_accept : ActionBody → Bool
is_accept body = is_word (lower (codes body.decision)) accept_words

unfoldable pub is_reject : ActionBody → Bool
is_reject body = is_word (lower (codes body.decision)) reject_words

module _ (digest : Payload → String) where
  -- assertReviewableRecord
  unfoldable pub reviewable_guards :
      Evidence → Finding → ActionBody → Option Principal → List (Bool × String)
  reviewable_guards r v body principal =
      (
        not (r.server_owned && r.immutable && not (str_eq r.evidence_id "")),
        "finding_evidence_not_found",
      )
      ∷ (not (same_id r.vulnerability_id v.vulnerability_id), "finding_evidence_scope_mismatch")
      ∷ (not (is_current digest r v), "finding_revision_changed")
      ∷ (
        str_eq body.expected_content_hash ""
            || not (str_eq body.expected_content_hash r.content_hash),
        "evidence_revision_mismatch",
      )
      ∷ (
        str_eq (oid_of principal) "" && str_eq (upn_of principal) "",
        "authenticated_reviewer_required",
      )
      ∷ (not (has_role r.evidence_class (roles_of principal)), "evidence_reviewer_role_required")
      ∷ []

  -- `event_hash` is set from what the event says.
  unfoldable pub seal : Event → Event
  seal e = record e { event_hash = digest (event (event_payload e)) }

  -- buildEvidenceEvent
  unfoldable pub build_event :
      Evidence
      → Finding
      → EventType
      → Decision
      → List ℕ
      → Option Principal
      → Lineage
      → String
      → ℕ
      → Event
  unfolding seal
  build_event r v event_type decision rationale principal lineage previous now = seal (record {
    tenant_id = r.tenant_id;
    evidence_event_id = evidence_event_id_of digest r previous;
    evidence_id = r.evidence_id;
    vulnerability_id = r.vulnerability_id;
    canonical_id = r.canonical_id;
    evidence_class = r.evidence_class;
    evidence_content_hash = r.content_hash;
    finding_revision_hash = current_finding_hash digest v;
    previous_event_hash = previous;
    event_type = event_type;
    decision = decision;
    rationale = rationale;
    actor_oid = oid_of principal;
    actor_upn = upn_of principal;
    actor_roles = sorted (distinct (roles_of principal));
    lineage = lineage;
    expires_at = r.expires_at;
    created_at = now;
    server_owned = true;
    immutable = true;
    event_hash = "";
  })

  unfoldable pub review_guards :
      Evidence → Finding → ActionBody → Option Principal → Replay → ℕ → List (Bool × String)
  review_guards r v body principal replay now =
      reviewable_guards r v body principal
      ++ (not replay.replay_verified, "evidence_event_replay_failed")
        ∷ (not (is_reviewable_state replay.current_state), "evidence_review_conflict")
        ∷ (is_expired r.expires_at now, "evidence_expired")
        ∷ (conflicts body.expected_event_hash replay.latest_event_hash, "evidence_event_conflict")
        ∷ (not (is_accept body || is_reject body), "evidence_review_decision_required")
        ∷ []

  -- createFindingEvidenceReviewEvent
  unfoldable pub create_review :
      Evidence → Finding → List Event → ActionBody → Option Principal → Lineage → ℕ → Submitted
  create_review r v events body principal lineage now =
      let replay = replay_events digest r v events now in
      answer_with (first_of (review_guards r v body principal replay now)) (
        build_event r v review (if is_accept body then accepted else rejected) (rationale_of body)
          principal lineage replay.latest_event_hash now)

  unfoldable pub reopen_guards :
      Evidence → Finding → ActionBody → Option Principal → Replay → List (Bool × String)
  reopen_guards r v body principal replay =
      reviewable_guards r v body principal
      ++ (not replay.replay_verified, "evidence_event_replay_failed")
        ∷ (not (is_reopenable_state replay.current_state), "evidence_reopen_conflict")
        ∷ (is_reopen_event replay.latest_event, "evidence_reopen_conflict")
        ∷ (conflicts body.expected_event_hash replay.latest_event_hash, "evidence_event_conflict")
        ∷ (is_nil (rationale_of body), "evidence_reopen_rationale_required")
        ∷ []

  -- createFindingEvidenceReopenEvent
  unfoldable pub create_reopen :
      Evidence → Finding → List Event → ActionBody → Option Principal → Lineage → ℕ → Submitted
  create_reopen r v events body principal lineage now =
      let replay = replay_events digest r v events now in
      answer_with (first_of (reopen_guards r v body principal replay)) (
        build_event r v reopen reopened (rationale_of body) principal lineage
          replay.latest_event_hash now)

-- what is stored for a proposed event: `none` where nothing came back
unfoldable pub event_persisted : Event → Option Event → Submitted
event_persisted proposed none = refused "evidence_event_persistence_failed"
event_persisted proposed (some stored) =
    if str_eq stored.event_hash proposed.event_hash
    then issued stored
    else refused "evidence_event_conflict"
