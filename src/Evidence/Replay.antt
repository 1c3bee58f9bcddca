-- ===== src/Evidence/Replay.antt =====
-- `replayFindingEvidenceEvents` of backend-api/patchforge/evidenceReview.js: the events of a record,
-- put in the order of their hashes and checked one by one.
pub mod Chain
pub mod Append
use diiac_patchforge.Prelude.{
  ℕ, zero, suc, Bool, true, false, not, ◌&&◌, ◌||◌, Option, none, some, String, List, [], ◌∷◌, ◌++◌,
  str_eq, if◌then◌else◌, keep, length, last, any,
}
use Prim.Native.String.{◌++◌ as str_append}
use diiac_patchforge.Prelude.Texts.{member, str_take}
use diiac_patchforge.Evidence.{
  Expiry, Evidence, Finding, Event, EventType, review, reopen, other_type, Decision, accepted,
  rejected, reopened, other_decision, Payload, submission, event, event_key, finding, text_or,
  expiry_eq, is_expired, is_nil, same_id, distinct, roles_for_evidence_class, submission_payload,
  event_payload,
}

pub data EvidenceState : Type 0 where
  pending_review reviewed rejected_state reopened_state expired_state invalidated stale :
      EvidenceState

-- the chain so far with its failures, and the events that no link reached
pub record Walk : Type 0 where
  pub chain : List Event
  pub chain_failures : List String
  pub left_over : List Event

pub record Replay : Type 0 where
  pub replay_verified : Bool
  pub failures : List String
  pub events : List Event
  pub latest_event : Option Event
  pub latest_event_hash : String
  pub current_state : EvidenceState
  pub current_revision : Bool
  pub expired : Bool

pub data Choice : Type 0 where
  orphan fork : Choice
  one : Event → List Event → Choice

-- the failures of the checks that hold, in order
abbrev pub flags : List (Bool × String) → List String
flags [] = []
flags ((found, failure) ∷ checks) =
    let rest = flags checks in if found then failure ∷ rest else rest

-- an actor has one of the roles for a class of evidence
unfoldable pub has_role : String → List String → Bool
has_role evidence_class roles =
    any (λ role. member role (roles_for_evidence_class evidence_class)) roles

-- isValidEventTransition
unfoldable pub is_valid_transition : EventType → Decision → List ℕ → Bool
is_valid_transition review accepted rationale = true
is_valid_transition review rejected rationale = true
is_valid_transition reopen reopened rationale = not (is_nil rationale)
is_valid_transition _ _ rationale = false

abbrev pub follows : String → Event → Bool
follows previous e = str_eq e.previous_event_hash previous

-- the events that do not match, once the match is taken out
unfoldable pub choose : List Event → List Event → Choice
choose [] others = orphan
choose (e ∷ []) others = one e others
choose (_ ∷ _ ∷ _) others = fork

unfoldable pub latest_hash : Option Event → String
latest_hash none = ""
latest_hash (some e) = e.event_hash

abbrev pub state_of : EventType → Decision → EvidenceState
state_of review accepted = reviewed
state_of review _ = rejected_state
state_of reopen _ = reopened_state
state_of other_type _ = pending_review

-- the state that the latest event leaves, the record being neither expired nor invalid
unfoldable pub state_after : Option Event → EvidenceState
state_after none = pending_review
state_after (some e) = state_of e.event_type e.decision

unfoldable pub current_state_of : Bool → Bool → Bool → Option Event → EvidenceState
current_state_of failed current is_over latest =
    if failed
    then if current then invalidated else stale
    else if is_over
    then expired_state
    else state_after latest

abbrev pub stop : String → List Event → Walk
stop failure remaining = record { chain = []; chain_failures = failure ∷ []; left_over = remaining }

abbrev pub add_link : Event → List String → Walk → Walk
add_link e fs w = record w { chain = e ∷ w.chain; chain_failures = fs ++ w.chain_failures }

-- one round of the loop: with `next` for an event that was found
abbrev pub link : (Event → List Event → Walk) → List Event → Choice → Walk
link next remaining orphan = stop "event_chain_orphan" remaining
link next remaining fork = stop "event_chain_fork" remaining
link next remaining (one x rest) = next x rest

-- `digest` is the SHA-256 digest of the canonical JSON of a value.
module _ (digest : Payload → String) where
  -- currentFindingHash
  unfoldable pub current_finding_hash : Finding → String
  current_finding_hash v = text_or v.content_hash (digest (finding v.content))

  -- evidenceEventId
  unfoldable pub evidence_event_id_of : Evidence → String → String
  evidence_event_id_of r previous =
      str_append "finding-evidence-event-"
        (str_take 32 (digest (event_key r.tenant_id r.evidence_id (text_or previous "root"))))

  -- the checks of one event, each with the failure that it adds
  unfoldable pub event_checks : Evidence → String → Event → List (Bool × String)
  event_checks r previous e =
      (not (e.server_owned && e.immutable), "event_not_server_owned_immutable")
      ∷ (
        not (
            same_id e.tenant_id r.tenant_id
            && same_id e.vulnerability_id r.vulnerability_id
            && same_id e.canonical_id r.canonical_id),
        "event_scope_mismatch",
      )
      ∷ (not (str_eq e.evidence_content_hash r.content_hash), "event_content_hash_mismatch")
      ∷ (
        not (str_eq e.finding_revision_hash r.finding_revision_hash),
        "event_finding_revision_mismatch",
      )
      ∷ (not (str_eq e.evidence_class r.evidence_class), "event_evidence_class_mismatch")
      ∷ (not (expiry_eq e.expires_at r.expires_at), "event_expiry_mismatch")
      ∷ (not (str_eq e.evidence_event_id (evidence_event_id_of r previous)), "event_id_mismatch")
      ∷ (str_eq e.actor_oid "" && str_eq e.actor_upn "", "event_actor_missing")
      ∷ (not (has_role r.evidence_class e.actor_roles), "event_actor_role_invalid")
      ∷ (not (is_valid_transition e.event_type e.decision e.rationale), "event_transition_invalid")
      ∷ (not (str_eq e.event_hash (digest (event (event_payload e)))), "event_hash_mismatch")
      ∷ []

  unfoldable pub event_failures : Evidence → String → Event → List String
  event_failures r previous e = flags (event_checks r previous e)

  -- The loop over the remaining events. Each round takes one out, so that their number is enough fuel.
  unfoldable pub walk : ℕ → Evidence → String → List Event → Walk
  walk fuel r previous [] = record { chain = []; chain_failures = []; left_over = [] }
  walk zero r previous (e ∷ es) = stop "event_chain_orphan" (e ∷ es)
  walk (suc fuel) r previous (e ∷ es) =
      link (λ x rest. add_link x (event_failures r previous x) (walk fuel r x.event_hash rest))
        (e ∷ es)
        (choose (keep (follows previous) (e ∷ es)) (keep (λ x. not (follows previous x)) (e ∷ es)))

  unfoldable pub submission_failures : Evidence → List String
  submission_failures r = flags (
      (
        not (r.server_owned && r.immutable && not (str_eq r.evidence_id "")),
        "submission_not_server_owned_immutable",
      )
      ∷ (
        not (str_eq r.submitted_source_type "")
            && not (str_eq (digest (submission (submission_payload r))) r.content_hash),
        "submission_content_hash_mismatch",
      )
      ∷ [])

  unfoldable pub relevant : Evidence → List Event → List Event
  relevant r events = keep (λ e. str_eq e.evidence_id r.evidence_id) events

  unfoldable pub is_current : Evidence → Finding → Bool
  is_current r v = str_eq r.finding_revision_hash (current_finding_hash v)

  unfoldable pub failures_of : Evidence → Finding → Walk → List String
  failures_of r v w =
      submission_failures r
      ++ (w.chain_failures
          ++ flags (
              (not (is_nil w.left_over), "event_chain_incomplete")
              ∷ (not (is_current r v), "finding_revision_changed")
              ∷ []))

  unfoldable pub replay_of : Evidence → Finding → ℕ → Walk → Replay
  replay_of r v now w = record {
    replay_verified = is_nil (failures_of r v w);
    failures = distinct (failures_of r v w);
    events = w.chain;
    latest_event = last w.chain;
    latest_event_hash = latest_hash (last w.chain);
    current_state =
        current_state_of (not (is_nil (failures_of r v w))) (is_current r v)
          (is_expired r.expires_at now) (last w.chain);
    current_revision = is_current r v;
    expired = is_expired r.expires_at now;
  }

  unfoldable pub replay_events : Evidence → Finding → List Event → ℕ → Replay
  replay_events r v events now =
      replay_of r v now (walk (length (relevant r events)) r "" (relevant r events))
