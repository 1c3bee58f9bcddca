-- ===== src/Evidence/Projection.antt =====
-- `projectFindingEvidenceRecord` of backend-api/patchforge/evidenceReview.js: the states of the review
-- and of the evidence that a replay comes to. The fields that repeat the record and the latest event are
-- left out.
pub mod Laws
use diiac_patchforge.Prelude.{Bool, true, false, ◌&&◌, Option, none, some, if◌then◌else◌}
use diiac_patchforge.Evidence.{Event, Decision, accepted}
use diiac_patchforge.Evidence.Replay.{
  EvidenceState, reviewed, rejected_state, expired_state, invalidated, stale, Replay,
}

pub data StrengthState : Type 0 where
  accepted_positive_evidence rejected_evidence stale_evidence referenced : StrengthState

pub record Projection : Type 0 where
  pub review_state : EvidenceState
  pub evidence_state : StrengthState
  pub projected_from : Replay

abbrev is_accepted_decision : Decision → Bool
is_accepted_decision accepted = true
is_accepted_decision _ = false

abbrev pub latest_is_accepted : Option Event → Bool
latest_is_accepted none = false
latest_is_accepted (some e) = is_accepted_decision e.decision

abbrev pub is_reviewed : EvidenceState → Bool
is_reviewed reviewed = true
is_reviewed _ = false

abbrev pub is_rejected : EvidenceState → Bool
is_rejected rejected_state = true
is_rejected _ = false

abbrev pub is_over : EvidenceState → Bool
is_over expired_state = true
is_over stale = true
is_over invalidated = true
is_over _ = false

abbrev pub is_expired_state : EvidenceState → Bool
is_expired_state expired_state = true
is_expired_state _ = false

unfoldable pub is_accepted_replay : Replay → Bool
is_accepted_replay p =
    p.replay_verified && is_reviewed p.current_state && latest_is_accepted p.latest_event

unfoldable pub is_rejected_replay : Replay → Bool
is_rejected_replay p = p.replay_verified && is_rejected p.current_state

-- projectFindingEvidenceRecord
unfoldable pub project : Replay → Projection
project p = record {
  review_state =
      if is_expired_state p.current_state
      then expired_state
      else if is_rejected_replay p
      then rejected_state
      else if is_accepted_replay p
      then reviewed
      else p.current_state;
  evidence_state =
      if is_over p.current_state
      then stale_evidence
      else if is_rejected_replay p
      then rejected_evidence
      else if is_accepted_replay p
      then accepted_positive_evidence
      else referenced;
  projected_from = p;
}
