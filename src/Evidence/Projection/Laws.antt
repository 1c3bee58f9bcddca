-- ===== src/Evidence/Projection/Laws.antt =====
-- What an accepted projection means (backend-api/patchforge/evidenceReview.js).
use diiac_patchforge.Prelude.{
  ℕ, ◌≡◌, refl, arith, Bool, true, false, not, Option, none, some, String, List, [], ◌∷◌,
  if◌then◌else◌, last, length,
}
use diiac_patchforge.Evidence.{
  Evidence, Finding, Event, EventType, review, reopen, other_type, Decision, accepted, rejected,
  reopened, other_decision, Payload, is_expired, is_nil,
}
use diiac_patchforge.Evidence.Replay.{
  Replay, is_current, replay_events, replay_of, current_state_of, state_after, state_of, Walk,
  failures_of, submission_failures, walk, relevant,
}
use diiac_patchforge.Evidence.Replay.Chain.{append_nil, nil_of_is_nil, flags_nil, not-false}
use diiac_patchforge.Evidence.Projection.{
  project, is_accepted_replay, is_rejected_replay, StrengthState, stale_evidence, rejected_evidence,
  referenced, accepted_positive_evidence, is_reviewed, is_over,
}

-- An accepted replay of a record at an instant: verified, current, in time, and last accepted.
pub record IsAccepted (digest : Payload → String) (r : Evidence) (v : Finding) (now : ℕ)
    (p : Replay) : Type 0 where
  pub verified : p.replay_verified ≡ true
  pub current : is_current digest r v ≡ true
  pub in_time : is_expired r.expires_at now ≡ false
  pub latest : Event
  pub is_latest : p.latest_event ≡ some latest
  pub is_review : latest.event_type ≡ review
  pub is_acceptance : latest.decision ≡ accepted

abbrev strength : Bool → Bool → Bool → StrengthState
strength over refusal grant =
    if over
    then stale_evidence
    else if refusal
    then rejected_evidence
    else if grant
    then accepted_positive_evidence
    else referenced

accepted_strength :
    (over refusal grant : Bool)
    → strength over refusal grant ≡ accepted_positive_evidence
    → grant ≡ true
accepted_strength true refusal grant h = cc
accepted_strength false true grant h = cc
accepted_strength false false true h = refl
accepted_strength false false false h = cc

-- the state is reviewed only after an accepted or another review, in time and without failures
reviewed_state :
    (failed current over : Bool) (latest : Option Event)
    → is_reviewed (current_state_of failed current over latest) ≡ true
    → (over ≡ false)
      × ((e : Event) × (latest ≡ some e) × (is_reviewed (state_of e.event_type e.decision) ≡ true))
unfolding current_state_of state_after
reviewed_state true true over latest h = cc
reviewed_state true false over latest h = cc
reviewed_state false current true latest h = cc
reviewed_state false current false none h = cc
reviewed_state false current false (some e) h = (refl, (e, refl, h))

accepted_review :
    (t : EventType) (d : Decision)
    → is_reviewed (state_of t d) ≡ true
    → (t ≡ review) × (d ≡ accepted)
accepted_review review accepted h = (refl, refl)
accepted_review review rejected h = cc
accepted_review review reopened h = cc
accepted_review review other_decision h = cc
accepted_review reopen d h = cc
accepted_review other_type d h = cc

accepted_review_event :
    (o : Option Event)
    → (e : Event) × (o ≡ some e) × (is_reviewed (state_of e.event_type e.decision) ≡ true)
    → (e : Event) × (o ≡ some e) × (e.event_type ≡ review) × (e.decision ≡ accepted)
accepted_review_event o (e, found, h) =
    let both = accepted_review e.event_type e.decision h in (e, found, both.0, both.1)

accepted_parts :
    (p : Replay)
    → (project p).evidence_state ≡ accepted_positive_evidence
    → (p.replay_verified ≡ true) × (is_reviewed p.current_state ≡ true)
unfolding project is_accepted_replay
accepted_parts p h =
    let both =
      accepted_strength (is_over p.current_state) (is_rejected_replay p) (is_accepted_replay p) h in
    (ground arith, ground arith)

verified_current :
    (digest : Payload → String) (r : Evidence) (v : Finding) (w : Walk)
    → is_nil (failures_of digest r v w) ≡ true
    → is_current digest r v ≡ true
unfolding failures_of
verified_current digest r v w h =
    let late =
      append_nil w.chain_failures _
        (append_nil (submission_failures digest r) _ (nil_of_is_nil _ h)).1 in
    not-false
      (flags_nil
        ((not (is_nil w.left_over), "event_chain_incomplete")
          ∷ (not (is_current digest r v), "finding_revision_changed")
          ∷ [])
        late.1).1.0

-- Evidence counts as accepted positive evidence only where its whole history has replayed without a
-- failure, the finding is still the one that it was submitted against, it has not expired, and the
-- latest event is a review that accepts it.
pub project-IsAccepted :
    (digest : Payload → String) (r : Evidence) (v : Finding) (events : List Event) (now : ℕ)
    → (project (replay_events digest r v events now)).evidence_state ≡ accepted_positive_evidence
    → IsAccepted digest r v now (replay_events digest r v events now)
unfolding replay_events replay_of
project-IsAccepted digest r v events now h =
    let p = replay_events digest r v events now in
    let parts = accepted_parts p h in
    let w = walk digest (length (relevant digest r events)) r "" (relevant digest r events) in
    let state =
      reviewed_state (not (is_nil (failures_of digest r v w))) (is_current digest r v)
        (is_expired r.expires_at now) (last w.chain) parts.1 in
    let (e, found, reviews, accepts) = accepted_review_event (last w.chain) state.1 in
    record {
      verified = parts.0;
      current = verified_current digest r v w parts.0;
      in_time = state.0;
      latest = e;
      is_latest = found;
      is_review = reviews;
      is_acceptance = accepts;
    }
