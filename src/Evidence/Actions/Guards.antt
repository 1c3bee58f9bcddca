-- ===== src/Evidence/Actions/Guards.antt =====
-- What an issued review or reopening has passed (backend-api/patchforge/evidenceReview.js).
use diiac_patchforge.Prelude.{
  first_of-none, ℕ, ◌≡◌, refl, true, false, ◌&&◌, ◌||◌, Option, none, some, String, List, str_eq,
  if◌then◌else◌,
}
use diiac_patchforge.Automation.{Lineage}
use diiac_patchforge.Evidence.{
  Evidence, Finding, Event, review, reopen, accepted, rejected, reopened, Payload, is_expired,
  is_nil, same_id,
}
use diiac_patchforge.Evidence.Replay.{Replay, has_role, replay_events, is_current}
use diiac_patchforge.Evidence.Replay.Chain.{not-false}
use diiac_patchforge.Evidence.Actions.{
  Principal, ActionBody, issued, answer_with, roles_of, oid_of, upn_of, is_reviewable_state,
  is_reopenable_state, is_reopen_event, conflicts, rationale_of, is_accept, is_reject,
  reviewable_guards, build_event, review_guards, create_review, reopen_guards, create_reopen,
}

pub answer_with_issued :
    (o : Option String) (built e : Event)
    → answer_with o built ≡ issued e
    → (o ≡ none) × (built ≡ e)
answer_with_issued none built e h = (refl, cc)
answer_with_issued (some code) built e h = cc

-- What the guards of a review establish.
pub record IsAllowedReview (digest : Payload → String) (r : Evidence) (v : Finding)
    (body : ActionBody) (principal : Option Principal) (replay : Replay) (now : ℕ) : Type 0 where
  pub same_finding : same_id r.vulnerability_id v.vulnerability_id ≡ true
  pub current : is_current digest r v ≡ true
  pub identified : (str_eq (oid_of principal) "" && str_eq (upn_of principal) "") ≡ false
  pub by_role : has_role r.evidence_class (roles_of principal) ≡ true
  pub verified : replay.replay_verified ≡ true
  pub reviewable : is_reviewable_state replay.current_state ≡ true
  pub in_time : is_expired r.expires_at now ≡ false
  pub unchanged : conflicts body.expected_event_hash replay.latest_event_hash ≡ false
  pub decided : (is_accept body || is_reject body) ≡ true

-- What the guards of a reopening establish.
pub record IsAllowedReopen (digest : Payload → String) (r : Evidence) (v : Finding)
    (body : ActionBody) (principal : Option Principal) (replay : Replay) : Type 0 where
  pub same_finding : same_id r.vulnerability_id v.vulnerability_id ≡ true
  pub current : is_current digest r v ≡ true
  pub identified : (str_eq (oid_of principal) "" && str_eq (upn_of principal) "") ≡ false
  pub by_role : has_role r.evidence_class (roles_of principal) ≡ true
  pub verified : replay.replay_verified ≡ true
  pub reopenable : is_reopenable_state replay.current_state ≡ true
  pub closed : is_reopen_event replay.latest_event ≡ false
  pub unchanged : conflicts body.expected_event_hash replay.latest_event_hash ≡ false
  pub reasoned : is_nil (rationale_of body) ≡ false

module _ (digest : Payload → String) (r : Evidence) (v : Finding) (events : List Event)
    (body : ActionBody) (principal : Option Principal) (lineage : Lineage) (now : ℕ) where
  pub review-IsAllowedReview :
      (e : Event)
      → create_review digest r v events body principal lineage now ≡ issued e
      → IsAllowedReview digest r v body principal (replay_events digest r v events now) now
  unfolding create_review review_guards reviewable_guards
  review-IsAllowedReview e h =
      let replay = replay_events digest r v events now in
      let g =
        first_of-none (review_guards digest r v body principal replay now)
          (answer_with_issued _ _ e h).0 in
      record {
        same_finding = not-false g.1.0;
        current = not-false g.1.1.0;
        identified = g.1.1.1.1.0;
        by_role = not-false g.1.1.1.1.1.0;
        verified = not-false g.1.1.1.1.1.1.0;
        reviewable = not-false g.1.1.1.1.1.1.1.0;
        in_time = g.1.1.1.1.1.1.1.1.0;
        unchanged = g.1.1.1.1.1.1.1.1.1.0;
        decided = not-false g.1.1.1.1.1.1.1.1.1.1.0;
      }

  pub review-built :
      (e : Event)
      → create_review digest r v events body principal lineage now ≡ issued e
      → build_event digest r v review
          (if is_accept body then accepted else rejected)
          (rationale_of body)
          principal
          lineage
          (replay_events digest r v events now).latest_event_hash
          now
        ≡ e
  unfolding create_review
  review-built e h = (answer_with_issued _ _ e h).1

  pub reopen-IsAllowedReopen :
      (e : Event)
      → create_reopen digest r v events body principal lineage now ≡ issued e
      → IsAllowedReopen digest r v body principal (replay_events digest r v events now)
  unfolding create_reopen reopen_guards reviewable_guards
  reopen-IsAllowedReopen e h =
      let replay = replay_events digest r v events now in
      let g =
        first_of-none (reopen_guards digest r v body principal replay)
          (answer_with_issued _ _ e h).0 in
      record {
        same_finding = not-false g.1.0;
        current = not-false g.1.1.0;
        identified = g.1.1.1.1.0;
        by_role = not-false g.1.1.1.1.1.0;
        verified = not-false g.1.1.1.1.1.1.0;
        reopenable = not-false g.1.1.1.1.1.1.1.0;
        closed = g.1.1.1.1.1.1.1.1.0;
        unchanged = g.1.1.1.1.1.1.1.1.1.0;
        reasoned = g.1.1.1.1.1.1.1.1.1.1.0;
      }

  pub reopen-built :
      (e : Event)
      → create_reopen digest r v events body principal lineage now ≡ issued e
      → build_event digest r v reopen reopened
          (rationale_of body)
          principal
          lineage
          (replay_events digest r v events now).latest_event_hash
          now
        ≡ e
  unfolding create_reopen
  reopen-built e h = (answer_with_issued _ _ e h).1
