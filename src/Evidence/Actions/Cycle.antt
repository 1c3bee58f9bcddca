-- ===== src/Evidence/Actions/Cycle.antt =====
-- Reviews and reopenings one after the other (backend-api/patchforge/evidenceReview.js).
use diiac_patchforge.Prelude.{
  ℕ, ◌≡◌, ◌≢◌, refl, sym, ap, ◌∙◌, Bool, true, false, Option, some, String, List, [], ◌∷◌, ◌++◌,
  if◌then◌else◌, any,
}
use diiac_patchforge.Prelude.Texts.{member}
use diiac_patchforge.Automation.{Lineage}
use diiac_patchforge.Evidence.{
  Evidence, Finding, Event, review, reopen, Decision, accepted, rejected, reopened, Payload,
  is_expired, is_nil, normalize_id, final_signoff_roles, roles_for_evidence_class,
}
use diiac_patchforge.Evidence.Replay.{
  reviewed, rejected_state, reopened_state, has_role, is_valid_transition, replay_events, replay_of,
  state_of,
}
use diiac_patchforge.Evidence.Replay.Append.{IsFresh}
use diiac_patchforge.Evidence.Actions.{
  Principal, ActionBody, issued, roles_of, is_reviewable_state, rationale_of, is_accept,
  build_event, create_review, create_reopen,
}
use diiac_patchforge.Evidence.Actions.Passes.{same_id_left, build_event_passes}
use diiac_patchforge.Evidence.Actions.Extends.{extended, build_event-fields}
use diiac_patchforge.Evidence.Actions.Guards.{
  review-IsAllowedReview, review-built, reopen-IsAllowedReopen, reopen-built,
}

review_valid :
    (b : Bool) (why : List ℕ)
    → is_valid_transition review (if b then accepted else rejected) why ≡ true
unfolding is_valid_transition
review_valid true why = refl
review_valid false why = refl

reopen_valid : (why : List ℕ) → is_nil why ≡ false → is_valid_transition reopen reopened why ≡ true
unfolding is_valid_transition
reopen_valid why h = rw h refl

not_reviewable : (b : Bool) → is_reviewable_state (if b then reviewed else rejected_state) ≢ true
not_reviewable true h = cc
not_reviewable false h = cc

signoff_role :
    (roles : List String)
    → has_role "human_review_signoff" roles ≡ true
    → any (λ role. member role final_signoff_roles) roles ≡ true
unfolding has_role roles_for_evidence_class
signoff_role roles h = h

reviewed_as :
    (b : Bool)
    → state_of review (if b then accepted else rejected) ≡ (if b then reviewed else rejected_state)
reviewed_as true = refl
reviewed_as false = refl

-- A review that is issued extends the history: with its event appended, the history of the record
-- replays without a failure, the event is its latest, and the evidence is reviewed if the decision
-- was an acceptance and rejected if not. It is assumed that the tenant and the canonical finding of
-- the record are not blank, and that no event of the history names the hash of the latest one as
-- the hash before it.
pub review_extends :
    (digest : Payload → String) (r : Evidence) (v : Finding) (events : List Event)
    (body : ActionBody) (principal : Option Principal) (lineage : Lineage) (now : ℕ) (e : Event)
    → is_nil (normalize_id r.tenant_id) ≡ false
    → is_nil (normalize_id r.canonical_id) ≡ false
    → IsFresh
        (replay_events digest r v events now).latest_event_hash
        ""
        (replay_events digest r v events now).events
    → create_review digest r v events body principal lineage now ≡ issued e
    → let p = replay_events digest r v (events ++ e ∷ []) now in
      (p.replay_verified ≡ true)
      × (p.latest_event ≡ some e)
      × (p.current_state ≡ (if is_accept body then reviewed else rejected_state))
review_extends digest r v events body principal lineage now e nt nc fresh h =
    let g = review-IsAllowedReview digest r v events body principal lineage now e h in
    let d : Decision = if is_accept body then accepted else rejected in
    let latest = (replay_events digest r v events now).latest_event_hash in
    let built = review-built digest r v events body principal lineage now e h in
    let fields =
      build_event-fields digest r v review d (rationale_of body) principal lineage latest now in
    let passes =
      build_event_passes digest r v review d (rationale_of body) principal lineage latest now nt
        (same_id_left r.vulnerability_id v.vulnerability_id g.same_finding) nc g.current
        g.identified g.by_role (review_valid (is_accept body) (rationale_of body)) in
    let x =
      extended digest r v
        (build_event digest r v review d (rationale_of body) principal lineage latest now) events
        now g.verified g.current g.in_time fields.0 fields.1 fresh passes in
    let x' = rw built at x in
    let fields' = rw built at fields in
    (x'.0, x'.1, rw (x'.2, fields'.2, fields'.3) (reviewed_as (is_accept body)))

-- A reopening that is issued, of a record that has not expired, extends the history too: with its
-- event appended, the history replays without a failure, the event is its latest, and the evidence
-- is reopened. It is assumed that the tenant and the canonical finding of the record are not blank,
-- and that no event of the history names the hash of the latest one as the hash before it.
pub reopen_extends :
    (digest : Payload → String) (r : Evidence) (v : Finding) (events : List Event)
    (body : ActionBody) (principal : Option Principal) (lineage : Lineage) (now : ℕ) (e : Event)
    → is_nil (normalize_id r.tenant_id) ≡ false
    → is_nil (normalize_id r.canonical_id) ≡ false
    → is_expired r.expires_at now ≡ false
    → IsFresh
        (replay_events digest r v events now).latest_event_hash
        ""
        (replay_events digest r v events now).events
    → create_reopen digest r v events body principal lineage now ≡ issued e
    → let p = replay_events digest r v (events ++ e ∷ []) now in
      (p.replay_verified ≡ true) × (p.latest_event ≡ some e) × (p.current_state ≡ reopened_state)
reopen_extends digest r v events body principal lineage now e nt nc in_time fresh h =
    let g = reopen-IsAllowedReopen digest r v events body principal lineage now e h in
    let latest = (replay_events digest r v events now).latest_event_hash in
    let built = reopen-built digest r v events body principal lineage now e h in
    let fields =
      build_event-fields digest r v reopen reopened (rationale_of body) principal lineage latest
        now in
    let passes =
      build_event_passes digest r v reopen reopened (rationale_of body) principal lineage latest now
        nt (same_id_left r.vulnerability_id v.vulnerability_id g.same_finding) nc g.current
        g.identified g.by_role (reopen_valid (rationale_of body) g.reasoned) in
    let x =
      extended digest r v
        (build_event digest r v reopen reopened (rationale_of body) principal lineage latest now)
        events now g.verified g.current in_time fields.0 fields.1 fresh passes in
    let x' = rw built at x in
    let fields' = rw built at fields in (x'.0, x'.1, rw (x'.2, fields'.2) refl)

-- Within the time of a record, its state depends on the events alone.
state_in_time :
    (digest : Payload → String) (r : Evidence) (v : Finding) (events : List Event) (now later : ℕ)
    → is_expired r.expires_at now ≡ false
    → is_expired r.expires_at later ≡ false
    → (replay_events digest r v events later).current_state
      ≡ (replay_events digest r v events now).current_state
unfolding replay_events replay_of
state_in_time digest r v events now later h k = rw (h, k) refl

-- Once a review has been issued, no other review is issued on the history that it extends, at that
-- time or any other, whoever asks and whatever for. It is assumed that the tenant and the canonical finding
-- of the record are not blank, and that no event of the history names the hash of the latest one as
-- the hash before it.
pub review_once :
    (digest : Payload → String) (r : Evidence) (v : Finding) (events : List Event)
    (body body' : ActionBody) (principal principal' : Option Principal) (lineage lineage' : Lineage)
    (now later : ℕ) (e e' : Event)
    → is_nil (normalize_id r.tenant_id) ≡ false
    → is_nil (normalize_id r.canonical_id) ≡ false
    → IsFresh
        (replay_events digest r v events now).latest_event_hash
        ""
        (replay_events digest r v events now).events
    → create_review digest r v events body principal lineage now ≡ issued e
    → create_review digest r v (events ++ e ∷ []) body' principal' lineage' later ≢ issued e'
review_once digest r v events body body' principal principal' lineage lineage' now later e e' nt nc
      fresh h h' =
    let x = review_extends digest r v events body principal lineage now e nt nc fresh h in
    let g =
      review-IsAllowedReview digest r v (events ++ e ∷ []) body' principal' lineage' later e' h' in
    let in_time =
      (review-IsAllowedReview digest r v events body principal lineage now e h).in_time in
    not_reviewable (is_accept body) (
      ap is_reviewable_state
        (sym x.2 ∙ sym (state_in_time digest r v (events ++ e ∷ []) now later in_time g.in_time))
      ∙ g.reviewable)

-- A review of evidence of the class `human_review_signoff` is issued only to a principal with the
-- role of a change approver or of an administrator.
pub signoff_reviewer :
    (digest : Payload → String) (r : Evidence) (v : Finding) (events : List Event)
    (body : ActionBody) (principal : Option Principal) (lineage : Lineage) (now : ℕ) (e : Event)
    → r.evidence_class ≡ "human_review_signoff"
    → create_review digest r v events body principal lineage now ≡ issued e
    → any (λ role. member role final_signoff_roles) (roles_of principal) ≡ true
signoff_reviewer digest r v events body principal lineage now e signoff h =
    signoff_role (roles_of principal) (
      rw signoff at
        (review-IsAllowedReview digest r v events body principal lineage now e h).by_role)
