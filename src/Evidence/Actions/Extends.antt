-- ===== src/Evidence/Actions/Extends.antt =====
-- An issued event extends the history that it was issued against
-- (backend-api/patchforge/evidenceReview.js).
use diiac_patchforge.Prelude.{
  ℕ, suc, ◌≡◌, refl, inl, inr, arith, true, false, Option, some, String, List, [], ◌∷◌, ◌++◌,
  str_eq, Bool-cases, last, last-concat, length, length-append,
}
use diiac_patchforge.Automation.{Lineage}
use diiac_patchforge.Evidence.{
  Evidence, Finding, Event, EventType, Decision, Payload, is_expired, is_nil,
}
use diiac_patchforge.Evidence.Replay.{
  event_failures, is_current, Walk, walk, relevant, submission_failures, failures_of, replay_of,
  replay_events, current_state_of, state_after, state_of,
}
use diiac_patchforge.Evidence.Replay.Chain.{append_nil, nil_of_is_nil}
use diiac_patchforge.Evidence.Replay.Append.{tip, tip-latest_hash, IsFresh, walk-snoc}
use diiac_patchforge.Evidence.Actions.{Principal, seal, build_event}
use diiac_patchforge.Evidence.Actions.Passes.{str_eq_self}

module _ (digest : Payload → String) (r : Evidence) (v : Finding) where
  relevant-snoc :
      (events : List Event) (e : Event)
      → e.evidence_id ≡ r.evidence_id
      → relevant digest r (events ++ e ∷ []) ≡ relevant digest r events ++ e ∷ []
  unfolding relevant
  relevant-snoc [] e own = rw (own, str_eq_self r.evidence_id) refl
  relevant-snoc (x ∷ xs) e own = elim (Bool-cases (str_eq x.evidence_id r.evidence_id)) [
    | inl t ↦ rw (t, relevant-snoc xs e own) refl
    | inr f ↦ rw (f, relevant-snoc xs e own) refl
  ]

  verified_walk : (w : Walk) → is_nil (failures_of digest r v w) ≡ true → w.chain_failures ≡ []
  unfolding failures_of
  verified_walk w h =
      (append_nil w.chain_failures _
        (append_nil (submission_failures digest r) _ (nil_of_is_nil _ h)).1).0

  -- the same for the record as the guards leave it, put at the end of a verified history
  replay-snoc :
      (events : List Event) (e : Event) (now : ℕ)
      → (replay_events digest r v events now).replay_verified ≡ true
      → e.evidence_id ≡ r.evidence_id
      → e.previous_event_hash ≡ (replay_events digest r v events now).latest_event_hash
      → IsFresh e.previous_event_hash "" (replay_events digest r v events now).events
      → event_failures digest r e.previous_event_hash e ≡ []
      → replay_events digest r v (events ++ e ∷ []) now
        ≡ replay_of digest r v now (record {
          chain = (replay_events digest r v events now).events ++ e ∷ [];
          chain_failures = [];
          left_over = [];
        })
  unfolding replay_events replay_of
  replay-snoc events e now verified own named fresh passes =
      let old = relevant digest r events in
      let w = walk digest (length old) r "" old in
      let sized : length (old ++ e ∷ []) ≡ suc (length old) =
        omega (arith, length-append old (e ∷ [])) in
      let tipped : e.previous_event_hash ≡ tip "" w.chain =
        rw (named, tip-latest_hash w.chain) refl in
      rw
        (
          relevant-snoc events e own,
          sized,
          walk-snoc digest r e (length old) "" old (verified_walk w verified) tipped fresh,
          passes,
        )
        refl

  -- a walk without failures and leftovers makes a verified replay, in the state of its last event
  replay_of_clean :
      (w : Walk) (e : Event) (now : ℕ)
      → submission_failures digest r ≡ []
      → is_current digest r v ≡ true
      → is_expired r.expires_at now ≡ false
      → w.chain_failures ≡ []
      → w.left_over ≡ []
      → last w.chain ≡ some e
      → let p = replay_of digest r v now w in
        (p.replay_verified ≡ true)
        × (p.latest_event ≡ some e)
        × (p.current_state ≡ state_of e.event_type e.decision)
  unfolding replay_of failures_of current_state_of state_after
  replay_of_clean w e now s c o f l final =
      (rw (s, c, f, l) refl, final, rw (s, c, f, l, o, final) refl)

  verified_submission :
      (w : Walk) → is_nil (failures_of digest r v w) ≡ true → submission_failures digest r ≡ []
  unfolding failures_of
  verified_submission w h = (append_nil (submission_failures digest r) _ (nil_of_is_nil _ h)).0

  submission_of_verified :
      (events : List Event) (now : ℕ)
      → (replay_events digest r v events now).replay_verified ≡ true
      → submission_failures digest r ≡ []
  unfolding replay_events replay_of
  submission_of_verified events now h =
      verified_submission
        (walk digest (length (relevant digest r events)) r "" (relevant digest r events)) h

  pub build_event-fields :
      (t : EventType) (d : Decision) (why : List ℕ) (principal : Option Principal)
      (lineage : Lineage) (previous : String) (now : ℕ)
      → let b = build_event digest r v t d why principal lineage previous now in
        (b.evidence_id ≡ r.evidence_id)
        × (b.previous_event_hash ≡ previous)
        × (b.event_type ≡ t)
        × (b.decision ≡ d)
  unfolding build_event seal
  build_event-fields t d why principal lineage previous now = (refl, refl, refl, refl)

  failures_at :
      (e : Event) (p q : String)
      → q ≡ p
      → event_failures digest r p e ≡ []
      → event_failures digest r q e ≡ []
  failures_at e p q same h = rw same h

  pub extended :
      (e : Event) (events : List Event) (now : ℕ)
      → (replay_events digest r v events now).replay_verified ≡ true
      → is_current digest r v ≡ true
      → is_expired r.expires_at now ≡ false
      → e.evidence_id ≡ r.evidence_id
      → e.previous_event_hash ≡ (replay_events digest r v events now).latest_event_hash
      → IsFresh
          (replay_events digest r v events now).latest_event_hash
          ""
          (replay_events digest r v events now).events
      → event_failures digest r (replay_events digest r v events now).latest_event_hash e ≡ []
      → let p = replay_events digest r v (events ++ e ∷ []) now in
        (p.replay_verified ≡ true)
        × (p.latest_event ≡ some e)
        × (p.current_state ≡ state_of e.event_type e.decision)
  extended e events now verified current in_time own named fresh passes =
      let before = replay_events digest r v events now in
      let w : Walk = record {
        chain = before.events ++ e ∷ [];
        chain_failures = [];
        left_over = [];
      } in
      rw
        (replay-snoc events e now verified own named (rw named fresh) (
          failures_at e (replay_events digest r v events now).latest_event_hash
            e.previous_event_hash named passes))
        (replay_of_clean w e now (submission_of_verified events now verified) current in_time refl
          refl (last-concat before.events e))
