-- ===== src/Evidence/Replay/Chain.antt =====
-- What a verified replay says of the events (backend-api/patchforge/evidenceReview.js).
use diiac_patchforge.Prelude.{
  ℕ, zero, suc, ◌≡◌, refl, ◌⊎◌, inl, inr, arith, eq_iff, Bool, true, false, not, ◌&&◌, String, List,
  [], ◌∷◌, ◌++◌, str_eq, keep, length, All, Bool-cases,
}
use diiac_patchforge.Evidence.{Evidence, Finding, Event, Payload, event, event_payload, is_nil}
use diiac_patchforge.Evidence.Replay.{
  orphan, fork, choose, flags, has_role, event_checks, follows, event_failures, walk, relevant,
  failures_of, replay_of, replay_events, submission_failures,
}

pub flags_nil : (cs : List (Bool × String)) → flags cs ≡ [] → All (λ c. c.0 ≡ false) cs
flags_nil [] h = tt
flags_nil ((true, s) ∷ cs) h = cc
flags_nil ((false, s) ∷ cs) h = (refl, flags_nil cs h)

pub flags_of_false : (cs : List (Bool × String)) → All (λ c. c.0 ≡ false) cs → flags cs ≡ []
flags_of_false [] h = refl
flags_of_false ((b, s) ∷ cs) h = rw h.0 (flags_of_false cs h.1)

pub not-false : {b : Bool} → not b ≡ false → b ≡ true
not-false {b} h = ground arith

eq_of_failure : {a b : String} → not (str_eq a b) ≡ false → a ≡ b
eq_of_failure {a} {b} h = ground (arith, eq_iff a b)

pub nil_of_is_nil : (xs : List String) → is_nil xs ≡ true → xs ≡ []
nil_of_is_nil [] h = refl
nil_of_is_nil (x ∷ xs) h = cc

pub append_nil : (xs ys : List String) → xs ++ ys ≡ [] → (xs ≡ []) × (ys ≡ [])
append_nil [] ys h = (refl, h)
append_nil (x ∷ xs) ys h = cc

pub choose-cases :
    (ks others : List Event)
    → (choose ks others ≡ orphan) ⊎ (choose ks others ≡ fork) ⊎ ((x : Event) × (ks ≡ x ∷ []))
unfolding choose
choose-cases [] others = inl refl
choose-cases (x ∷ []) others = inr (inr (x, refl))
choose-cases (x ∷ y ∷ ks) others = inr (inl refl)

-- What the checks of an event establish, of the ones that do not depend on its place in the chain.
pub record IsSound (digest : Payload → String) (r : Evidence) (e : Event) : Type 0 where
  pub owned : (e.server_owned && e.immutable) ≡ true
  pub content : e.evidence_content_hash ≡ r.content_hash
  pub of_revision : e.finding_revision_hash ≡ r.finding_revision_hash
  pub of_class : e.evidence_class ≡ r.evidence_class
  pub by_role : has_role r.evidence_class e.actor_roles ≡ true
  pub hashed : e.event_hash ≡ digest (event (event_payload e))

module _ (digest : Payload → String) (r : Evidence) where
  event_failures-IsSound :
      (previous : String) (e : Event) → event_failures digest r previous e ≡ [] → IsSound digest r e
  unfolding event_failures event_checks
  event_failures-IsSound previous e h =
      let c = flags_nil (event_checks digest r previous e) h in
      record {
        owned = not-false c.0;
        content = eq_of_failure c.1.1.0;
        of_revision = eq_of_failure c.1.1.1.0;
        of_class = eq_of_failure c.1.1.1.1.0;
        by_role = not-false c.1.1.1.1.1.1.1.1.0;
        hashed = eq_of_failure c.1.1.1.1.1.1.1.1.1.1.0;
      }

  -- the events of a list are those that follow a hash and those that do not
  All-of_split :
      (P : Event → Type 0) (p : Event → Bool) (es : List Event)
      → All P (keep p es)
      → All P (keep (λ x. not (p x)) es)
      → All P es
  All-of_split P p [] h g = tt
  All-of_split P p (e ∷ es) h g = elim (Bool-cases (p e)) [
    | inl t ↦ let h' = rw t at h in let g' = rw t at g in (h'.0, All-of_split P p es h'.1 g')
    | inr f ↦ let h' = rw f at h in let g' = rw f at g in (g'.0, All-of_split P p es h' g'.1)
  ]

  -- A walk without failures reaches every event, and each event that it reaches is sound.
  walk-IsSound :
      (fuel : ℕ) (previous : String) (es : List Event)
      → (walk digest fuel r previous es).chain_failures ≡ []
      → All (IsSound digest r) es
  unfolding walk choose
  walk-IsSound fuel previous [] h = tt
  walk-IsSound zero previous (e ∷ es) h = cc
  walk-IsSound (suc fuel) previous (e ∷ es) h =
      elim (choose-cases (keep (follows previous) (e ∷ es))
        (keep (λ x. not (follows previous x)) (e ∷ es))) [
          | inl o ↦ let h' = rw o at h in cc h'
          | inr (inl f) ↦ let h' = rw f at h in cc h'
          | inr (inr (x, only)) ↦
              let h' = rw only at h in
              let both = append_nil (event_failures digest r previous x) _ h' in
              All-of_split (IsSound digest r) (follows previous) (e ∷ es)
                (rw only (event_failures-IsSound previous x both.0, tt))
                (walk-IsSound fuel x.event_hash (keep (λ y. not (follows previous y)) (e ∷ es))
                  both.1)
        ]

-- In a verified replay every event of the record is sound: server-owned and immutable, about this
-- content, revision and class, by an actor with one of the roles for the class, and with the hash of
-- what it says.
pub replay_events-IsSound :
    (digest : Payload → String) (r : Evidence) (v : Finding) (events : List Event) (now : ℕ)
    → (replay_events digest r v events now).replay_verified ≡ true
    → All (IsSound digest r) (relevant digest r events)
unfolding replay_events replay_of failures_of
replay_events-IsSound digest r v events now h =
    let w = walk digest (length (relevant digest r events)) r "" (relevant digest r events) in
    walk-IsSound digest r (length (relevant digest r events)) "" (relevant digest r events)
      (append_nil w.chain_failures _
        (append_nil (submission_failures digest r) _ (nil_of_is_nil _ h)).1).0
