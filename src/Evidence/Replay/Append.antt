-- ===== src/Evidence/Replay/Append.antt =====
-- The replay of a history with one more event (backend-api/patchforge/evidenceReview.js).
use diiac_patchforge.Prelude.{
  ℕ, zero, suc, ◌≡◌, ◌≢◌, refl, inl, inr, arith, eq_iff, Bool, true, false, not, String, List, [],
  ◌∷◌, ◌++◌, str_eq, keep, last, Bool-cases,
}
use diiac_patchforge.Evidence.{Evidence, Event, Payload}
use diiac_patchforge.Evidence.Replay.{choose, follows, latest_hash, event_failures, walk}
use diiac_patchforge.Evidence.Replay.Chain.{choose-cases, append_nil}

-- the hash that the next event must name
abbrev pub tip : String → List Event → String
tip previous [] = previous
tip previous (e ∷ es) = tip e.event_hash es

-- No event of the chain names the hash as the one before it.
abbrev pub IsFresh : String → String → List Event → Type 0
IsFresh h previous [] = Unit
IsFresh h previous (e ∷ es) = (h ≢ previous) × IsFresh h e.event_hash es

pub tip-latest_hash : (chain : List Event) → latest_hash (last chain) ≡ tip "" chain
unfolding latest_hash
tip-latest_hash [] = refl
tip-latest_hash (e ∷ []) = refl
tip-latest_hash (e ∷ e' ∷ es) = tip-latest_hash (e' ∷ es)

keep-snoc :
    (p : Event → Bool) (es : List Event) (x : Event)
    → keep p (es ++ x ∷ []) ≡ keep p es ++ keep p (x ∷ [])
keep-snoc p [] x = refl
keep-snoc p (e ∷ es) x = elim (Bool-cases (p e)) [
  | inl t ↦ rw (t, keep-snoc p es x) refl
  | inr f ↦ rw (f, keep-snoc p es x) refl
]

nil_right : (es : List Event) → es ++ [] ≡ es
nil_right [] = refl
nil_right (e ∷ es) = rw (nil_right es) refl

strings_nil_right : (es : List String) → es ++ [] ≡ es
strings_nil_right [] = refl
strings_nil_right (e ∷ es) = rw (strings_nil_right es) refl

differs_of : {a b : String} → a ≢ b → str_eq a b ≡ false
differs_of {a} {b} h = ground (arith, eq_iff a b)

module _ (digest : Payload → String) (r : Evidence) (x : Event) where
  -- A walk that reached every event without a failure, with one more event at its end: the chain
  -- grows by the event, and the failures are its own.
  pub walk-snoc :
      (fuel : ℕ) (previous : String) (es : List Event)
      → (walk digest fuel r previous es).chain_failures ≡ []
      → x.previous_event_hash ≡ tip previous (walk digest fuel r previous es).chain
      → IsFresh x.previous_event_hash previous (walk digest fuel r previous es).chain
      → walk digest (suc fuel) r previous (es ++ x ∷ []) ≡ record {
        chain = (walk digest fuel r previous es).chain ++ x ∷ [];
        chain_failures = event_failures digest r x.previous_event_hash x;
        left_over = [];
      }
  unfolding walk choose
  walk-snoc fuel previous [] h named fresh =
      let self : str_eq x.previous_event_hash previous ≡ true =
        ground (arith, eq_iff x.previous_event_hash previous) in
      rw (self, strings_nil_right (event_failures digest r previous x), named) refl
  walk-snoc zero previous (e ∷ es) h named fresh = cc
  walk-snoc (suc fuel) previous (e ∷ es) h named fresh =
      elim (choose-cases (keep (follows previous) (e ∷ es))
        (keep (λ y. not (follows previous y)) (e ∷ es))) [
          | inl o ↦ let h' = rw o at h in cc h'
          | inr (inl f) ↦ let h' = rw f at h in cc h'
          | inr (inr (y, only)) ↦
              let h' = rw only at h in
              let named' = rw only at named in
              let fresh' = rw only at fresh in
              let both = append_nil (event_failures digest r previous y) _ h' in
              let others = keep (λ z. not (follows previous z)) (e ∷ es) in
              let other : str_eq x.previous_event_hash previous ≡ false = differs_of (fresh'.0) in
              let grown : keep (follows previous) ((e ∷ es) ++ x ∷ []) ≡ y ∷ [] =
                rw (keep-snoc (follows previous) (e ∷ es) x, only, other) refl in
              let rest : keep (λ z. not (follows previous z)) ((e ∷ es) ++ x ∷ [])
                  ≡ others ++ x ∷ [] =
                rw (keep-snoc (λ z. not (follows previous z)) (e ∷ es) x, other) refl in
              rw
                (
                  grown,
                  rest,
                  only,
                  walk-snoc fuel y.event_hash others both.1 named' fresh'.1,
                  both.0,
                )
                refl
        ]
