-- ===== src/Evidence/Actions/Passes.antt =====
-- A built event passes the checks of the replay (backend-api/patchforge/evidenceReview.js).
use diiac_patchforge.Prelude.{
  ℕ, ◌≡◌, refl, inl, inr, ◌⊎◌, arith, eq_iff, ==_iff, Bool, true, false, ◌&&◌, ◌||◌, Option, String,
  List, [], ◌∷◌, str_eq, any, Bool-cases,
}
use diiac_patchforge.Prelude.Texts.{member, text_eq_self}
use diiac_patchforge.Automation.{Lineage}
use diiac_patchforge.Evidence.{
  Evidence, Finding, EventType, Decision, Payload, Expiry, never, date, unreadable, expiry_eq,
  is_nil, same_id, normalize_id, event_payload, distinct, distinct_from, sorted, insert_sorted,
  roles_for_evidence_class,
}
use diiac_patchforge.Evidence.Replay.{
  has_role, event_checks, event_failures, is_valid_transition, current_finding_hash, is_current,
}
use diiac_patchforge.Evidence.Replay.Chain.{flags_of_false}
use diiac_patchforge.Evidence.Actions.{Principal, roles_of, oid_of, upn_of, seal, build_event}

module _ (p : String → Bool) where
  any-insert_sorted :
      (s : String) (ts : List String) → any p (insert_sorted s ts) ≡ (p s || any p ts)
  unfolding insert_sorted
  any-insert_sorted s [] = refl
  any-insert_sorted s (t ∷ ts) = ground (arith, any-insert_sorted s ts)

  any-sorted : (ts : List String) → any p (sorted ts) ≡ any p ts
  unfolding sorted
  any-sorted [] = refl
  any-sorted (t ∷ ts) = rw (any-insert_sorted t (sorted ts), any-sorted ts) refl

  any_of_member :
      (s : String) (ts : List String) → member s ts ≡ true → p s ≡ true → any p ts ≡ true
  any_of_member s [] h g = cc
  any_of_member s (t ∷ ts) h g = elim (Bool-cases (str_eq s t)) [
    | inl e ↦
        let same : s ≡ t = ground (arith, eq_iff s t) in
        let here : p t ≡ true = rw (← same) g in rw here refl
    | inr e ↦ ground (arith, any_of_member s ts (rw e at h) g)
  ]

  any-distinct_from :
      (seen ts : List String)
      → any p ts ≡ true
      → (any p seen ≡ true) ⊎ (any p (distinct_from seen ts) ≡ true)
  unfolding distinct_from
  any-distinct_from seen [] h = cc
  any-distinct_from seen (t ∷ ts) h = elim (Bool-cases (member t seen)) [
    | inl old ↦ rw old (elim (Bool-cases (p t)) [
      | inl e ↦ inl (any_of_member t seen old e)
      | inr n ↦ any-distinct_from seen ts (rw n at h)
    ])
    | inr new ↦ rw new (elim (Bool-cases (p t)) [
      | inl e ↦ inr (rw e refl)
      | inr n ↦ elim (any-distinct_from (t ∷ seen) ts (rw n at h)) [
        | inl g ↦ inl (rw n at g)
        | inr g ↦ inr (rw n g)
      ]
    ])
  ]

  any-distinct : (ts : List String) → any p ts ≡ true → any p (distinct ts) ≡ true
  unfolding distinct
  any-distinct ts h = elim (any-distinct_from [] ts h) [ inl g ↦ cc g | inr g ↦ g ]

expiry_eq_self : (x : Expiry) → expiry_eq x x ≡ true
expiry_eq_self never = refl
expiry_eq_self (date t) = ground (arith, ==_iff t t)
expiry_eq_self (unreadable s) = ground (arith, eq_iff s s)

pub str_eq_self : (s : String) → str_eq s s ≡ true
str_eq_self s = ground (arith, eq_iff s s)

same_id_self : (s : String) → is_nil (normalize_id s) ≡ false → same_id s s ≡ true
unfolding same_id
same_id_self s h = rw (h, text_eq_self (normalize_id s)) refl

-- the left of two identifiers that agree is not blank
pub same_id_left : (l r : String) → same_id l r ≡ true → is_nil (normalize_id l) ≡ false
unfolding same_id
same_id_left l r h = ground arith

module _ (digest : Payload → String) (r : Evidence) (v : Finding) where
  -- An event built for a current record with names, an actor of a role, and a proper transition,
  -- passes every check of the replay.
  pub build_event_passes :
      (t : EventType) (d : Decision) (why : List ℕ) (principal : Option Principal)
      (lineage : Lineage) (previous : String) (now : ℕ)
      → is_nil (normalize_id r.tenant_id) ≡ false
      → is_nil (normalize_id r.vulnerability_id) ≡ false
      → is_nil (normalize_id r.canonical_id) ≡ false
      → is_current digest r v ≡ true
      → (str_eq (oid_of principal) "" && str_eq (upn_of principal) "") ≡ false
      → has_role r.evidence_class (roles_of principal) ≡ true
      → is_valid_transition t d why ≡ true
      → event_failures digest r previous
          (build_event digest r v t d why principal lineage previous now)
        ≡ []
  unfolding event_failures event_checks build_event seal is_current has_role event_payload
  build_event_passes t d why principal lineage previous now nt nv nc current actor role valid =
      let tenant = same_id_self r.tenant_id nt in
      let found = same_id_self r.vulnerability_id nv in
      let canonical = same_id_self r.canonical_id nc in
      let permits : String → Bool = λ x. member x (roles_for_evidence_class r.evidence_class) in
      let kept : any permits (sorted (distinct (roles_of principal))) ≡ true =
        rw (any-sorted permits (distinct (roles_of principal)))
          (any-distinct permits (roles_of principal) role) in
      flags_of_false
        (event_checks digest r previous
          (build_event digest r v t d why principal lineage previous now))
        (
          refl,
          (
            rw (tenant, found, canonical) refl,
            (
              rw (str_eq_self r.content_hash) refl,
              (
                ground (
                  arith,
                  eq_iff r.finding_revision_hash (current_finding_hash digest v),
                  eq_iff (current_finding_hash digest v) r.finding_revision_hash,
                ),
                (
                  rw (str_eq_self r.evidence_class) refl,
                  (
                    rw (expiry_eq_self r.expires_at) refl,
                    (
                      rw (str_eq_self _) refl,
                      (actor, (rw kept refl, (rw valid refl, (rw (str_eq_self _) refl, tt)))),
                    ),
                  ),
                ),
              ),
            ),
          ),
        )
