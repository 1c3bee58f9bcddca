-- ===== src/Workflow/Laws.antt =====
-- What no sequence of transitions can undo (backend-api/patchforge/priority.js).
use diiac_patchforge.Prelude.{
  ℕ, suc, ◌+◌, ◌≡◌, refl, arith, Bool, true, false, ◌||◌, Option, none, some, some_inj, [], ◌∷◌,
  length, length-append,
}
use diiac_patchforge.Security.{parse_security_boolean_any}
use diiac_patchforge.Workflow.{
  WorkflowInput, WorkflowItem, ReviewState, is_ciso, create_workflow_item, created_with,
  transitioned_with, transition_workflow_item,
}

-- An item that the workflow may hold: no approval, a human to review it, and a security officer's review
-- required in the state that is named after it.
pub record IsGoverned (item : WorkflowItem) : Type 0 where
  pub unapproved : item.final_approval_issued ≡ false
  pub by_human : item.human_review_required ≡ true
  pub not_autonomous : item.no_autonomous_production_approval ≡ true
  pub escalated : (is_ciso item.status || item.review_required) ≡ item.review_required

-- the transitions by which an item comes from another, each one accepted
pub data Reaches : WorkflowItem → WorkflowItem → ℕ → Type 0 where
  here : (item : WorkflowItem) → Reaches item item 0
  step :
      (a b c : WorkflowItem) (i : WorkflowInput) (n : ℕ)
      → Reaches a b n
      → transition_workflow_item b i ≡ some c
      → Reaches a c (suc n)

or_last : (p q : Bool) → (q || (p || q)) ≡ (p || q)
or_last true true = refl
or_last true false = refl
or_last false true = refl
or_last false false = refl

-- What one item keeps of another: with the number of entries that its trail has more.
record Follows (a b : WorkflowItem) (n : ℕ) : Type 0 where
  governed : IsGoverned b
  longer : length b.audit_trail ≡ length a.audit_trail + n
  still_required : (a.review_required || b.review_required) ≡ b.review_required

or_self : (p : Bool) → (p || p) ≡ p
or_self true = refl
or_self false = refl

absorb : (p q r s : Bool) → (p || q) ≡ q → (p || ((q || r) || s)) ≡ ((q || r) || s)
absorb true true r s h = refl
absorb true false r s h = cc
absorb false q r s h = refl

created_with-IsGoverned :
    (i : WorkflowInput) (required : Bool) (o : Option ReviewState) (item : WorkflowItem)
    → created_with i required o ≡ some item
    → IsGoverned item × (length item.audit_trail ≡ 1)
created_with-IsGoverned i required none item h = cc
created_with-IsGoverned i required (some status) item h = rw (← some_inj h) (
  record {
    unapproved = refl;
    by_human = refl;
    not_autonomous = refl;
    escalated = or_last required (is_ciso status);
  },
  refl,
)

transitioned_with-Follows :
    (a b c : WorkflowItem) (i : WorkflowInput) (n : ℕ) (o : Option ReviewState)
    → Follows a b n
    → transitioned_with b i o ≡ some c
    → Follows a c (suc n)
transitioned_with-Follows a b c i n none f h = cc
transitioned_with-Follows a b c i n (some status) f h =
    let flags =
      parse_security_boolean_any (i.ciso_review_required ∷ i.ciso_approval_required ∷ []) in
    rw (← some_inj h) (record {
      governed = record {
        unapproved = refl;
        by_human = refl;
        not_autonomous = refl;
        escalated = or_last (b.review_required || flags) (is_ciso status);
      };
      longer = omega (arith, f.longer, length-append b.audit_trail _);
      still_required =
          absorb a.review_required b.review_required flags (is_ciso status) f.still_required;
    })

Reaches-Follows : (a b : WorkflowItem) (n : ℕ) → IsGoverned a → Reaches a b n → Follows a b n
unfolding transition_workflow_item
Reaches-Follows a b n g (here item) = record {
  governed = g;
  longer = omega arith;
  still_required = or_self item.review_required;
}
Reaches-Follows a b n g (step a' b' c' i m r t) =
    transitioned_with-Follows a' b' c' i m _ (Reaches-Follows a' b' m g r) t

-- Whatever transitions follow the creation of an item, none of them approves it or lifts a review that was
-- required: no approval is issued, a human has to review it, a review stays required once it has been,
-- and the audit trail has an entry for the creation and for each transition.
pub Reaches-IsGoverned :
    (i : WorkflowInput) (a b : WorkflowItem) (n : ℕ)
    → create_workflow_item i ≡ some a
    → Reaches a b n
    → IsGoverned b
      × ((a.review_required || b.review_required) ≡ b.review_required)
      × (length b.audit_trail ≡ suc n)
unfolding create_workflow_item
Reaches-IsGoverned i a b n h r =
    let made = created_with-IsGoverned i _ _ a h in
    let f = Reaches-Follows a b n made.0 r in
    (f.governed, f.still_required, omega (arith, f.longer, made.1))
