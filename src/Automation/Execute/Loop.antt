-- ===== src/Automation/Execute/Loop.antt =====
-- The rule for the loop over the attempts of `executeSourceFeedWork`
-- (backend-api/patchforge/automationWork.js).
use diiac_patchforge.Prelude.{ℕ, zero, suc, ◌+◌, ◌≤◌, ◌<◌, ◌≡◌, String, arith}
use diiac_patchforge.Automation.{Work, Env, World}
use diiac_patchforge.Automation.Execute.{attempt_loop, continue}
use diiac_patchforge.Automation.Execute.Base.{
  ExecuteOptions, Execution, Round, answer, again, attempt_limit,
}
use diiac_patchforge.Automation.Execute.Rounds.{call_client, settle}

-- What a round establishes: the postcondition if it answers; the invariant of the next attempt, which
-- is within the limit, if it does not.
abbrev pub RoundHolds :
    ℕ → (ℕ → Work → World → Type 0) → (Execution → World → Type 0) → ℕ → Round × World → Type 0
RoundHolds limit Inv Post attempt (answer e, w) = Post e w
RoundHolds limit Inv Post attempt (again u, w) = (attempt < limit) × Inv (suc attempt) u w

abbrev pub PostHolds : (Execution → World → Type 0) → Execution × World → Type 0
PostHolds Post (e, w) = Post e w

continue_rule :
    (limit : ℕ) (Inv : ℕ → Work → World → Type 0) (Post : Execution → World → Type 0)
    (next : Work → World → Execution × World) (attempt : ℕ) (p : Round × World)
    → RoundHolds limit Inv Post attempt p
    → ((u : Work) (w : World) → attempt < limit → Inv (suc attempt) u w → PostHolds Post (next u w))
    → PostHolds Post (continue next p)
continue_rule limit Inv Post next attempt (answer e, w) h step = h
continue_rule limit Inv Post next attempt (again u, w) h step = step u w h.0 h.1

module _ (env : Env) (opts : ExecuteOptions) (tenant : String) (current : Work)
    (Inv : ℕ → Work → World → Type 0) (Post : Execution → World → Type 0) where
  -- If each round keeps the invariant or establishes the postcondition, the loop establishes the
  -- postcondition: it ends, and by an answer of a round.
  pub attempt_loop_rule :
      ((attempt : ℕ) (u : Work) (w : World)
        → attempt ≤ attempt_limit current
        → Inv attempt u w
        → RoundHolds
            (attempt_limit current)
            Inv
            Post
            attempt
            (settle env opts tenant current attempt u (call_client env opts tenant current w)))
      → (left attempt : ℕ) (u : Work) (w : World) → attempt + left ≡ suc (attempt_limit current)
      → attempt ≤ attempt_limit current
      → Inv attempt u w
      → PostHolds Post (attempt_loop env opts tenant current left attempt u w)
  unfolding attempt_loop
  attempt_loop_rule step zero attempt u w total within h = absurd (omega arith)
  attempt_loop_rule step (suc left) attempt u w total within h =
      continue_rule (attempt_limit current) Inv Post
        (attempt_loop env opts tenant current left (suc attempt)) attempt
        (settle env opts tenant current attempt u (call_client env opts tenant current w))
        (step attempt u w within h)
        (λ u' w' below h'. attempt_loop_rule step left (suc attempt) u' w' (omega arith) below h')
