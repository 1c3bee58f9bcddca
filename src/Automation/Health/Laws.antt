-- ===== src/Automation/Health/Laws.antt =====
-- What a report of readiness means (backend-api/patchforge/automationWork.js, `automationHealth`).
use diiac_patchforge.Prelude.{
  ℕ, min, ◌+◌, ◌≤◌, ◌<◌, ◌≡◌, refl, ◌⊎◌, inl, inr, Bool, true, false, not, ◌&&◌, String, List, [],
  ◌∷◌, ◌++◌, arith, ltb, if◌then◌else◌, count_if, All, Bool-cases,
}
use diiac_patchforge.Store.{list_for}
use diiac_patchforge.Automation.{Work, work_keyed, dead_letter_keyed, checkpoint_keyed, Db}
use diiac_patchforge.Automation.Health.{
  Alert, is_open, is_quarantined, oldest, time_of, backlog_of, age_of_oldest, SloOptions,
  backlog_slo_ms, open_letters, quarantined_letters, alerts_of, ready, degraded, automation_health,
  is_empty, when,
}

none_counted :
    {A : Type 0} (p : A → Bool) (xs : List A)
    → ltb 0 (count_if p xs) ≡ false
    → All (λ x. p x ≡ false) xs
none_counted p [] h = tt
none_counted p (x ∷ xs) h = elim (Bool-cases (p x)) [
  | inl e ↦ absurd (ground arith)
  | inr e ↦ (e, none_counted p xs (rw e at h))
]

when_nil :
    (b : Bool) (a : Alert) (rest : List Alert)
    → is_empty (when b a ++ rest) ≡ true
    → (b ≡ false) × (is_empty rest ≡ true)
when_nil true a rest h = cc
when_nil false a rest h = (refl, h)

abbrev IsLowerBound : ℕ → List Work → Type 0
IsLowerBound n = All (λ w. 0 < time_of w → (0 < n) × (n ≤ time_of w))

-- a smaller bound, positive where the other is, bounds the same list
IsLowerBound-weaken :
    (m n : ℕ) (ws : List Work) → (0 < n → (0 < m) × (m ≤ n)) → IsLowerBound n ws → IsLowerBound m ws
IsLowerBound-weaken m n [] f h = tt
IsLowerBound-weaken m n (w ∷ ws) f h = (
  λ p. let q = h.0 p in let r = f q.0 in (r.0, omega (arith, r.1, q.1)),
  IsLowerBound-weaken m n ws f h.1,
)

abbrev earlier : ℕ → ℕ → ℕ
earlier t r = if not (ltb 0 t) then r else if ltb 0 r then min t r else t

earlier_left : (t r : ℕ) → 0 < t → (0 < earlier t r) × (earlier t r ≤ t)
earlier_left t r h = (ground arith, ground arith)

earlier_right : (t r : ℕ) → 0 < r → (0 < earlier t r) × (earlier t r ≤ r)
earlier_right t r h = (ground arith, ground arith)

-- no time of the list is before the oldest
oldest-IsLowerBound : (ws : List Work) → IsLowerBound (oldest ws) ws
unfolding oldest
oldest-IsLowerBound [] = tt
oldest-IsLowerBound (w ∷ ws) = (
  earlier_left (time_of w) (oldest ws),
  IsLowerBound-weaken _ (oldest ws) ws (earlier_right (time_of w) (oldest ws))
      (oldest-IsLowerBound ws),
)

abbrev IsYoung : ℕ → ℕ → List Work → Type 0
IsYoung now slo = All (λ w. (time_of w ≡ 0) ⊎ (now ≤ time_of w + slo))

IsYoung-of_bound :
    (now slo n : ℕ) (ws : List Work)
    → (0 < n → now ≤ n + slo)
    → IsLowerBound n ws
    → IsYoung now slo ws
IsYoung-of_bound now slo n [] f h = tt
IsYoung-of_bound now slo n (w ∷ ws) f h = (
  elim (Bool-cases (ltb 0 (time_of w))) [
    | inr e ↦ inl (ground arith)
    | inl e ↦ let q = h.0 (ground arith) in let r = f q.0 in inr (omega (arith, r, q.1))
  ],
  IsYoung-of_bound now slo n ws f h.1,
)

age_of_oldest-IsYoung :
    (now slo : ℕ) (ws : List Work)
    → (not (is_empty ws) && ltb slo (age_of_oldest now ws)) ≡ false
    → IsYoung now slo ws
unfolding age_of_oldest
age_of_oldest-IsYoung now slo [] h = tt
age_of_oldest-IsYoung now slo (w ∷ ws) h =
    IsYoung-of_bound now slo (oldest (w ∷ ws)) (w ∷ ws) (λ p. ground arith)
      (oldest-IsLowerBound (w ∷ ws))

ready_if : (b : Bool) → (if b then ready else degraded) ≡ ready → b ≡ true
ready_if true h = refl
ready_if false h = cc

no_alerts :
    (o : SloOptions) (now : ℕ) (db : Db) (tenant : String)
    → (automation_health tenant o now db).health_status ≡ ready
    → is_empty (
        alerts_of
          (list_for tenant db.work_items)
          (list_for tenant db.dead_letters)
          (list_for tenant db.checkpoints)
          o
          now)
      ≡ true
unfolding automation_health
no_alerts o now db tenant h = ready_if _ h

-- A tenant whose health is ready has no open and no quarantined dead letter, and every queued work
-- item of the tenant that has a time is no older than the backlog objective.
pub ready_means :
    (tenant : String) (o : SloOptions) (now : ℕ) (db : Db)
    → (automation_health tenant o now db).health_status ≡ ready
    → All (λ d. is_open d.status ≡ false) (list_for tenant db.dead_letters)
      × All (λ d. is_quarantined d.status ≡ false) (list_for tenant db.dead_letters)
      × All
          (λ w. (time_of w ≡ 0) ⊎ (now ≤ time_of w + backlog_slo_ms o))
          (backlog_of (list_for tenant db.work_items))
unfolding alerts_of open_letters quarantined_letters
ready_means tenant o now db h =
    let a = when_nil _ _ _ (no_alerts o now db tenant h) in
    let b = when_nil _ _ _ a.1 in
    let c = when_nil _ _ _ b.1 in
    (none_counted _ _ a.0, none_counted _ _ b.0, age_of_oldest-IsYoung now (backlog_slo_ms o) _ c.0)
