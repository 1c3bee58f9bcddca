-- ===== src/Cycles/Scheduler/Priority/Order.antt =====
-- The order of the refresh (backend-api/patchforge/scheduler.js): the highest scores first, and the
-- order of the store among equal scores.
use mathlib.Core.List.{append_assoc, append-nil}
use diiac_patchforge.Prelude.{
  ℕ, ◌≤◌, ◌<◌, ◌≡◌, refl, sym, ap, ◌∙◌, List, [], ◌∷◌, ◌++◌, ltb, inl, inr, ◌==◌, arith, Bool-cases,
  All, keep,
}
use diiac_patchforge.Cycles.Scheduler.Priority.{
  Vulnerability, score_vulnerability, insert_by_score, sort_from, sort_by_score,
}

-- no later one scores more
abbrev pub IsDescending : List Vulnerability → Type 0
IsDescending [] = Unit
IsDescending (v ∷ vs) =
    All (λ x. score_vulnerability x ≤ score_vulnerability v) vs × IsDescending vs

-- those of one score, in their order
abbrev pub of_score : ℕ → List Vulnerability → List Vulnerability
of_score n vs = keep (λ v. score_vulnerability v == n) vs

All-le :
    (m n : ℕ) (vs : List Vulnerability)
    → m ≤ n
    → All (λ x. score_vulnerability x ≤ m) vs
    → All (λ x. score_vulnerability x ≤ n) vs
All-le m n [] h a = tt
All-le m n (v ∷ vs) h a = (omega (arith, h, a.0), All-le m n vs h a.1)

All-insert :
    (n : ℕ) (v : Vulnerability) (vs : List Vulnerability)
    → score_vulnerability v ≤ n
    → All (λ x. score_vulnerability x ≤ n) vs
    → All (λ x. score_vulnerability x ≤ n) (insert_by_score v vs)
unfolding insert_by_score
All-insert n v [] h a = (h, tt)
All-insert n v (x ∷ xs) h a =
    elim (Bool-cases (ltb (score_vulnerability x) (score_vulnerability v))) [
      | inl e ↦ rw e (h, a)
      | inr e ↦ rw e (a.0, All-insert n v xs h a.1)
    ]

insert-IsDescending :
    (v : Vulnerability) (vs : List Vulnerability)
    → IsDescending vs
    → IsDescending (insert_by_score v vs)
unfolding insert_by_score
insert-IsDescending v [] d = (tt, tt)
insert-IsDescending v (x ∷ xs) d =
    elim (Bool-cases (ltb (score_vulnerability x) (score_vulnerability v))) [
      | inl e ↦ rw e ((ground arith, All-le _ _ xs (ground arith) d.0), d)
      | inr e ↦
          rw e (
            All-insert (score_vulnerability x) v xs (ground arith) d.0,
            insert-IsDescending v xs d.1,
          )
    ]

of_score-none :
    (n : ℕ) (vs : List Vulnerability) → All (λ x. score_vulnerability x < n) vs → of_score n vs ≡ []
of_score-none n [] a = refl
of_score-none n (v ∷ vs) a = ground (arith, of_score-none n vs a.1, a.0)

All-lt :
    (m n : ℕ) (vs : List Vulnerability)
    → m < n
    → All (λ x. score_vulnerability x ≤ m) vs
    → All (λ x. score_vulnerability x < n) vs
All-lt m n [] h a = tt
All-lt m n (v ∷ vs) h a = (omega (arith, h, a.0), All-lt m n vs h a.1)

-- one that scores more than all of a list, before it
of_score-front :
    (n : ℕ) (v : Vulnerability) (vs : List Vulnerability)
    → All (λ x. score_vulnerability x < score_vulnerability v) vs
    → of_score n (v ∷ vs) ≡ of_score n vs ++ of_score n (v ∷ [])
of_score-front n v vs a = elim (Bool-cases (score_vulnerability v == n)) [
  | inl e ↦
      let none_left : of_score n vs ≡ [] =
        of_score-none n vs (All-lt_of n (score_vulnerability v) vs (ground arith) a) in
      rw (e, none_left) refl
  | inr e ↦ rw e (sym (append-nil (of_score n vs)))
]
  where
    All-lt_of :
        (n m : ℕ) (vs : List Vulnerability)
        → m ≡ n
        → All (λ x. score_vulnerability x < m) vs
        → All (λ x. score_vulnerability x < n) vs
    All-lt_of n m vs e b = rw (sym e) b

of_score-insert :
    (n : ℕ) (v : Vulnerability) (vs : List Vulnerability)
    → IsDescending vs
    → of_score n (insert_by_score v vs) ≡ of_score n vs ++ of_score n (v ∷ [])
unfolding insert_by_score
of_score-insert n v [] d = refl
of_score-insert n v (x ∷ xs) d =
    elim (Bool-cases (ltb (score_vulnerability x) (score_vulnerability v))) [
      | inl e ↦ rw e (of_score-front n v (x ∷ xs) (ground arith, All-lt _ _ xs (ground arith) d.0))
      | inr e ↦ rw e (behind (of_score-insert n v xs d.1))
    ]
  where
    behind :
        of_score n (insert_by_score v xs) ≡ of_score n xs ++ of_score n (v ∷ [])
        → of_score n (x ∷ insert_by_score v xs) ≡ of_score n (x ∷ xs) ++ of_score n (v ∷ [])
    behind h = elim (Bool-cases (score_vulnerability x == n)) [
      | inl e ↦ rw e (ap (λ ys. x ∷ ys) h)
      | inr e ↦ rw e h
    ]

of_score-cons :
    (n : ℕ) (v : Vulnerability) (vs : List Vulnerability)
    → of_score n (v ∷ []) ++ of_score n vs ≡ of_score n (v ∷ vs)
of_score-cons n v vs = elim (Bool-cases (score_vulnerability v == n)) [
  | inl e ↦ rw e refl
  | inr e ↦ rw e refl
]

sort_from-IsSorted :
    (n : ℕ) (sorted vs : List Vulnerability)
    → IsDescending sorted
    → IsDescending (sort_from sorted vs)
      × (of_score n (sort_from sorted vs) ≡ of_score n sorted ++ of_score n vs)
sort_from-IsSorted n sorted [] d = (d, sym (append-nil (of_score n sorted)))
sort_from-IsSorted n sorted (v ∷ vs) d =
    let rest =
      sort_from-IsSorted n (insert_by_score v sorted) vs (insert-IsDescending v sorted d) in
    (
      rest.0,
      rest.1
          ∙ ap (λ ys. ys ++ of_score n vs) (of_score-insert n v sorted d)
          ∙ append_assoc (of_score n sorted) (of_score n (v ∷ [])) (of_score n vs)
          ∙ ap (λ ys. of_score n sorted ++ ys) (of_score-cons n v vs),
    )

-- The vulnerabilities are put in descending order of their scores, and those of one score stay as they
-- are, all of them and in their order: none is lost, added or overtaken by an equal.
pub sort_by_score-IsSorted :
    (n : ℕ) (vs : List Vulnerability)
    → IsDescending (sort_by_score vs) × (of_score n (sort_by_score vs) ≡ of_score n vs)
unfolding sort_by_score
sort_by_score-IsSorted n vs = sort_from-IsSorted n [] vs tt
