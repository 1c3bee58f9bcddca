-- ===== src/Applicability/Versions/Order.antt =====
-- The order of versions (backend-api/patchforge/configApplicability.js) is that of sequences of parts
-- that go on with zeros.
use diiac_patchforge.Prelude.{
  ℕ, zero, suc, ◌+◌, ◌≤◌, ◌<◌, max, ◌≡◌, refl, sym, ◌∙◌, ◌↔◌, ◌⊎◌, inl, inr, true, false, List, [],
  ◌∷◌, arith, length, ltb, Bool-cases,
}
use diiac_patchforge.Applicability.{Text}
use diiac_patchforge.Applicability.Versions.{
  Sign, less, equal, greater, part_at, compare_from, compare_parts, version_parts, version_compare,
  is_greater,
}

-- the parts before an index agree
abbrev pub Agree : ℕ → List ℕ → List ℕ → Type 0
Agree n l r = (i : ℕ) → i < n → part_at l i ≡ part_at r i

-- an index at which the right side is larger for the first time
abbrev pub Precedes : List ℕ → List ℕ → Type 0
Precedes l r = (n : ℕ) × Agree n l r × (part_at l n < part_at r n)

-- the specification: the sequences that the lists stand for, in lexicographic order
abbrev pub Meaning : Sign → List ℕ → List ℕ → Type 0
Meaning less l r = Precedes l r
Meaning equal l r = (i : ℕ) → part_at l i ≡ part_at r i
Meaning greater l r = Precedes r l

part_at_end : (l : List ℕ) (i : ℕ) → length l ≤ i → part_at l i ≡ 0
part_at_end [] i h = refl
part_at_end (p ∷ ps) zero h = omega (arith, h)
part_at_end (p ∷ ps) (suc i) h = part_at_end ps i (omega (arith, h))

Agree-all : (n : ℕ) (l r : List ℕ) → max (length l) (length r) ≤ n → Agree n l r → Meaning equal l r
Agree-all n l r h agree i = elim (Bool-cases (ltb i n)) [
  | inl e ↦ agree i (ground arith)
  | inr e ↦ part_at_end l i (ground arith) ∙ sym (part_at_end r i (ground arith))
]

Agree-suc : (n : ℕ) (l r : List ℕ) → Agree n l r → part_at l n ≡ part_at r n → Agree (suc n) l r
Agree-suc n l r agree e i h = elim (Bool-cases (ltb i n)) [
  | inl lt ↦ agree i (ground arith)
  | inr ge ↦ at_last i (ground arith)
]
  where
    at_last : (i : ℕ) → i ≡ n → part_at l i ≡ part_at r i
    at_last i at = rw at e

Agree-sym : (n : ℕ) (l r : List ℕ) → Agree n l r → Agree n r l
Agree-sym n l r agree i h = sym (agree i h)

below_of : (a b : ℕ) → ltb a b ≡ true → a < b
below_of a b h = ground arith

level_of : (a b : ℕ) → ltb b a ≡ false → ltb a b ≡ false → a ≡ b
level_of a b h k = ground arith

compare_from-Meaning :
    (rounds i : ℕ) (l r : List ℕ)
    → max (length l) (length r) ≤ i + rounds
    → Agree i l r
    → Meaning (compare_from rounds i l r) l r
unfolding compare_from
compare_from-Meaning zero i l r h agree = Agree-all i l r (omega (arith, h)) agree
compare_from-Meaning (suc rounds) i l r h agree =
    elim (Bool-cases (ltb (part_at r i) (part_at l i))) [
      | inl gt ↦ rw gt (i, Agree-sym i l r agree, below_of _ _ gt)
      | inr ge ↦ elim (Bool-cases (ltb (part_at l i) (part_at r i))) [
        | inl lt ↦ rw (ge, lt) (i, agree, below_of _ _ lt)
        | inr le ↦
            rw (ge, le)
              (compare_from-Meaning rounds (suc i) l r (omega (arith, h))
                (Agree-suc i l r agree (level_of _ _ ge le)))
      ]
    ]

-- compare_parts means the order of the sequences.
pub compare_parts-Meaning : (l r : List ℕ) → Meaning (compare_parts l r) l r
unfolding compare_parts
compare_parts-Meaning l r =
    compare_from-Meaning _ 0 l r (omega arith) (λ i h. absurd (omega (arith, h)))

ne_of_below : (a b : ℕ) → a < b → ¬ (a ≡ b)
ne_of_below a b h = λ e. omega (arith, h, e)

Precedes-asym : (l r : List ℕ) → Precedes l r → Precedes r l → ⊥
Precedes-asym l r p q = elim (Bool-cases (ltb p.0 q.0)) [
  | inl lt ↦ ne_of_below _ _ p.2 (sym (q.1 p.0 (below_of _ _ lt)))
  | inr ge ↦ elim (Bool-cases (ltb q.0 p.0)) [
    | inl lt ↦ ne_of_below _ _ q.2 (sym (p.1 q.0 (below_of _ _ lt)))
    | inr le ↦ at_same p.0 q.0 (level_of _ _ le ge) p.2 q.2
  ]
]
  where
    at_same : (n m : ℕ) → n ≡ m → part_at l n < part_at r n → part_at r m < part_at l m → ⊥
    at_same n m e h k = let k' : part_at r n < part_at l n = rw e k in omega (arith, h, k')

Precedes-irrefl : (l r : List ℕ) → Precedes l r → ((i : ℕ) → part_at l i ≡ part_at r i) → ⊥
Precedes-irrefl l r p same = ne_of_below _ _ p.2 (same p.0)

-- Each pair of lists has one sign.
Meaning-unique : (s t : Sign) (l r : List ℕ) → Meaning s l r → Meaning t l r → s ≡ t
Meaning-unique less less l r p q = refl
Meaning-unique equal equal l r p q = refl
Meaning-unique greater greater l r p q = refl
Meaning-unique less equal l r p q = absurd (Precedes-irrefl l r p q)
Meaning-unique less greater l r p q = absurd (Precedes-asym l r p q)
Meaning-unique equal less l r p q = absurd (Precedes-irrefl l r q p)
Meaning-unique equal greater l r p q = absurd (Precedes-irrefl r l q (λ i. sym (p i)))
Meaning-unique greater less l r p q = absurd (Precedes-asym l r q p)
Meaning-unique greater equal l r p q = absurd (Precedes-irrefl r l p (λ i. sym (q i)))

compare_parts_iff : (l r : List ℕ) (s : Sign) → (compare_parts l r ≡ s) ↔ Meaning s l r
compare_parts_iff l r s = (
  λ e. rw (sym e) (compare_parts-Meaning l r),
  Meaning-unique _ s l r (compare_parts-Meaning l r),
)

-- The comparison of two versions implements the lexicographic order of their parts, the shorter one
-- continued with zeros: it is less, equal or greater exactly where the order says so.
pub version_compare_iff :
    (left right : Text) (s : Sign)
    → (version_compare left right ≡ s) ↔ Meaning s (version_parts left) (version_parts right)
unfolding version_compare
version_compare_iff left right s = compare_parts_iff (version_parts left) (version_parts right) s

-- the converse of a sign
abbrev pub flip : Sign → Sign
flip less = greater
flip equal = equal
flip greater = less

Meaning-flip : (s : Sign) (l r : List ℕ) → Meaning s l r → Meaning (flip s) r l
Meaning-flip less l r p = p
Meaning-flip equal l r p = λ i. sym (p i)
Meaning-flip greater l r p = p

abbrev Upto : List ℕ → List ℕ → Type 0
Upto l r = Precedes l r ⊎ Meaning equal l r

less_equal : {a b c : ℕ} → a < b → b ≡ c → a < c
less_equal h e = omega (arith, h, e)

equal_less : {a b c : ℕ} → a ≡ b → b < c → a < c
equal_less e h = omega (arith, h, e)

Precedes-trans : (a b c : List ℕ) → Precedes a b → Precedes b c → Precedes a c
Precedes-trans a b c p q = elim (Bool-cases (ltb p.0 q.0)) [
  | inl lt ↦ (
    p.0,
    (λ i h. p.1 i h ∙ q.1 i (omega (arith, h, below_of _ _ lt))),
    less_equal p.2 (q.1 p.0 (below_of _ _ lt)),
  )
  | inr ge ↦ elim (Bool-cases (ltb q.0 p.0)) [
    | inl lt ↦ (
      q.0,
      (λ i h. p.1 i (omega (arith, h, below_of _ _ lt)) ∙ q.1 i h),
      equal_less (p.1 q.0 (below_of _ _ lt)) q.2,
    )
    | inr le ↦ at_same p.0 q.0 (level_of _ _ le ge) p.1 q.1 p.2 q.2
  ]
]
  where
    at_same :
        (n m : ℕ)
        → n ≡ m
        → Agree n a b
        → Agree m b c
        → part_at a n < part_at b n
        → part_at b m < part_at c m
        → Precedes a c
    at_same n m e g g' h k =
        let k' : part_at b n < part_at c n = rw e k in
        (n, (λ i lt. g i lt ∙ g' i (omega (arith, lt, e))), omega (arith, h, k'))

Precedes-equal : (a b c : List ℕ) → Precedes a b → Meaning equal b c → Precedes a c
Precedes-equal a b c p e = (p.0, (λ i h. p.1 i h ∙ e i), less_equal p.2 (e p.0))

equal-Precedes : (a b c : List ℕ) → Meaning equal a b → Precedes b c → Precedes a c
equal-Precedes a b c e p = (p.0, (λ i h. e i ∙ p.1 i h), equal_less (e p.0) p.2)

Upto-trans : (a b c : List ℕ) → Upto a b → Upto b c → Upto a c
Upto-trans a b c (inl p) (inl q) = inl (Precedes-trans a b c p q)
Upto-trans a b c (inl p) (inr e) = inl (Precedes-equal a b c p e)
Upto-trans a b c (inr e) (inl q) = inl (equal-Precedes a b c e q)
Upto-trans a b c (inr e) (inr e') = inr (λ i. e i ∙ e' i)

Upto-of : (s : Sign) (l r : List ℕ) → is_greater s ≡ false → Meaning s l r → Upto l r
Upto-of less l r h m = inl m
Upto-of equal l r h m = inr m
Upto-of greater l r h m = cc

not_greater-of : (s : Sign) (l r : List ℕ) → Upto l r → Meaning s l r → is_greater s ≡ false
not_greater-of less l r h m = refl
not_greater-of equal l r h m = refl
not_greater-of greater l r (inl p) m = absurd (Precedes-asym l r p m)
not_greater-of greater l r (inr e) m = absurd (Precedes-irrefl r l m (λ i. sym (e i)))

-- The versions are ordered: swapping the sides of a comparison flips its sign, and a version that is
-- not greater than one that is not greater than a third is not greater than the third.
pub version_compare-flip_trans :
    (a b c : Text)
    → is_greater (version_compare a b) ≡ false
    → is_greater (version_compare b c) ≡ false
    → (version_compare b a ≡ flip (version_compare a b))
      × (is_greater (version_compare a c) ≡ false)
unfolding version_compare
version_compare-flip_trans a b c h k =
    let l = version_parts a in
    let m = version_parts b in
    let r = version_parts c in
    (
      Meaning-unique _ _ m l (compare_parts-Meaning m l)
          (Meaning-flip _ l m (compare_parts-Meaning l m)),
      not_greater-of _ l r
          (Upto-trans l m r (Upto-of _ l m h (compare_parts-Meaning l m))
            (Upto-of _ m r k (compare_parts-Meaning m r)))
          (compare_parts-Meaning l r),
    )
