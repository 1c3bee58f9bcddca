-- ===== src/Cleanup/Laws.antt =====
-- What a cleanup removes (backend-api/patchforge/storage.js).
pub mod Exactly
pub mod Once
pub mod Tokens
pub mod Purges
pub mod Backends
use diiac_patchforge.Prelude.{
  ℕ, ◌+◌, ◌-◌, ◌≡◌, refl, sym, ap, ◌∙◌, ◌⊎◌, inl, inr, Bool, true, false, not, ◌&&◌, ◌||◌, Option,
  none, some, String, List, [], ◌∷◌, ◌++◌, arith, str_eq, eq_iff, eq_refl, keep, any, All,
  Bool-cases, Option-cases, if_both, if◌then◌else◌, length,
}
use diiac_patchforge.Prelude.Texts.{codes, member}
use diiac_patchforge.Cleanup.{Rec, Files, write, audit, cleanup_collections}
use diiac_patchforge.Cleanup.Plan.{
  is_selected, add_id, add_ids, insert_text, sort_texts, text_leb, ids_of, with_ids, selected_ids,
}
use diiac_patchforge.Cleanup.Execute.{retained, remove}

member-insert :
    (x s : String) (ts : List String) → member x (insert_text s ts) ≡ (str_eq x s || member x ts)
member-insert x s [] = refl
member-insert x s (t ∷ ts) = ground (arith, member-insert x s ts)

member-sort : (x : String) (ts : List String) → member x (sort_texts ts) ≡ member x ts
member-sort x [] = refl
member-sort x (t ∷ ts) =
    member-insert x t (sort_texts ts) ∙ ap (λ b. str_eq x t || b) (member-sort x ts)

member-concat :
    (x s : String) (ts : List String) → member x (ts ++ s ∷ []) ≡ (member x ts || str_eq x s)
member-concat x s [] = ground arith
member-concat x s (t ∷ ts) = ground (arith, member-concat x s ts)

member-add_id :
    (x id : String) (ids : List String) → member x ids ≡ true → member x (add_id id ids) ≡ true
member-add_id x id ids h = ground (arith, member-concat x id ids)

add_id_self : (id : String) (ids : List String) → member id (add_id id ids) ≡ true
add_id_self id ids = ground (arith, member-concat id id ids, eq_iff id id)

add_ids-keeps :
    (x : String) (rs : List Rec) (ids : List String)
    → member x ids ≡ true
    → member x (add_ids rs ids) ≡ true
add_ids-keeps x [] ids h = h
add_ids-keeps x (r ∷ rs) ids h =
    add_ids-keeps x rs (add_id r.record_id ids) (member-add_id x r.record_id ids h)

-- every selected record's identifier is in the plan
All-add_ids :
    (rs : List Rec) (ids : List String) → All (λ r. member r.record_id (add_ids rs ids) ≡ true) rs
All-add_ids [] ids = tt
All-add_ids (r ∷ rs) ids = (
  add_ids-keeps r.record_id rs _ (add_id_self r.record_id ids),
  All-add_ids rs (add_id r.record_id ids),
)

-- the records that a cleanup is not about
abbrev pub untouched : String → String → List Rec → List Rec
untouched tenant identifier recs = keep (λ r. not (is_selected tenant identifier r)) recs

keep-All_of :
    (tenant identifier : String) (ids : List String) (recs : List Rec)
    → All (λ r. member r.record_id ids ≡ true) (keep (is_selected tenant identifier) recs)
    → retained tenant identifier ids recs ≡ untouched tenant identifier recs
unfolding retained
keep-All_of tenant identifier ids [] h = refl
keep-All_of tenant identifier ids (r ∷ rs) h = elim (Bool-cases (is_selected tenant identifier r)) [
  | inl e ↦
      let h' : (member r.record_id ids ≡ true)
          × All (λ x. member x.record_id ids ≡ true) (keep (is_selected tenant identifier) rs) =
        rw e at h in
      rw (e, h'.0) (keep-All_of tenant identifier ids rs h'.1)
  | inr e ↦ rw e (ap (λ xs. r ∷ xs) (keep-All_of tenant identifier ids rs (rw e at h)))
]

All-sorted :
    (ids : List String) (rs : List Rec)
    → All (λ r. member r.record_id ids ≡ true) rs
    → All (λ r. member r.record_id (sort_texts ids) ≡ true) rs
All-sorted ids [] h = tt
All-sorted ids (r ∷ rs) h = (member-sort r.record_id ids ∙ h.0, All-sorted ids rs h.1)

-- The plan's identifiers of a collection are enough: what is left is what the cleanup is not about.
retained-untouched :
    (tenant identifier : String) (recs : List Rec)
    → retained tenant identifier (ids_of tenant identifier recs) recs
      ≡ untouched tenant identifier recs
unfolding ids_of
retained-untouched tenant identifier recs =
    keep-All_of tenant identifier _ recs
      (All-sorted _ _ (All-add_ids (keep (is_selected tenant identifier) recs) []))

retained-nil :
    (tenant identifier : String) (recs : List Rec) → retained tenant identifier [] recs ≡ recs
unfolding retained
retained-nil tenant identifier [] = refl
retained-nil tenant identifier (r ∷ rs) = elim (Bool-cases (is_selected tenant identifier r)) [
  | inl e ↦ rw e (ap (λ xs. r ∷ xs) (retained-nil tenant identifier rs))
  | inr e ↦ rw e (ap (λ xs. r ∷ xs) (retained-nil tenant identifier rs))
]

-- no name stands in a list twice
abbrev pub distinct : List String → Bool
distinct [] = true
distinct (n ∷ ns) = not (member n ns) && distinct ns

combine {ℓ} :
    {A : Type ℓ} (p q : Bool) (x u g f : A)
    → x ≡ (if q then u else g)
    → g ≡ (if p then u else f)
    → x ≡ (if p || q then u else f)
combine true true x u g f h k = h
combine true false x u g f h k = h ∙ k
combine false true x u g f h k = h
combine false false x u g f h k = h ∙ k

or_right : (p q : Bool) → q ≡ true → (p || q) ≡ true
or_right true q h = refl
or_right false q h = h

distinct_head : (p q : Bool) → (not p && q) ≡ true → (p ≡ false) × (q ≡ true)
distinct_head p q h = ground arith

module _ (tenant identifier : String) (before : String → List Rec) where
  -- the files after the removal of what is selected in some collections
  abbrev pub Exact : List String → (String → List Rec) → (String → List Rec) → Type 0
  Exact names files after =
      (n : String)
      → after n ≡ (if member n names then untouched tenant identifier (before n) else files n)

  abbrev Unread : List String → (String → List Rec) → Type 0
  Unread names files = (n : String) → member n names ≡ true → files n ≡ before n

  abbrev pub after_names : List String → (String → List Rec) → ℕ → String → List Rec
  after_names names files c =
      (remove tenant identifier (selected_ids tenant identifier before names) (files, c)).0

  written :
      (name : String) (left : List Rec) (files : String → List Rec) (n : String)
      → left ≡ untouched tenant identifier (before name)
      → write name left files n
        ≡ (if str_eq n name then untouched tenant identifier (before n) else files n)
  written name left files n e = elim (Bool-cases (str_eq n name)) [
    | inl t ↦
        let same : n ≡ name = ground (arith, eq_iff n name) in
        rw t (e ∙ sym (ap (λ m. untouched tenant identifier (before m)) same))
    | inr f ↦ rw f refl
  ]

  unwritten :
      (name : String) (files : String → List Rec) (n : String)
      → files name ≡ untouched tenant identifier (before name)
      → files n ≡ (if str_eq n name then untouched tenant identifier (before n) else files n)
  unwritten name files n e = elim (Bool-cases (str_eq n name)) [
    | inl t ↦
        let same : n ≡ name = ground (arith, eq_iff n name) in
        rw t (ap files same ∙ e ∙ sym (ap (λ m. untouched tenant identifier (before m)) same))
    | inr f ↦ rw f refl
  ]

  Unread-write :
      (name : String) (names : List String) (left : List Rec) (files : String → List Rec)
      → member name names ≡ false
      → Unread (name ∷ names) files
      → Unread names (write name left files)
  Unread-write name names left files new u n m = elim (Bool-cases (str_eq n name)) [
    | inl t ↦
        let same : n ≡ name = ground (arith, eq_iff n name) in
        let clash = sym m ∙ ap (λ x. member x names) same ∙ new in cc
    | inr f ↦ rw f (u n (rw (f, m) refl))
  ]

  head-Exact :
      (name : String) (names ids : List String) (files : String → List Rec) (c : ℕ)
      → retained tenant identifier ids (files name) ≡ untouched tenant identifier (before name)
      → member name names ≡ false
      → Unread (name ∷ names) files
      → ((g : String → List Rec) (d : ℕ) → Unread names g → Exact names g (after_names names g d))
      → Exact
          (name ∷ names)
          files
          (remove tenant identifier
            (with_ids name ids (selected_ids tenant identifier before names))
            (files, c)).0
  unfolding remove
  head-Exact name names [] files c e new u ih n =
      combine (str_eq n name) (member n names) _ _ (files n) (files n)
        (ih files c (λ m h. u m (or_right (str_eq m name) (member m names) h)) n)
        (unwritten name files n (sym (retained-nil tenant identifier (files name)) ∙ e))
  head-Exact name names (id ∷ ids) files c e new u ih n =
      combine (str_eq n name) (member n names) _ _
        (write name (retained tenant identifier (id ∷ ids) (files name)) files n) (files n)
        (ih _ _ (Unread-write name names _ files new u) n) (written name _ files n e)

  -- Removing what a plan selects in some collections leaves there exactly the rest, and every other
  -- collection as it was.
  pub remove-Exact :
      (names : List String) (files : String → List Rec) (c : ℕ)
      → distinct names ≡ true
      → Unread names files
      → Exact names files (after_names names files c)
  unfolding selected_ids remove
  remove-Exact [] files c d u = λ n. refl
  remove-Exact (name ∷ names) files c d u =
      let (new, rest) = distinct_head (member name names) (distinct names) d in
      head-Exact name names (ids_of tenant identifier (before name)) files c
        (ap (retained tenant identifier (ids_of tenant identifier (before name)))
            (u name (rw (eq_refl name) refl))
          ∙ retained-untouched tenant identifier (before name))
        new u (λ g k v. remove-Exact names g k rest v)
