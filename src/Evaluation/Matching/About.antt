-- ===== src/Evaluation/Matching/About.antt =====
-- The labels that a finding is about, as classify looks them up.
use pr_sentinel.Prelude.{
  ◌≡◌, ◌↔◌, inl, inr, refl, Bool, true, false, Option, none, some, List, [], ◌∷◌, Text, any, In,
  All, Bool-cases, Option-cases, arith,
}
use pr_sentinel.Domain.Enums.{Family, category_of, family_of, same_family}
use pr_sentinel.Domain.Models.{Finding}
use pr_sentinel.Evaluation.Labels.{
  Label, locates, same_concern, families_of, in_families, found_categories, split_bars,
  is_docs_contract,
}
use pr_sentinel.Evaluation.Matching.{is_about, all_about, first_about}

-- Every category that the finding names is one.
abbrev pub NamesCategories : Finding → Type 0
NamesCategories f = All (λ name. (c : _) × (category_of name ≡ some c)) (found_categories f)

abbrev Returns : {A : Type 0} → Option A → Type 0
Returns {A} o = (a : A) × (o ≡ some a)

-- The finding reaches the label and speaks of its concern.
abbrev pub IsAbout : Finding → Label → Type 0
IsAbout f l = (locates f l ≡ true) × (same_concern f l ≡ some true)

abbrev pub Reaches : Finding → List Label → Type 0
Reaches f labels = (l : Label) × In l labels × IsAbout f l

is_about_iff : (f : Finding) (l : Label) → (is_about f l ≡ some true) ↔ IsAbout f l
unfolding is_about
is_about_iff f l = ground arith

in_families-Returns :
    (families : List Family) (names : List Text)
    → All (λ name. (c : _) × (category_of name ≡ some c)) names
    → Returns (in_families families names)
unfolding in_families
in_families-Returns families [] h = (false, refl)
in_families-Returns families (name ∷ names) h =
    let (c, e) = h.0 in
    let (b, r) = in_families-Returns families names h.1 in
    elim (Bool-cases (any (same_family (family_of c)) families)) [
      | inl t ↦ (true, rw (in_families, e, t) refl)
      | inr n ↦ (b, rw (in_families, e, n) r)
    ]

same_concern-Returns : (f : Finding) (l : Label) → NamesCategories f → Returns (same_concern f l)
unfolding same_concern
same_concern-Returns f l h = elim (Option-cases l.category) [
  | inl e ↦ (true, rw (same_concern, e) refl)
  | inr (names, e) ↦ elim (Option-cases (families_of (split_bars names))) [
    | inl e' ↦ (true, rw (same_concern, e, e') refl)
    | inr (families, e') ↦
        let (b, r) = in_families-Returns families (found_categories f) h in
        last names families e e' b r
  ]
]
  where
    last :
        (names : Text) (families : List Family)
        → l.category ≡ some names
        → families_of (split_bars names) ≡ some families
        → (b : Bool) → in_families families (found_categories f) ≡ some b
        → Returns (same_concern f l)
    last names families e e' true r = (true, rw (same_concern, e, e', r) refl)
    last names families e e' false r =
        (is_docs_contract families f, rw (same_concern, e, e', r) refl)

is_about-Returns : (f : Finding) (l : Label) → NamesCategories f → Returns (is_about f l)
unfolding is_about
is_about-Returns f l h = elim (Bool-cases (locates f l)) [
  | inl t ↦ let (b, r) = same_concern-Returns f l h in (b, rw (is_about, t) r)
  | inr n ↦ (false, rw (is_about, n) refl)
]

-- The labels that all_about keeps.
pub all_about_keeps :
    (f : Finding) (labels : List Label)
    → NamesCategories f
    → (kept : List Label) × (all_about f labels ≡ some kept)
      × ((l : Label) → In l kept ↔ (In l labels × IsAbout f l))
unfolding all_about
all_about_keeps f [] h = ([], refl, λ l. (λ m. absurd m, λ m. absurd m.0))
all_about_keeps f (x ∷ xs) h =
    let (b, r) = is_about-Returns f x h in
    let (ys, rs, keeps) = all_about_keeps f xs h in
    elim (Bool-cases b) [
      | inl t ↦
          let about = (is_about_iff f x).0 (rw t at r) in
          (
            x ∷ ys,
            rw (all_about, r, rs, t) refl,
            λ l. (
              λ m. elim m [
                | inl e ↦ (inl e, rw e about)
                | inr i ↦ let (j, k) = (keeps l).0 i in (inr j, k)
              ],
              λ (m, k). elim m [ inl e ↦ inl e | inr i ↦ inr ((keeps l).1 (i, k)) ],
            ),
          )
      | inr n ↦ (
        ys,
        rw (all_about, r, rs, n) refl,
        λ l. (
          λ i. let (j, k) = (keeps l).0 i in (inr j, k),
          λ (m, k). elim m [
            | inl e ↦ absurd (not_about x r n (rw e at k))
            | inr i ↦ (keeps l).1 (i, k)
          ],
        ),
      )
    ]
  where
    not_about : (x : Label) {b : Bool} → is_about f x ≡ some b → b ≡ false → IsAbout f x → ⊥
    not_about x r n k = ground (arith, r, n, (is_about_iff f x).1 k)

-- The first label that the finding is about, or none when it is about none of them.
abbrev pub FirstOf : Finding → List Label → Option Label → Type 0
FirstOf f labels none = ¬ Reaches f labels
FirstOf f labels (some l) = In l labels × IsAbout f l

pub first_about_finds :
    (f : Finding) (labels : List Label)
    → NamesCategories f
    → (found : Option Label) × (first_about f labels ≡ some found) × FirstOf f labels found
unfolding first_about
first_about_finds f [] h = (none, refl, λ (l, m, k). m)
first_about_finds f (x ∷ xs) h =
    let (b, r) = is_about-Returns f x h in
    let (found, rs, first) = first_about_finds f xs h in
    elim (Bool-cases b) [
      | inl t ↦ (some x, rw (first_about, r, t) refl, (inl refl, (is_about_iff f x).0 (rw t at r)))
      | inr n ↦ (found, rw (first_about, r, n) rs, behind found first (rw n at r))
    ]
  where
    behind :
        (found : Option Label)
        → FirstOf f xs found
        → is_about f x ≡ some false
        → FirstOf f (x ∷ xs) found
    behind none first r = λ (l, m, k). elim m [
      | inl e ↦ absurd (ground (arith, (is_about_iff f x).1 (rw e at k), r))
      | inr i ↦ first (l, i, k)
    ]
    behind (some l) first r = (inr first.0, first.1)
