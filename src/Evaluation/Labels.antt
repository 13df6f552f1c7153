-- ===== src/Evaluation/Labels.antt =====
-- Label of src/pr_sentinel/evaluation/fixtures.py, and the tests of a finding against a label in
-- src/pr_sentinel/evaluation/matching.py. The identity of a Label object, id(label), is its field
-- `ref`; a `min_severity` is one of the four.
use pr_sentinel.Prelude.{
  ℕ, suc, zero, ℤ, pos, negsuc, min, Bool, true, false, not, ◌&&◌, ◌||◌, ◌==◌, Option, none, some,
  List, [], ◌∷◌, Text, codes, text_eq, any, leb, if◌then◌else◌, distance,
}
use pr_sentinel.Domain.Enums.{
  agent_name, category_name, category_of, Family, family_of, same_family, Severity,
}
use pr_sentinel.Domain.Models.{Finding, Evidence}

pub record Label : Type 0 where
  pub ref : ℕ
  pub file_path : Text
  pub line : ℕ
  pub note : Text
  pub agent : Option Text
  pub category : Option Text
  pub min_severity : Severity

-- LINE_TOLERANCE
abbrev pub line_tolerance : ℕ
line_tolerance = 3

-- a <= n and n <= a, for an integer a.
int_leb : ℤ → ℕ → Bool
int_leb (pos a) n = leb a n
int_leb (negsuc a) n = true

leb_int : ℕ → ℤ → Bool
leb_int n (pos a) = leb n a
leb_int n (negsuc a) = false

within : ℤ → ℤ → ℕ → Bool
unfolding int_leb leb_int
within lo hi n = int_leb lo n && leb_int n hi

-- _near
unfoldable pub near : Text → ℤ → ℤ → Label → Bool
unfolding within
near path lo hi l =
    text_eq path l.file_path
    && (within lo hi l.line || leb (min (distance l.line lo) (distance l.line hi)) line_tolerance)

-- `e.line_end or e.line_start`: zero is falsy.
unfoldable pub end_or : Option ℤ → ℤ → ℤ
end_or none start = start
end_or (some (pos zero)) start = start
end_or (some (pos (suc n))) start = pos (suc n)
end_or (some (negsuc n)) start = negsuc n

cites : (Text → ℤ → ℤ → Bool) → Evidence → Bool
unfolding end_or
cites p e = elim e.line_start [
  | none ↦ false
  | some start ↦ p e.file_path start (end_or e.line_end start)
]

-- _locates
unfoldable pub locates : Finding → Label → Bool
unfolding cites
locates f l =
    near f.file_path (pos f.line_start) (pos f.line_end) l
    || any (cites (λ path lo hi. near path lo hi l)) f.evidence

-- _covers
unfoldable pub covers : Finding → Label → Bool
unfolding cites within
covers f l =
    (text_eq f.file_path l.file_path && leb f.line_start l.line && leb l.line f.line_end)
    || any (cites (λ path lo hi. text_eq path l.file_path && within lo hi l.line)) f.evidence

-- `wanted is not None and value != wanted`, negated.
agrees : Option Text → Text → Bool
agrees none value = true
agrees (some wanted) value = text_eq value wanted

-- _traps
unfoldable pub traps : Finding → Label → Bool
unfolding agrees
traps f trap =
    covers f trap
    && agrees trap.agent (agent_name f.agent)
    && agrees trap.category (category_name f.category)

-- s.split("|")
unfoldable pub split_bars : Text → List Text
split_bars [] = [] ∷ []
split_bars (c ∷ s) =
    let rest = split_bars s in
    if c == b'|' then [] ∷ rest else elim rest [ [] ↦ (c ∷ []) ∷ [] | t ∷ ts ↦ (c ∷ t) ∷ ts ]

-- The families of the names; `none` when a name is no category.
unfoldable pub families_of : List Text → Option (List Family)
families_of [] = some []
families_of (name ∷ names) =
    let rest = families_of names in
    elim (category_of name) [
      | none ↦ none
      | some c ↦ elim rest [ none ↦ none | some fs ↦ some (family_of c ∷ fs) ]
    ]

-- `a or b` on lists.
unfoldable pub texts_or : List Text → List Text → List Text
texts_or [] ys = ys
texts_or (x ∷ xs) ys = x ∷ xs

-- finding.categories or [str(finding.category)]
unfoldable pub found_categories : Finding → List Text
unfolding texts_or
found_categories f = texts_or f.categories (category_name f.category ∷ [])

-- any(family_of(Category(c)) in families for c in found), which stops at the first hit; `none` is the
-- ValueError of a name that is no category.
unfoldable pub in_families : List Family → List Text → Option Bool
in_families families [] = some false
in_families families (name ∷ names) =
    let rest = in_families families names in
    elim (category_of name) [
      | none ↦ none
      | some c ↦ if any (same_family (family_of c)) families then some true else rest
    ]

-- families == {"docs"}
only_docs : List Family → Bool
only_docs [] = false
only_docs (x ∷ xs) =
    same_family x Family.docs && not (any (λ y. not (same_family y Family.docs)) xs)

docs_present : Finding → Bool
docs_present f = any (text_eq (codes "docs")) (agent_name f.agent ∷ f.agreeing)

-- families == {"docs"} and "api_contract" in found and "docs" in contributors
unfoldable pub is_docs_contract : List Family → Finding → Bool
unfolding only_docs docs_present
is_docs_contract families f =
    only_docs families
    && any (text_eq (codes "api_contract")) (found_categories f)
    && docs_present f

-- _same_concern; `none` is a ValueError for a category of the finding.
unfoldable pub same_concern : Finding → Label → Option Bool
same_concern f l = elim l.category [
  | none ↦ some true
  | some names ↦ elim (families_of (split_bars names)) [
    | none ↦ some true
    | some families ↦ elim (in_families families (found_categories f)) [
      | none ↦ none
      | some true ↦ some true
      | some false ↦ some (is_docs_contract families f)
    ]
  ]
]
