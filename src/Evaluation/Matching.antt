-- ===== src/Evaluation/Matching.antt =====
-- classify and missed of src/pr_sentinel/evaluation/matching.py.
pub mod About
pub mod Outcomes
use pr_sentinel.Prelude.{
  Bool, true, false, not, ◌&&◌, ◌==◌, Option, none, some, List, [], ◌∷◌, Text, text_eq, filter_by,
  find_first, any, leb, if◌then◌else◌,
}
use pr_sentinel.Domain.Enums.{agent_name, category_name, severity_rank}
use pr_sentinel.Domain.Models.{Finding}
use pr_sentinel.Evaluation.Labels.{
  Label, locates, same_concern, traps, texts_or, found_categories, split_bars,
}

pub data Kind : Type 0 where
  hit false_positive unlabelled allowed : Kind

pub record Match : Type 0 where
  pub finding : Finding
  pub label : Option Label
  pub kind : Kind
  pub labels : List Label
  pub agent_correct : Bool
  pub category_correct : Bool
  pub severity_sufficient : Bool

-- _locates(finding, x) and _same_concern(finding, x)
unfoldable pub is_about : Finding → Label → Option Bool
is_about f x = if locates f x then same_concern f x else some false

-- [x for x in labels if …]
unfoldable pub all_about : Finding → List Label → Option (List Label)
all_about f [] = some []
all_about f (x ∷ xs) =
    let rest = all_about f xs in
    elim (is_about f x) [
      | none ↦ none
      | some b ↦ elim rest [ none ↦ none | some ys ↦ some (if b then x ∷ ys else ys) ]
    ]

-- next((x for x in labels if …), None), which stops at the first one.
unfoldable pub first_about : Finding → List Label → Option (Option Label)
first_about f [] = some none
first_about f (x ∷ xs) =
    let rest = first_about f xs in
    elim (is_about f x) [ none ↦ none | some b ↦ if b then some (some x) else rest ]

-- (agent, category) in set(permitted_concerns)
unfoldable pub is_permitted : List (Text × Text) → Finding → Bool
is_permitted concerns f =
    any (λ c. text_eq c.0 (agent_name f.agent) && text_eq c.1 (category_name f.category)) concerns

is_agent_correct : Finding → Label → Bool
unfolding texts_or
is_agent_correct f primary = elim primary.agent [
  | none ↦ true
  | some a ↦ any (text_eq a) (texts_or f.agreeing (agent_name f.agent ∷ []))
]

is_category_correct : Finding → Label → Bool
is_category_correct f primary = elim primary.category [
  | none ↦ true
  | some names ↦ any (λ c. any (text_eq c) (split_bars names)) (found_categories f)
]

unfoldable pub hit_match : Finding → Label → List Label → Match
unfolding is_agent_correct is_category_correct
hit_match f primary more = record {
  finding = f;
  label = some primary;
  kind = hit;
  labels = primary ∷ more;
  agent_correct = is_agent_correct f primary;
  category_correct = is_category_correct f primary;
  severity_sufficient = leb (severity_rank primary.min_severity) (severity_rank f.severity);
}

unfoldable pub other_match : Finding → Kind → Option Label → Match
other_match f kind label = record {
  finding = f;
  label = label;
  kind = kind;
  labels = elim label [ none ↦ [] | some l ↦ l ∷ [] ];
  agent_correct = false;
  category_correct = false;
  severity_sufficient = false;
}

-- The trap that fires, unless the finding reaches a defect.
unfoldable pub sprung : Finding → List Label → List Label → Option Label
sprung f expected forbidden =
    if any (locates f) expected then none else find_first (traps f) forbidden

-- Behind the traps: an allowed label, a permitted concern, or nothing.
unfoldable pub optional_match : List (Text × Text) → Finding → Option Label → Match
optional_match concerns f (some l) = other_match f allowed (some l)
optional_match concerns f none =
    other_match f (if is_permitted concerns f then allowed else unlabelled) none

unfoldable pub judge_rest :
    List Label → List Label → List Label → List (Text × Text) → Finding → Option Match
judge_rest expected forbidden may concerns f =
    let permitted = first_about f may in
    elim (sprung f expected forbidden) [
      | some trap ↦ some (other_match f false_positive (some trap))
      | none ↦ elim permitted [ none ↦ none | some l ↦ some (optional_match concerns f l) ]
    ]

-- One round of the loop of classify.
unfoldable pub judge :
    List Label → List Label → List Label → List (Text × Text) → Finding → Option Match
judge expected forbidden may concerns f =
    let rest = judge_rest expected forbidden may concerns f in
    elim (all_about f expected) [
      | none ↦ none
      | some [] ↦ rest
      | some (x ∷ xs) ↦ some (hit_match f x xs)
    ]

-- `none` is a ValueError for a finding whose categories hold a name that is no category.
unfoldable pub classify :
    List Finding → List Label → List Label → List Label → List (Text × Text) → Option (List Match)
classify [] expected forbidden may concerns = some []
classify (f ∷ fs) expected forbidden may concerns =
    let rest = classify fs expected forbidden may concerns in
    elim (judge expected forbidden may concerns f) [
      | none ↦ none
      | some m ↦ elim rest [ none ↦ none | some ms ↦ some (m ∷ ms) ]
    ]

abbrev pub is_hit : Kind → Bool
is_hit hit = true
is_hit _ = false

-- id(label) in found
unfoldable pub was_found : List Match → Label → Bool
was_found ms l = any (λ m. is_hit m.kind && any (λ x. x.ref == l.ref) m.labels) ms

unfoldable pub missed : List Label → List Match → List Label
missed expected ms = filter_by (λ l. not (was_found ms l)) expected
