-- ===== src/Orchestration/Titles.antt =====
-- src/pr_sentinel/orchestration/aggregator.py: when two findings describe one defect.
use pr_sentinel.Prelude.{
  ◌+◌, ◌-◌, Bool, true, false, not, ◌&&◌, ◌||◌, List, [], ◌∷◌, ◌++◌, Text, codes, text_eq, any,
  filter_by, length, ltb, leb, unique, if◌then◌else◌, reverse,
}
use pr_sentinel.Runtime.{Float, Floats, Unicode}
use pr_sentinel.Domain.Enums.{other, same_category, same_family, family_of}
use pr_sentinel.Domain.Models.{Finding, overlaps}

-- "".join(c.lower() if c.isalnum() else " " for c in text)
normalise : Unicode → Text → Text
normalise U [] = []
normalise U (c ∷ s) = (if U.is_alnum c then U.lower c else b' ' ∷ []) ++ normalise U s

flush_word : Text → List Text
flush_word [] = []
flush_word (c ∷ w) = reverse (c ∷ w) ∷ []

-- text.split(): the words between stretches of white space.
split_words : Unicode → Text → Text → List Text
unfolding flush_word
split_words U word [] = flush_word word
split_words U word (c ∷ s) = elim (U.is_space c) [
  | true ↦ flush_word word ++ split_words U [] s
  | false ↦ split_words U (c ∷ word) s
]

-- _words: the set as a list without repeats.
unfoldable pub words : Unicode → Text → List Text
unfolding normalise split_words unique text_eq
words U text =
    unique text_eq (filter_by (λ w. ltb 2 (length w)) (split_words U [] (normalise U text)))

abbrev pub stop_words : List Text
stop_words =
    codes "the"
    ∷ codes "a"
    ∷ codes "an"
    ∷ codes "is"
    ∷ codes "in"
    ∷ codes "of"
    ∷ codes "to"
    ∷ codes "on"
    ∷ codes "and"
    ∷ codes "for"
    ∷ codes "this"
    ∷ codes "that"
    ∷ codes "with"
    ∷ []

content_words : Unicode → Text → List Text
unfolding words
content_words U text = filter_by (λ w. not (any (text_eq w) stop_words)) (words U text)

-- len(ta & tb) / len(ta | tb)
jaccard : Floats → List Text → List Text → Float
jaccard F ta tb =
    let common = length (filter_by (λ w. any (text_eq w) tb) ta) in
    if leb (length ta) 0 || leb (length tb) 0
    then 0
    else F.ratio common (length ta + length tb - common)

unfoldable pub title_similarity : Floats → Unicode → Text → Text → Float
unfolding jaccard content_words
title_similarity F U a b = jaccard F (content_words U a) (content_words U b)

-- _same_issue
unfoldable pub same_issue : Floats → Unicode → Finding → Finding → Bool
same_issue F U a b =
    if overlaps a b
    then if same_category a.category b.category
      then true
      else if not (same_category a.category other)
          && not (same_category b.category other)
          && same_family (family_of a.category) (family_of b.category)
      then true
      else leb F.c45 (title_similarity F U a.title b.title)
    else false
