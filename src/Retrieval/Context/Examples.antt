-- ===== src/Retrieval/Context/Examples.antt =====
-- The merge of the hits of two files.
use mathlib.Core.List.{Perm}
use pr_sentinel.Prelude.{ℕ, ◌≡◌, refl, none, List, [], ◌∷◌, codes, concat, map, sort}
use pr_sentinel.Domain.Models.{CodeChunk}
use pr_sentinel.Retrieval.Context.{by_score, heads, longest, rounds, tails, interleave}
use pr_sentinel.Retrieval.Context.Merge.{interleave-perm}

abbrev found : ℕ → ℕ → CodeChunk
found line score = record {
  file_path = codes "a.py";
  start_line = line;
  end_line = line;
  content = [];
  symbol = none;
  language = none;
  score = score;
}

abbrev hits : List (List CodeChunk)
hits = (found 1 90 ∷ found 2 80 ∷ []) ∷ (found 3 95 ∷ []) ∷ []

test_interleave : map (λ c. c.start_line) (interleave hits) ≡ 3 ∷ 1 ∷ 2 ∷ []
unfolding interleave rounds longest sort heads by_score tails
test_interleave = refl

interleave-perm_example : Perm (interleave hits) (concat hits)
interleave-perm_example = interleave-perm hits
