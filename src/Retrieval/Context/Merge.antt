-- ===== src/Retrieval/Context/Merge.antt =====
-- The merge of the hits, and the room for what is rendered.
use mathlib.Core.List.Perm
use mathlib.Core.List.{Perm, perm_append_comm}
use pr_sentinel.Prelude.{
  ℕ, zero, suc, ◌+◌, ◌≤◌, ◌≡◌, refl, List, [], ◌∷◌, ◌++◌, append_assoc, concat, length, ltb,
  sort-perm, Text, Bool-cases, arith, inl, inr,
}
use pr_sentinel.Domain.Models.{CodeChunk}
use pr_sentinel.Retrieval.Context.{blocks_from, heads, tails, longest, by_score, rounds, interleave}

heads_tails-perm :
    (xss : List (List CodeChunk)) → Perm (heads xss ++ concat (tails xss)) (concat xss)
unfolding heads tails
heads_tails-perm [] = Perm.rfl
heads_tails-perm ([] ∷ xss) = heads_tails-perm xss
heads_tails-perm ((x ∷ xs) ∷ xss) = Perm.cons x (
    rw (← append_assoc (heads xss) xs (concat (tails xss))) (
      Perm.trans (Perm.append_right (concat (tails xss)) (perm_append_comm (heads xss) xs)) (
        rw (append_assoc xs (heads xss) (concat (tails xss)))
          (Perm.append_left xs (heads_tails-perm xss)))))

longest-tails :
    (n : ℕ) (xss : List (List CodeChunk)) → longest xss ≤ suc n → longest (tails xss) ≤ n
unfolding longest tails
longest-tails n [] h = omega arith
longest-tails n ([] ∷ xss) h = longest-tails n xss (omega (arith, h))
longest-tails n ((x ∷ xs) ∷ xss) h = omega (arith, h, longest-tails n xss (omega (arith, h)))

all_empty : (xss : List (List CodeChunk)) → longest xss ≤ 0 → concat xss ≡ []
unfolding longest
all_empty [] h = refl
all_empty ([] ∷ xss) h = all_empty xss (omega (arith, h))
all_empty ((x ∷ xs) ∷ xss) h = absurd (omega (arith, h))

rounds-perm :
    (n : ℕ) (xss : List (List CodeChunk)) → longest xss ≤ n → Perm (rounds n xss) (concat xss)
unfolding rounds
rounds-perm zero xss h = rw (all_empty xss h) Perm.rfl
rounds-perm (suc n) xss h =
    Perm.trans
      (Perm.append (sort-perm by_score (heads xss))
        (rounds-perm n (tails xss) (longest-tails n xss h)))
      (heads_tails-perm xss)

-- The round-robin over the files loses no hit and repeats none: its rounds are enough, and its result
-- is a rearrangement of the hits that were kept for the files.
pub interleave-perm : (xss : List (List CodeChunk)) → Perm (interleave xss) (concat xss)
unfolding interleave
interleave-perm xss = rounds-perm (longest xss) xss (omega arith)

abbrev total_length : List Text → ℕ
total_length [] = 0
total_length (t ∷ ts) = length t + total_length ts

-- The blocks that are rendered have room for their characters; the separators and the note are not
-- counted.
pub blocks_from-fit :
    (max_chars used : ℕ) (blocks : List Text)
    → used ≤ max_chars
    → used + total_length (blocks_from max_chars used blocks) ≤ max_chars
unfolding blocks_from
blocks_from-fit max_chars used [] h = omega (arith, h)
blocks_from-fit max_chars used (block ∷ blocks) h =
    elim (Bool-cases (ltb max_chars (used + length block))) [
      | inl t ↦ rw t (omega (arith, h))
      | inr f ↦ rw f (
          omega (arith, blocks_from-fit max_chars (used + length block) blocks (ground (arith, f))))
    ]
