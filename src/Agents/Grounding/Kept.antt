-- ===== src/Agents/Grounding/Kept.antt =====
-- What the filter must not drop.
use pr_sentinel.Prelude.{
  ℕ, ℤ, distance, ◌≤◌, ◌≡◌, inl, inr, refl, sym, subst, Bool, Option, none, some, List, [], ◌∷◌, In,
  arith, Option-cases, codes,
}
use pr_sentinel.Runtime.{Floats, Unicode}
use pr_sentinel.Runtime.Json.{Read, got, FloatValue, Json}
use pr_sentinel.Domain.Enums.{AgentType}
use pr_sentinel.Domain.Models.{
  DiffFile, PullRequestContext, Evidence, Finding, addressable_lines, make_finding,
}
use pr_sentinel.Agents.Grounding.{
  Ground, grounded, on_option, on_read, locate, path_of, draft, ground_lines, ground_raw,
  place_lines, read_numbers, evidence_of,
}
use pr_sentinel.Agents.Grounding.Lines.{place_lines-some}

-- The validators do not look at the lines.
lines_free :
    (F : Floats) (U : Unicode) (d g : Finding) (start end : ℕ)
    → make_finding F U d ≡ some g
    → (h : Finding) × (make_finding F U (record d { line_start = start; line_end = end }) ≡ some h)
lines_free F U d g start end ok =
    elim (Option-cases (make_finding F U (record d { line_start = start; line_end = end }))) [
      | inr (h, e) ↦ (h, e)
      | inl e ↦ absurd (clash ok e)
    ]
  where
    clash :
        make_finding F U d ≡ some g
        → make_finding F U (record d { line_start = start; line_end = end }) ≡ none
        → ⊥
    clash o e = unfold make_finding in ground (arith, o, e)

abbrev Keeps : Ground → Type 0
Keeps r = (f : Finding) × (snapped : Bool) × (r ≡ grounded f snapped)

through_read :
    {A : Type 0} (r : Read A) (a : A) (rest : A → Ground)
    → r ≡ got a
    → Keeps (rest a)
    → Keeps (on_read r rest)
through_read r a rest e k = subst (λ x. Keeps (on_read x rest)) (sym e) k

through_option :
    {A : Type 0} (o : Option A) (a : A) (rest : A → Ground)
    → o ≡ some a
    → Keeps (rest a)
    → Keeps (on_option o rest)
through_option o a rest e k = subst (λ x. Keeps (on_option x rest)) (sym e) k

module _ {J : Type 0} (P : Json J) (F : Floats) (U : Unicode) (walk : ℕ → List ℕ → ℕ × List ℕ)
    (walked : (l n : ℕ) (ls : List ℕ) → In n ((walk l ls).0 ∷ (walk l ls).1) → In n (l ∷ ls))
    (walk_all : (l n : ℕ) (ls : List ℕ) → In n (l ∷ ls) → In n ((walk l ls).0 ∷ (walk l ls).1))
    (agent : AgentType) (pr : PullRequestContext) (id : ℕ) (raw : J) (file : DiffFile) (a b : ℤ)
    (confidence : FloatValue) (evidence : List Evidence) where
  ground_lines-Keeps :
      (lines : List ℕ) (n : ℕ) (g : Finding)
      → In n lines
      → distance n a ≤ 3
      → read_numbers P raw ≡ got (a, b, confidence)
      → evidence_of P (P.get raw (codes "evidence")) file.path ≡ got evidence
      → make_finding F U (draft P F U walk agent id raw file (0, 0) confidence evidence) ≡ some g
      → Keeps (ground_lines P F U walk agent id raw file lines)
  unfolding ground_lines draft
  ground_lines-Keeps [] n g i near numbers ev ok = absurd i
  ground_lines-Keeps (l ∷ ls) n g i near numbers ev ok =
      let ((start, end, snapped), at) =
        place_lines-some walk walked a b l ls (λ m. walk_all l m ls) n i near in
      let (f, ok') = lines_free F U _ g start end ok in
      through_read (read_numbers P raw) (a, b, confidence) _ numbers
        (through_option (place_lines walk a b l ls) (start, end, snapped) _ at
          (through_read (evidence_of P (P.get raw (codes "evidence")) file.path) evidence _ ev
            (through_option (make_finding F U _) f _ ok' (f, snapped, refl))))

  -- A report is kept if its path means a file of the change, its line is within three of a line that a
  -- comment can be attached to, its numbers and its evidence can be read, and the validators take its
  -- title and rationale. The order in which a set is walked must neither add nor lose lines.
  pub ground_raw_keeps :
      (n : ℕ) (g : Finding)
      → locate pr (path_of P raw) ≡ some file
      → In n (addressable_lines file)
      → distance n a ≤ 3
      → read_numbers P raw ≡ got (a, b, confidence)
      → evidence_of P (P.get raw (codes "evidence")) file.path ≡ got evidence
      → make_finding F U (draft P F U walk agent id raw file (0, 0) confidence evidence) ≡ some g
      → (f : Finding) × (snapped : Bool) × (ground_raw P F U walk agent id raw pr
          ≡ grounded f snapped)
  unfolding ground_raw
  ground_raw_keeps n g found i near numbers ev ok =
      through_option (locate pr (path_of P raw)) file _ found
        (ground_lines-Keeps (addressable_lines file) n g i near numbers ev ok)
