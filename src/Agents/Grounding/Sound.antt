-- ===== src/Agents/Grounding/Sound.antt =====
-- What a finding that the filter lets through satisfies.
use pr_sentinel.Prelude.{
  ℕ, ℤ, ◌≤◌, ◌≡◌, inl, inr, refl, sym, subst, Bool, Option, none, some, List, [], ◌∷◌, In,
  In-of_filter_by, arith, Bool-cases, codes, find_first, text_eq, Text,
}
use pr_sentinel.Runtime.{Floats, Unicode}
use pr_sentinel.Runtime.Json.{
  Read, got, refused, crashed, FloatValue, below_zero, finite, infinite, not_a_number, Json,
}
use pr_sentinel.Domain.Enums.{AgentType}
use pr_sentinel.Domain.Models.{
  DiffFile, PullRequestContext, Evidence, Finding, addressable_lines, file_at, make_finding,
}
use pr_sentinel.Agents.Grounding.{
  Ground, dropped, raises, grounded, on_option, on_read, locate, only, or_only, draft, ground_lines,
  ground_raw, place_lines, largest, clamp_confidence, read_numbers, evidence_of,
}
use pr_sentinel.Agents.Grounding.Lines.{IsPlaced, place_lines-IsPlaced, In-largest}

-- The finding is about lines of a file of the pull request that a comment can be attached to.
pub record IsGrounded (F : Floats) (agent : AgentType) (pr : PullRequestContext) (f : Finding)
    : Type 0 where
  pub file : DiffFile
  pub in_change : In file pr.files
  pub path : f.file_path ≡ file.path
  pub start : In f.line_start (addressable_lines file)
  pub ordered : f.line_start ≤ f.line_end
  pub last : ℕ
  pub last_line : In last (addressable_lines file)
  pub ends : f.line_end ≤ last
  pub sure : f.confidence ≤ F.one
  pub own : f.agent ≡ agent

on_option-all :
    {A : Type 0} (Q : Ground → Type 0) (o : Option A) (rest : A → Ground)
    → Q dropped
    → ((a : A) → o ≡ some a → Q (rest a))
    → Q (on_option o rest)
on_option-all Q none rest d h = d
on_option-all Q (some a) rest d h = h a refl

on_read-all :
    {A : Type 0} (Q : Ground → Type 0) (r : Read A) (rest : A → Ground)
    → Q dropped
    → Q raises
    → ((a : A) → r ≡ got a → Q (rest a))
    → Q (on_read r rest)
on_read-all Q (got a) rest d c h = h a refl
on_read-all Q refused rest d c h = d
on_read-all Q crashed rest d c h = c

find_first-In :
    (p : DiffFile → Bool) (fs : List DiffFile) (f : DiffFile) → find_first p fs ≡ some f → In f fs
find_first-In p [] f h = absurd (ground (arith, h))
find_first-In p (g ∷ fs) f h = elim (Bool-cases (p g)) [
  | inl t ↦ inl (ground (arith, h, t))
  | inr t ↦ inr (find_first-In p fs f (rw t at h))
]

only-In : (fs : List DiffFile) (f : DiffFile) → only fs ≡ some f → In f fs
unfolding only
only-In [] f h = absurd (ground (arith, h))
only-In (g ∷ []) f h = inl (ground (arith, h))
only-In (g ∷ k ∷ fs) f h = absurd (ground (arith, h))

or_only-In :
    (o : Option DiffFile) (fs gs : List DiffFile) (f : DiffFile)
    → ((g : DiffFile) → o ≡ some g → In g gs)
    → ((g : DiffFile) → In g fs → In g gs)
    → or_only o fs ≡ some f
    → In f gs
unfolding or_only
or_only-In none fs gs f here later h = later f (only-In fs f h)
or_only-In (some g) fs gs f here later h = here f h

locate-In :
    (pr : PullRequestContext) (path : Text) (f : DiffFile) → locate pr path ≡ some f → In f pr.files
unfolding locate
locate-In pr path f h =
    or_only-In (file_at pr path) _ pr.files f
      (λ g e. find_first-In (λ k. text_eq k.path path) pr.files g (unfold file_at in e))
      (λ g m. (In-of_filter_by _ pr.files g m).0) h

clamp_confidence_le : (F : Floats) (c : FloatValue) → clamp_confidence F c ≤ F.one
unfolding clamp_confidence
clamp_confidence_le F below_zero = omega arith
clamp_confidence_le F (finite c) = omega arith
clamp_confidence_le F infinite = omega arith
clamp_confidence_le F not_a_number = omega arith

made :
    (F : Floats) (U : Unicode) (d g : Finding)
    → d.line_start ≤ d.line_end
    → make_finding F U d ≡ some g
    → (g.file_path ≡ d.file_path)
      × (g.line_start ≡ d.line_start)
      × (g.line_end ≡ d.line_end)
      × (g.confidence ≡ d.confidence)
      × (g.agent ≡ d.agent)
unfolding make_finding
made F U d g le h = ground arith

module _ {J : Type 0} (P : Json J) (F : Floats) (U : Unicode) (walk : ℕ → List ℕ → ℕ × List ℕ)
    (walked : (l n : ℕ) (ls : List ℕ) → In n ((walk l ls).0 ∷ (walk l ls).1) → In n (l ∷ ls))
    (agent : AgentType) (pr : PullRequestContext) where
  abbrev pub AllGrounded : Ground → Type 0
  AllGrounded dropped = Unit
  AllGrounded raises = Unit
  AllGrounded (grounded f snapped) = IsGrounded F agent pr f

  draft-IsGrounded :
      (id : ℕ) (raw : J) (file : DiffFile) (a : ℤ) (l : ℕ) (ls : List ℕ) (start end : ℕ)
      (snapped : Bool) (confidence : FloatValue) (evidence : List Evidence) (g : Finding)
      → In file pr.files
      → addressable_lines file ≡ l ∷ ls
      → IsPlaced (l ∷ ls) (largest l ls) a start end snapped
      → make_finding F U (draft P F U walk agent id raw file (start, end) confidence evidence)
        ≡ some g
      → IsGrounded F agent pr g
  unfolding draft
  draft-IsGrounded id raw file a l ls start end snapped confidence evidence g m lines at h =
      let (path, first, last, sure, own) = made F U _ g at.ordered h in
      record {
        file = file;
        in_change = m;
        path = path;
        start =
            subst (In g.line_start) (sym lines) (subst (λ n. In n (l ∷ ls)) (sym first) at.listed);
        ordered = omega (arith, first, last, at.ordered);
        last = largest l ls;
        last_line = subst (In (largest l ls)) (sym lines) (In-largest l ls);
        ends = omega (arith, last, at.within);
        sure = omega (arith, sure, clamp_confidence_le F confidence);
        own = own;
      }

  ground_lines-AllGrounded :
      (id : ℕ) (raw : J) (file : DiffFile) (lines : List ℕ)
      → In file pr.files
      → addressable_lines file ≡ lines
      → AllGrounded (ground_lines P F U walk agent id raw file lines)
  unfolding ground_lines
  ground_lines-AllGrounded id raw file [] m e = tt
  ground_lines-AllGrounded id raw file (l ∷ ls) m e =
      on_read-all AllGrounded (read_numbers P raw) _ tt tt (λ (a, b, confidence) _.
        on_option-all AllGrounded (place_lines walk a b l ls) _ tt (λ (start, end, snapped) at.
          on_read-all AllGrounded (evidence_of P (P.get raw (codes "evidence")) file.path) _ tt tt
            (λ evidence _. on_option-all AllGrounded (make_finding F U _) _ tt (λ g h.
              draft-IsGrounded id raw file a l ls start end snapped confidence evidence g m e
                (place_lines-IsPlaced walk walked a b l ls start end snapped at) h))))

  pub ground_raw-AllGrounded :
      (id : ℕ) (raw : J) → AllGrounded (ground_raw P F U walk agent id raw pr)
  unfolding ground_raw
  ground_raw-AllGrounded id raw = on_option-all AllGrounded (locate pr _) _ tt (λ file at.
      ground_lines-AllGrounded id raw file (addressable_lines file) (locate-In pr _ file at) refl)
