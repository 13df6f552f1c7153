-- ===== src/Domain/Models/Lines.antt =====
-- Line ranges of findings: `overlaps` and what a constructed finding satisfies.
use pr_sentinel.Prelude.{
  ℕ, ◌≤◌, ◌≡◌, ◌↔◌, true, some, arith, text_eq_iff, leb, Bool-cases, inl, inr,
}
use pr_sentinel.Runtime.{Floats, Unicode}
use pr_sentinel.Domain.Models.{Finding, overlaps, make_finding}

-- The range of a finding is not empty.
pub record IsRange (f : Finding) : Type 0 where
  pub ordered : f.line_start ≤ f.line_end

abbrev pub SharesLine : Finding → Finding → Type 0
SharesLine a b =
    (n : ℕ) × (a.file_path ≡ b.file_path)
    × (a.line_start ≤ n)
    × (n ≤ a.line_end)
    × (b.line_start ≤ n)
    × (n ≤ b.line_end)

pub overlaps→SharesLine :
    (a b : Finding) → IsRange a → IsRange b → overlaps a b ≡ true → SharesLine a b
unfolding overlaps
overlaps→SharesLine a b ra rb h = elim (Bool-cases (leb a.line_start b.line_start)) [
  | inl le ↦ (
    b.line_start,
    ground (arith, text_eq_iff a.file_path b.file_path),
    ground arith,
    ground arith,
    ground arith,
    ground arith,
  )
  | inr gt ↦ (
    a.line_start,
    ground (arith, text_eq_iff a.file_path b.file_path),
    ground arith,
    ground arith,
    ground arith,
    ground arith,
  )
]

pub SharesLine→overlaps : (a b : Finding) → SharesLine a b → overlaps a b ≡ true
unfolding overlaps
SharesLine→overlaps a b s = ground (arith, text_eq_iff a.file_path b.file_path)

-- For two findings whose ranges are not empty, `overlaps` holds exactly when some line of one file
-- lies in both ranges.
pub overlaps-iff-SharesLine :
    (a b : Finding) → IsRange a → IsRange b → (overlaps a b ≡ true) ↔ SharesLine a b
overlaps-iff-SharesLine a b ra rb = (overlaps→SharesLine a b ra rb, SharesLine→overlaps a b)

-- A finding that pydantic accepts has a range that is not empty and a confidence of at most 1.0,
-- whatever the caller wrote.
pub make_finding_valid :
    (F : Floats) (U : Unicode) (f g : Finding)
    → make_finding F U f ≡ some g
    → IsRange g × (g.confidence ≤ F.one)
unfolding make_finding
make_finding_valid F U f g h = ground arith
