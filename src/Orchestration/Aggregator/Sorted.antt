-- ===== src/Orchestration/Aggregator/Sorted.antt =====
-- The order in which a review lists its findings.
use mathlib.Core.List.{Perm}
use pr_sentinel.Prelude.{
  ℕ, ◌+◌, ◌<◌, ◌≡◌, ◌⊎◌, refl, true, false, List, [], ◌∷◌, sort, text_leb, sort-perm, IsSorted,
  sort-IsSorted, text_leb_total, arith,
}
use pr_sentinel.Runtime.{Floats, Unicode}
use pr_sentinel.Domain.Enums.{AgentType, Severity, critical, major, minor, info, severity_rank}
use pr_sentinel.Domain.Models.{Finding, AgentVerdict}
use pr_sentinel.Orchestration.Clusters.{merge}
use pr_sentinel.Orchestration.Repeated.{collapse_repeated}
use pr_sentinel.Orchestration.Aggregator.{aggregate, reported, comes_first, findings_of}

comes_first_total : (a b : Finding) → comes_first a b ≡ false → comes_first b a ≡ true
unfolding comes_first
comes_first_total a b h = ground (arith, text_leb_total a.file_path b.file_path)

-- The severities from the most serious one down.
abbrev pub standing : Severity → ℕ
standing critical = 0
standing major = 1
standing minor = 2
standing info = 3

-- The more severe of two findings goes first; at the same severity the more confident one; at the same
-- confidence the one of the earlier path.
abbrev pub GoesBefore : Finding → Finding → Type 0
GoesBefore a b =
    (standing a.severity < standing b.severity)
    ⊎ ((a.severity ≡ b.severity)
        × ((b.confidence < a.confidence)
            ⊎ ((a.confidence ≡ b.confidence) × (text_leb a.file_path b.file_path ≡ true))))

-- Each finding goes before the next.
abbrev pub IsRanked : List Finding → Type 0
IsRanked [] = Unit
IsRanked (a ∷ []) = Unit
IsRanked (a ∷ b ∷ fs) = GoesBefore a b × IsRanked (b ∷ fs)

rank_place : (s : Severity) → severity_rank s + standing s ≡ 3
rank_place critical = refl
rank_place major = refl
rank_place minor = refl
rank_place info = refl

same_place : (s t : Severity) → standing s ≡ standing t → s ≡ t
same_place critical critical h = refl
same_place critical major h = absurd (omega arith)
same_place critical minor h = absurd (omega arith)
same_place critical info h = absurd (omega arith)
same_place major critical h = absurd (omega arith)
same_place major major h = refl
same_place major minor h = absurd (omega arith)
same_place major info h = absurd (omega arith)
same_place minor critical h = absurd (omega arith)
same_place minor major h = absurd (omega arith)
same_place minor minor h = refl
same_place minor info h = absurd (omega arith)
same_place info critical h = absurd (omega arith)
same_place info major h = absurd (omega arith)
same_place info minor h = absurd (omega arith)
same_place info info h = refl

comes_first-GoesBefore : (a b : Finding) → comes_first a b ≡ true → GoesBefore a b
unfolding comes_first
comes_first-GoesBefore a b h =
    ground (arith, rank_place a.severity, rank_place b.severity, same_place a.severity b.severity)

IsSorted-IsRanked : (fs : List Finding) → IsSorted comes_first fs → IsRanked fs
IsSorted-IsRanked [] h = tt
IsSorted-IsRanked (a ∷ []) h = tt
IsSorted-IsRanked (a ∷ b ∷ fs) h = (comes_first-GoesBefore a b h.0, IsSorted-IsRanked (b ∷ fs) h.1)

-- The findings of a review are those that the two merging steps leave, each as often, and they are
-- listed from the most severe down: each goes before the next by severity, at the same severity by
-- higher confidence, and at the same confidence by path.
pub aggregate-IsRanked :
    (F : Floats) (U : Unicode) (order : List AgentType → List AgentType) (threshold : ℕ)
    (verdicts : List AgentVerdict)
    → Perm (aggregate F U order threshold verdicts).findings (
        findings_of
          (collapse_repeated threshold (findings_of (merge F U order (reported verdicts)))))
      × IsRanked (aggregate F U order threshold verdicts).findings
unfolding aggregate
aggregate-IsRanked F U order threshold verdicts =
    let kept =
      findings_of
        (collapse_repeated threshold (findings_of (merge F U order (reported verdicts)))) in
    (
      sort-perm comes_first kept,
      IsSorted-IsRanked (sort comes_first kept) (sort-IsSorted comes_first comes_first_total kept),
    )
