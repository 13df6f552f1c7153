-- ===== src/Evaluation/Calibration/Bins.antt =====
-- The bins of the calibration share out the findings that have been judged.
use pr_sentinel.Prelude.{ℕ, ◌+◌, ◌≤◌, ◌<◌, ◌≡◌, List, [], ◌∷◌, filter_by, length}
use pr_sentinel.Runtime.{Float, Floats}
use pr_sentinel.Evaluation.Matching.{Match}
use pr_sentinel.Evaluation.Calibration.{CalibrationBin, is_member}

-- What the theorem needs of the quotients that stand for the edges: rounding keeps their order, and
-- 1.01 is above one.
pub record HasOrderedRatios (F : Floats) : Type 0 where
  pub ratio_mono : (a b : ℕ) → a ≤ b → F.ratio a 100 ≤ F.ratio b 100
  pub ratio_zero : F.ratio 0 100 ≡ 0
  pub above_one : F.one < F.ratio 101 100

-- A finding's confidence is at most one.
abbrev pub IsConfident : Floats → Match → Type 0
IsConfident F m = m.finding.confidence ≤ F.one

abbrev pub sum_counts : List CalibrationBin → ℕ
sum_counts [] = 0
sum_counts (b ∷ bs) = b.count + sum_counts bs

-- How many of the matches have a confidence from `lo` on and below `hi`.
abbrev between : Float → Float → List Match → ℕ
between lo hi ms = length (filter_by (is_member (lo, hi)) ms)

abbrev counts_in : List Match → List (Float × Float) → ℕ
counts_in ms [] = 0
counts_in ms (bounds ∷ bins) = length (filter_by (is_member bounds) ms) + counts_in ms bins
