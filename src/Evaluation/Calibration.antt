-- ===== src/Evaluation/Calibration.antt =====
-- src/pr_sentinel/evaluation/metrics.py: the calibration, its error, and the report that score and
-- score_case make. What as_dict prints is left out.
pub mod Bins
pub mod Recall
use pr_sentinel.Prelude.{
  ℕ, zero, ◌+◌, ◌-◌, suc, Bool, true, false, not, ◌&&◌, ◌||◌, Option, none, some, List, [], ◌∷◌,
  ◌++◌, map, Text, codes, filter_by, length, any, leb, ltb, if◌then◌else◌, sort, text_leb,
}
use pr_sentinel.Runtime.{Float, Floats}
use pr_sentinel.Domain.Models.{Finding, DiffFile, CodeChunk}
use pr_sentinel.Evaluation.Labels.{Label}
use pr_sentinel.Evaluation.Matching.{
  Kind, hit, false_positive, unlabelled, allowed, Match, is_hit, classify, missed,
}
use pr_sentinel.Evaluation.Metrics.{
  Bucket, Buckets, empty_bucket, Tally, CaseResult, decision_correct, ratio_or_zero, count_results,
}

-- CONFIDENCE_BINS: a literal such as 0.6 is the float nearest to 6/10.
abbrev pub confidence_bins : Floats → List (Float × Float)
confidence_bins F =
    (F.ratio 0 100, F.ratio 50 100)
    ∷ (F.ratio 50 100, F.ratio 60 100)
    ∷ (F.ratio 60 100, F.ratio 70 100)
    ∷ (F.ratio 70 100, F.ratio 80 100)
    ∷ (F.ratio 80 100, F.ratio 90 100)
    ∷ (F.ratio 90 100, F.ratio 101 100)
    ∷ []

pub record CalibrationBin : Type 0 where
  pub low : Float
  pub high : Float
  pub count : ℕ
  pub mean_confidence : Float
  pub hit_rate : Float

is_scored : Kind → Bool
is_scored hit = true
is_scored false_positive = true
is_scored _ = false

-- _scoreable
unfoldable pub scoreable : List Match → List Match
unfolding is_scored
scoreable ms = filter_by (λ m. is_scored m.kind) ms

-- lo <= m.finding.confidence < hi
unfoldable pub is_member : Float × Float → Match → Bool
is_member (lo, hi) m = leb lo m.finding.confidence && ltb m.finding.confidence hi

unfoldable pub fill_bin : Floats → Float × Float → List Match → CalibrationBin
fill_bin F bounds [] = record {
  low = bounds.0;
  high = bounds.1;
  count = 0;
  mean_confidence = 0;
  hit_rate = 0;
}
fill_bin F bounds (m ∷ ms) = record {
  low = bounds.0;
  high = bounds.1;
  count = length (m ∷ ms);
  mean_confidence =
      F.div (F.sum (map (λ x. x.finding.confidence) (m ∷ ms))) (F.ratio (length (m ∷ ms)) 1);
  hit_rate = F.ratio (length (filter_by (λ x. is_hit x.kind) (m ∷ ms))) (length (m ∷ ms));
}

-- _calibration
unfoldable pub calibration : Floats → List Match → List CalibrationBin
unfolding fill_bin is_member
calibration F ms =
    map (λ bounds. fill_bin F bounds (filter_by (is_member bounds) (scoreable ms)))
      (confidence_bins F)

-- abs(a - b)
abs_difference : Floats → Float → Float → Float
abs_difference F a b = if leb b a then F.sub a b else F.sub b a

-- The loop of _ece, with the error so far.
unfoldable pub add_errors : Floats → ℕ → List CalibrationBin → Float → Float
unfolding abs_difference
add_errors F total [] error = error
add_errors F total (b ∷ bs) error = add_errors F total bs (
    if ltb 0 b.count
    then F.add error (F.mul (F.ratio b.count total) (abs_difference F b.hit_rate b.mean_confidence))
    else error)

-- _ece
pub ece : Floats → List Match → Float
unfolding add_errors
ece F ms =
    let total = length (scoreable ms) in
    if ltb 0 total then add_errors F total (calibration F ms) 0 else 0

-- EvalCase of src/pr_sentinel/evaluation/fixtures.py.
pub record EvalCase : Type 0 where
  pub id : Text
  pub title : Text
  pub summary : Text
  pub expected_decision : Option Text
  pub files : List DiffFile
  pub context_chunks : List CodeChunk
  pub expected : List Label
  pub body : Text
  pub provenance : Option Text
  pub must_not_find : List Label
  pub may_find : List Label
  pub permitted_concerns : List (Text × Text)

-- The CaseResult of score_case, whose keywords come last.
unfoldable pub case_result :
    EvalCase → List Match → Text → Float → Float → ℕ → List Text → Option Text → CaseResult
case_result c ms decision confidence cost_usd duration_ms failed_agents error = record {
  case_id = c.id;
  matches = ms;
  missed = missed c.expected ms;
  decision = decision;
  expected_decision = c.expected_decision;
  confidence = confidence;
  cost_usd = cost_usd;
  duration_ms = duration_ms;
  failed_agents = failed_agents;
  error = error;
}

unfoldable pub score_case :
    EvalCase → List Finding → Text → Float → Float → ℕ → List Text → Option Text → Option CaseResult
score_case c findings decision confidence cost_usd duration_ms failed_agents error =
    elim (classify findings c.expected c.must_not_find c.may_find c.permitted_concerns) [
      | none ↦ none
      | some ms ↦
          some (case_result c ms decision confidence cost_usd duration_ms failed_agents error)
    ]

pub record EvalReport : Type 0 where
  pub overall : Bucket
  pub by_agent : Buckets
  pub calibration_bins : List CalibrationBin
  pub calibration_error : Float
  pub category_agreement : Float
  pub agent_attribution : Float
  pub decision_accuracy : Option Float
  pub total_cost_usd : Float
  pub cost_per_case_usd : Float
  pub cases : List CaseResult
  pub provider : Text
  pub models : List (Text × Text)

-- [m for r in results for m in r.matches]
unfoldable pub all_matches : List CaseResult → List Match
all_matches [] = []
all_matches (r ∷ rs) = r.matches ++ all_matches rs

-- The answers of decision_correct that are not None.
decided : List CaseResult → List Bool
decided [] = []
decided (r ∷ rs) =
    let rest = decided rs in elim (decision_correct r) [ none ↦ rest | some b ↦ b ∷ rest ]

accuracy : Floats → List Bool → Option Float
accuracy F [] = none
accuracy F (b ∷ bs) = some (F.ratio (length (filter_by (λ x. x) (b ∷ bs))) (length (b ∷ bs)))

cost_per_case : Floats → Float → ℕ → Float
cost_per_case F total zero = 0
cost_per_case F total (suc n) = F.div total (F.ratio (suc n) 1)

unfoldable pub score : Floats → List CaseResult → Text → List (Text × Text) → EvalReport
unfolding decided accuracy cost_per_case ratio_or_zero count_results
score F results provider models =
    let tally = count_results results (record { overall = empty_bucket; by_agent = [] }) in
    let ms = all_matches results in
    let hits = filter_by (λ m. is_hit m.kind) ms in
    let total_cost = F.sum (map (λ r. r.cost_usd) results) in
    record {
      overall = tally.overall;
      by_agent = sort (λ a b. text_leb a.0 b.0) tally.by_agent;
      calibration_bins = calibration F ms;
      calibration_error = ece F ms;
      category_agreement =
          ratio_or_zero F (length (filter_by (λ m. m.category_correct) hits)) (length hits);
      agent_attribution =
          ratio_or_zero F (length (filter_by (λ m. m.agent_correct) hits)) (length hits);
      decision_accuracy = accuracy F (decided results);
      total_cost_usd = total_cost;
      cost_per_case_usd = cost_per_case F total_cost (length results);
      cases = results;
      provider = provider;
      models = models;
    }
