-- ===== src/Evaluation/Examples.antt =====
-- The scoring on a case with two expected labels and a trap.
use pr_sentinel.Prelude.{
  text_eq, ◌≡◌, inl, inr, refl, none, some, List, [], ◌∷◌, map, All, codes, ◌+◌, Text, arith, ℕ,
}
use pr_sentinel.Runtime.Samples.{thousandths}
use pr_sentinel.Domain.Enums.{
  Family-discrete, agent_name, category_name, category_of, family_of, same_family, correctness,
  security, logic, authz, docs, documentation, major, minor, critical,
}
use pr_sentinel.Domain.Models.{Finding}
use pr_sentinel.Domain.Samples.{sample_finding}
use pr_sentinel.Evaluation.Labels.{
  covers, end_or, families_of, in_families, is_docs_contract, locates, near, same_concern,
  split_bars, texts_or, traps, Label, found_categories,
}
use pr_sentinel.Evaluation.Matching.{
  was_found, all_about, first_about, is_about, is_permitted, judge, judge_rest, optional_match,
  sprung, hit, unlabelled, false_positive, Match, classify, missed, hit_match, other_match,
}
use pr_sentinel.Evaluation.Matching.About.{NamesCategories}
use pr_sentinel.Evaluation.Matching.Outcomes.{IsJudged, classify_judges}
use pr_sentinel.Evaluation.Metrics.{
  add_kind, count_label, count_labels, count_match, count_matches, count_missed, CaseResult, Tally,
  empty_bucket, count_result,
}
use pr_sentinel.Evaluation.Metrics.Totals.{of_kind, number_of, over_agents, score_counts}
use pr_sentinel.Evaluation.Calibration.{
  EvalReport, EvalCase, all_matches, score, score_case, case_result,
}
use pr_sentinel.Evaluation.Calibration.Recall.{score_case_recall}

abbrev label : ℕ → ℕ → Text → Label
label ref line category = record {
  ref = ref;
  file_path = codes "app/db.py";
  line = line;
  note = [];
  agent = none;
  category = some category;
  min_severity = minor;
}

abbrev defect : Label
defect = label 1 12 (codes "injection|logic")

abbrev unseen : Label
unseen = label 2 90 (codes "logic")

abbrev clean : Label
clean = label 3 40 (codes "authz")

-- Two findings on the same defect, one on the clean line, one that no label speaks of.
abbrev first : Finding
first = sample_finding 1 correctness logic major 10 12 900

abbrev again : Finding
again = sample_finding 2 correctness logic major 14 14 700

abbrev baited : Finding
baited = sample_finding 3 security authz critical 40 40 600

abbrev remark : Finding
remark = sample_finding 4 docs documentation minor 60 60 500

abbrev findings : List Finding
findings = first ∷ again ∷ baited ∷ remark ∷ []

abbrev golden : EvalCase
golden = record {
  id = codes "case";
  title = [];
  summary = [];
  files = [];
  context_chunks = [];
  body = [];
  provenance = none;
  expected_decision = none;
  expected = defect ∷ unseen ∷ [];
  must_not_find = clean ∷ [];
  may_find = [];
  permitted_concerns = [];
}

names : All NamesCategories findings
unfolding found_categories category_of text_eq category_name
names = (
  ((logic, refl), tt),
  (((logic, refl), tt), (((authz, refl), tt), (((documentation, refl), tt), tt))),
)

test_kinds :
    classify findings golden.expected golden.must_not_find [] []
    ≡ some (
        hit_match first defect []
        ∷ hit_match again defect []
        ∷ other_match baited false_positive (some clean)
        ∷ other_match remark unlabelled none
        ∷ [])
unfolding classify judge all_about is_about locates near text_eq same_concern families_of split_bars
    category_of category_name in_families found_categories same_family family_of judge_rest
    mathlib.Core.Bool.decide Family-discrete agent_name covers end_or is_docs_contract texts_or
    traps first_about hit_match is_permitted optional_match other_match sprung
test_kinds = refl

classify_judges_example :
    (ms : List Match) × (classify findings (defect ∷ unseen ∷ []) (clean ∷ []) [] [] ≡ some ms)
    × (map (λ m. m.finding) ms ≡ findings)
    × All (IsJudged (defect ∷ unseen ∷ []) (clean ∷ []) [] []) ms
classify_judges_example = classify_judges (defect ∷ unseen ∷ []) (clean ∷ []) [] [] findings names

abbrev ms : List Match
ms =
    hit_match first defect []
    ∷ hit_match again defect []
    ∷ other_match baited false_positive (some clean)
    ∷ other_match remark unlabelled none
    ∷ []

abbrev result : CaseResult
result = case_result golden ms (codes "auto_post") 800 5 100 [] none

abbrev report : EvalReport
report = score thousandths (result ∷ []) (codes "echo") []

test_report :
    (report.overall.hits ≡ 2) × (report.overall.labels_found ≡ 1) × (report.overall.misses ≡ 1)
unfolding score count_result count_missed case_result missed was_found hit_match other_match
    count_matches count_match add_kind count_labels count_label
test_report = (refl, refl, refl)

score_counts_example :
    (of_kind hit (score thousandths (result ∷ []) (codes "echo") []).overall
      ≡ number_of hit (all_matches (result ∷ [])))
    × (over_agents (of_kind hit) (score thousandths (result ∷ []) (codes "echo") []).by_agent
        ≡ number_of hit (all_matches (result ∷ [])))
score_counts_example = score_counts thousandths (result ∷ []) (codes "echo") [] hit

abbrev start : Tally
start = record { overall = empty_bucket; by_agent = [] }

score_case_recall_example :
    (r : CaseResult) × (score_case golden findings (codes "auto_post") 800 5 100 [] none ≡ some r)
    × ((count_result r start).overall.labels_found + (count_result r start).overall.misses
        ≡ 0 + 0 + 2)
score_case_recall_example =
    score_case_recall golden findings (codes "auto_post") 800 5 100 [] none start
      (λ m. elim m [ inl e ↦ absurd (ground (arith, e)) | inr i ↦ i ], (λ m. m, tt)) names
