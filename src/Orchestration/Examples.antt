-- ===== src/Orchestration/Examples.antt =====
-- A panel of two agents on one query, through the aggregator.
use mathlib.Core.List.{Perm}
use pr_sentinel.Prelude.{
  sort, text_eq, text_leb, ◌*◌, ◌≤◌, ◌<◌, min, ◌≡◌, ◌↔◌, inl, refl, true, false, List, [], ◌∷◌,
  length, In, max_of, arith,
}
use pr_sentinel.Runtime.Samples.{ascii, thousandths, thousandths-IsRounded}
use pr_sentinel.Domain.Enums.{
  category_name, category_of, is_security_category, same_agent, same_category, AgentType, security,
  correctness, logic, error_handling, test_coverage, tests, critical, minor, ok, auto_post,
}
use pr_sentinel.Domain.Models.{Finding, AgentVerdict, verdict_ok, is_security}
use pr_sentinel.Domain.Samples.{sample_finding, sample_verdict, sample_settings}
use pr_sentinel.Gate.{
  failed_verdicts, critical_findings, is_critical_security, postable_findings, is_postable,
  clears_confidence, clears_severity, evaluate,
}
use pr_sentinel.Orchestration.Clusters.{
  best_of, doubt, merged_finding, categories_of, max_end, min_start, weaker, agents_of,
  merged_confidence, collapse, merge,
}
use pr_sentinel.Orchestration.Clusters.Confidence.{merged_confidence-bounds}
use pr_sentinel.Orchestration.Clusters.Concerns.{RaisesConcern, collapse-is_security_iff}
use pr_sentinel.Orchestration.Repeated.{collapse_repeated}
use pr_sentinel.Orchestration.Aggregator.{aggregate, reported, findings_of}
use pr_sentinel.Orchestration.Aggregator.Complete.{Leads, aggregate_complete}
use pr_sentinel.Orchestration.Aggregator.Sorted.{IsRanked, aggregate-IsRanked}

abbrev in_order : List AgentType → List AgentType
in_order agents = agents

-- The security agent calls it error handling; the correctness agent is surer, and says logic.
abbrev swallowed : Finding
swallowed = sample_finding 1 security error_handling critical 10 12 800

abbrev wrong : Finding
wrong = sample_finding 2 correctness logic critical 12 15 900

abbrev untested : Finding
untested = sample_finding 3 tests test_coverage minor 40 40 700

abbrev panel : List AgentVerdict
panel =
    sample_verdict security ok swallowed
    ∷ sample_verdict correctness ok wrong
    ∷ sample_verdict tests ok untested
    ∷ []

abbrev pair : List Finding
pair = swallowed ∷ wrong ∷ []

abbrev review : List Finding
review = (aggregate thousandths ascii in_order 3 panel).findings

abbrev one_issue : Finding
one_issue = (collapse thousandths in_order swallowed (wrong ∷ [])).finding

returned : verdict_ok (sample_verdict security ok swallowed) ≡ true
unfolding verdict_ok
returned = refl

aggregate_complete_example :
    (y : Finding) × In y review × Leads (aggregate thousandths ascii in_order 3 panel).links 1 y.id
aggregate_complete_example =
    aggregate_complete thousandths ascii in_order 3 panel (sample_verdict security ok swallowed)
      swallowed (inl refl) returned (inl refl)

aggregate-IsRanked_example :
    Perm review (
      findings_of
        (collapse_repeated 3 (findings_of (merge thousandths ascii in_order (reported panel)))))
    × IsRanked review
aggregate-IsRanked_example = aggregate-IsRanked thousandths ascii in_order 3 panel

test_lines : (one_issue.line_start ≡ 10) × (one_issue.line_end ≡ 15)
unfolding collapse merged_finding min_start max_of weaker max_end
test_lines = (refl, refl)

several : 1 < length (agents_of pair)
unfolding agents_of same_agent
several = omega arith

test_confidence : merged_confidence thousandths in_order wrong pair ≡ 980
unfolding merged_confidence agents_of same_agent doubt best_of
test_confidence = refl

merged_confidence-bounds_example :
    (merged_confidence thousandths in_order wrong pair ≤ 990)
    × ((f : Finding)
        → In f pair
        → 1000 ≤ 2 * f.confidence
        → min 990 f.confidence ≤ merged_confidence thousandths in_order wrong pair)
merged_confidence-bounds_example =
    merged_confidence-bounds thousandths thousandths-IsRounded in_order wrong pair (λ a agents m. m)
      (omega arith, (omega arith, tt)) several

collapse-is_security_iff_example :
    (is_security one_issue ≡ true) ↔ RaisesConcern swallowed (wrong ∷ [])
collapse-is_security_iff_example = collapse-is_security_iff thousandths in_order swallowed wrong []

-- The security agent's critical finding is merged into the other, and the gate posts it.
test_disclosed : is_security one_issue ≡ false
unfolding is_security collapse same_agent merged_finding max_of weaker is_security_category sort
    categories_of same_category text_leb category_name category_of text_eq
test_disclosed = refl

test_posted :
    (evaluate thousandths sample_settings (one_issue ∷ []) panel 900 false true).decision
    ≡ auto_post
unfolding is_security collapse same_agent merged_finding max_of weaker is_security_category sort
    categories_of same_category text_leb category_name category_of text_eq evaluate failed_verdicts
    verdict_ok critical_findings is_critical_security postable_findings is_postable
    clears_confidence clears_severity merged_confidence agents_of best_of doubt
test_posted = refl

-- Two more gaps of the same kind.
abbrev gaps : List Finding
gaps = record untested { id = 4 } ∷ record untested { id = 5 } ∷ []
