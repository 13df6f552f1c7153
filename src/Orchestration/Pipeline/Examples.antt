-- ===== src/Orchestration/Pipeline/Examples.antt =====
-- A review that resumes, and what is done with its outcome.
use pr_sentinel.Orchestration.Titles.{same_issue, title_similarity, words}
use pr_sentinel.Orchestration.Clusters.{
  agents_of, best_of, categories_of, cluster_from, collapse, collapse_all, dedupe_evidence, doubt,
  links_to, max_end, merge, merge_bodies, merged_confidence, merged_finding, min_start, place,
  weaker,
}
use pr_sentinel.Orchestration.Repeated.{
  add_to, cite, collapse_repeated, emit, emit_all, fold, group_from, max_confidence, others_of,
  same_key,
}
use pr_sentinel.Orchestration.Aggregator.{
  aggregate, comes_first, count_ok, findings_of, links_of, overall_confidence, reported,
}
use pr_sentinel.Prelude.{
  inl, insert_sorted, int_eq, join, max_of, show, show_digits, sort, text_eq, text_leb, unique, ◌≡◌,
  ◌≢◌, ◌≤◌, ◌↔◌, ◌⊎◌, refl, true, none, some, arith, false, List, [], ◌∷◌, In, codes,
}
use pr_sentinel.Database.Reviews.{
  delivery_row, enqueue_hitl, finding_row, finish_review, mark_posted, record_delivery, review_row,
  rows_of, same_row, is_review, save_findings, upsert_pull_request, upsert_repository,
  verdict_before, is_completed, load_verdicts, save_verdict, stored_verdict, open_review,
}
use pr_sentinel.Database.Reviews.Opened.{
  Change, opens, finishes, change_all, count_reviews, open_review_again,
}
use pr_sentinel.Database.Reviews.Verdicts.{load_verdicts-save_verdict}
use pr_sentinel.Domain.Enums.{
  AgentType-discrete, Category-discrete, Family-discrete, agent_name, category_name, category_of,
  family_of, is_collapsible, is_security_category, same_category, same_family, severity_weight,
  same_agent, security, correctness, tests, ok, posted, auto_post,
}
use pr_sentinel.Domain.Models.{
  Finding, overlaps, is_security, AgentVerdict, verdict_ok, ReviewOutcome,
}
use pr_sentinel.Domain.Samples.{sample_verdict, sample_settings}
use pr_sentinel.Gate.{
  render_review_body, clears_confidence, clears_severity, held_low_confidence, held_low_severity,
  is_postable, postable_findings, critical_findings, failed_verdicts, is_critical_security,
  evaluate,
}
use pr_sentinel.Orchestration.Panel.{crashed_verdict, run_panel, verdict_of}
use pr_sentinel.Orchestration.Pipeline.{
  act_on, finish, hand_to_human, or_low_confidence, run_todo, suppress_with, todo, or_else,
  post_or_escalate, read_panel, save_verdicts, try_post, is_denied, run, World, collect, conclude,
  act, hitl_priority, body_of, deliver, close_posted, review_pull_request,
}
use pr_sentinel.Orchestration.Pipeline.Disclosure.{IsPublic, review_discloses_nothing}
use pr_sentinel.Forge.Github.{
  takes, Comment, inline_review, is_refused_inline, post_review, send_request,
}
use pr_sentinel.Orchestration.Pipeline.View.{publishes, comment_of}
use pr_sentinel.Orchestration.Pipeline.Resume.{collect_resumes}
use pr_sentinel.Orchestration.Pipeline.Samples.{
  wrong, runs, runs-AnswersForItself, exact, around, pull_request, calm, job, empty_database, begun,
  arrives, falls_back, new_ids,
}

load_verdicts-save_verdict_example :
    In
      (sample_verdict correctness ok wrong)
      (load_verdicts 9 (save_verdict exact 9 (sample_verdict tests ok wrong) begun))
    ↔ ((sample_verdict correctness ok wrong ≡ stored_verdict exact (sample_verdict tests ok wrong))
        ⊎ (In (sample_verdict correctness ok wrong) (load_verdicts 9 begun)
            × (correctness ≢ tests)))
load_verdicts-save_verdict_example =
    load_verdicts-save_verdict exact 9 (sample_verdict tests ok wrong) begun
      (sample_verdict correctness ok wrong)

-- The review ends, and another delivery opens one, before the delivery comes back.
abbrev meanwhile : List Change
meanwhile =
    finishes 9 posted (some auto_post) none 900 12 (some 501) none
    ∷ opens 11 3 (codes "d2") (codes "v1")
    ∷ []

one_begun : count_reviews 3 (codes "d1") begun ≤ 1
unfolding is_review text_eq
one_begun = omega arith

open_review_again_example :
    let opened = open_review 9 3 (codes "d1") (codes "v1") begun in
    let db = change_all exact meanwhile opened.0 in
    (count_reviews 3 (codes "d1") db ≡ 1)
    × (open_review 10 3 (codes "d1") (codes "v2") db ≡ (db, opened.1, false))
open_review_again_example =
    open_review_again exact 9 10 3 (codes "d1") (codes "v1") (codes "v2") begun meanwhile one_begun

collect_resumes_example :
    (v : AgentVerdict) × In v (collect (around runs) 9 begun).1
    × (v.agent ≡ security)
    × (is_completed 9 begun security ≡ true → In v (load_verdicts 9 begun) × (verdict_ok v ≡ true))
    × (is_completed 9 begun security ≡ false
        → v ≡ stored_verdict exact (verdict_of security (runs security)))
collect_resumes_example =
    collect_resumes (around runs) runs runs-AnswersForItself (λ agents. refl) 9 begun security

abbrev quiet_panel : List AgentVerdict
quiet_panel = sample_verdict correctness ok wrong ∷ []

abbrev outcome : ReviewOutcome
outcome = conclude (around runs) pull_request 9 quiet_panel false

abbrev before : World
before = record { database = begun; comments = [] }

-- The review of the example is to be posted, and arrives by the second request.
test_arrives : publishes true falls_back outcome.postable outcome.decision ≡ true
unfolding conclude evaluate run_panel verdict_of failed_verdicts verdict_ok critical_findings
    aggregate sort findings_of collapse_repeated merge collapse_all cluster_from reported
    is_collapsible collapse mathlib.Core.Bool.decide AgentType-discrete Category-discrete
    Family-discrete agent_name category_name category_of family_of is_security_category same_agent
    same_category same_family severity_weight is_security overlaps clears_confidence clears_severity
    held_low_confidence held_low_severity is_critical_security is_postable postable_findings
    comes_first count_ok links_of overall_confidence agents_of best_of categories_of dedupe_evidence
    doubt links_to max_end merge_bodies merged_confidence merged_finding min_start place weaker
    crashed_verdict is_denied add_to cite emit emit_all fold group_from max_confidence others_of
    same_key same_issue title_similarity words int_eq insert_sorted max_of review_pull_request act
    run collect run_todo todo is_completed open_review upsert_pull_request upsert_repository
    record_delivery read_panel or_else load_verdicts save_verdicts save_verdict text_leb
    delivery_row enqueue_hitl finding_row finish_review mark_posted review_row rows_of same_row
    save_findings stored_verdict verdict_before render_review_body act_on body_of deliver
    close_posted finish inline_review is_refused_inline post_review send_request hand_to_human
    hitl_priority or_low_confidence post_or_escalate suppress_with try_post unique join show
    show_digits text_eq takes
test_arrives = refl

abbrev empty_world : World
empty_world = record { database = empty_database; comments = [] }

abbrev after : World
after = (review_pull_request (around calm) new_ids pull_request true arrives job empty_world).0

abbrev final : ReviewOutcome
final = (review_pull_request (around calm) new_ids pull_request true arrives job empty_world).1

abbrev sent : Comment
sent = comment_of (around calm) pull_request 9 arrives final

test_sent : after.comments ≡ sent ∷ []
unfolding conclude evaluate run_panel verdict_of failed_verdicts verdict_ok critical_findings
    aggregate sort findings_of collapse_repeated merge collapse_all cluster_from reported
    is_collapsible collapse mathlib.Core.Bool.decide AgentType-discrete Category-discrete
    Family-discrete agent_name category_name category_of family_of is_security_category same_agent
    same_category same_family severity_weight is_security overlaps clears_confidence clears_severity
    held_low_confidence held_low_severity is_critical_security is_postable postable_findings
    comes_first count_ok links_of overall_confidence agents_of best_of categories_of dedupe_evidence
    doubt links_to max_end merge_bodies merged_confidence merged_finding min_start place weaker
    crashed_verdict is_denied add_to cite emit emit_all fold group_from max_confidence others_of
    same_key same_issue title_similarity words int_eq insert_sorted max_of review_pull_request act
    run collect run_todo todo is_completed open_review upsert_pull_request upsert_repository
    record_delivery read_panel or_else load_verdicts save_verdicts save_verdict text_leb
    delivery_row enqueue_hitl finding_row finish_review mark_posted review_row rows_of same_row
    save_findings stored_verdict verdict_before render_review_body act_on body_of deliver
    close_posted finish inline_review is_refused_inline post_review send_request hand_to_human
    hitl_priority or_low_confidence post_or_escalate suppress_with try_post unique join show
    show_digits text_eq
test_sent = refl

sent_after : In sent after.comments
sent_after = rw test_sent (inl refl)

review_discloses_nothing_example :
    In sent [] ⊎ ((true ≡ true) × ((f : Finding) → In f sent.findings → IsPublic sample_settings f))
review_discloses_nothing_example =
    review_discloses_nothing (around calm) new_ids pull_request true arrives job empty_world sent
      sent_after
