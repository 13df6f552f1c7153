-- ===== src/Orchestration/Pipeline.antt =====
-- src/pr_sentinel/orchestration/pipeline.py: a review from the webhook's job to the gate's decision and
-- what is done with it. The events of the spine and the log are left out.
pub mod Resume
pub mod View
pub mod Fate
pub mod Disclosure
pub mod Samples
mod Examples
use pr_sentinel.Prelude.{
  ℕ, ◌-◌, Bool, true, false, not, ◌||◌, Option, none, some, List, [], ◌∷◌, ◌++◌, map, Text, codes,
  filter_by, length, any, show, if◌then◌else◌,
}
use pr_sentinel.Runtime.{Floats, Unicode}
use pr_sentinel.Config.{Settings}
use pr_sentinel.Database.{Database, Columns}
use pr_sentinel.Database.Reviews.{
  record_delivery, upsert_repository, upsert_pull_request, open_review, is_completed, load_verdicts,
  save_verdict, save_findings, mark_posted, finish_review, enqueue_hitl,
}
use pr_sentinel.Domain.Enums.{
  AgentType, all_agents, Decision, auto_post, escalate, suppress, EscalationReason, low_confidence,
  critical_security, agent_failure, budget_exceeded, policy, ReviewStatus, posted, suppressed,
  awaiting_human, VerdictStatus, budget_denied,
}
use pr_sentinel.Domain.Models.{Finding, AgentVerdict, PullRequestContext, ReviewOutcome, WebhookJob}
use pr_sentinel.Forge.Github.{Answer, Comment, post_review}
use pr_sentinel.Gate.{evaluate, render_review_body}
use pr_sentinel.Orchestration.Aggregator.{aggregate, summarise}

-- How engine.run_panel ends.
pub data Panel : Type 0 where
  answered : List AgentVerdict → Panel
  out_of_budget : Panel

-- What the rest of the program and its libraries give a review.
pub record Surroundings : Type 0 where
  pub floats : Floats
  pub unicode : Unicode
  pub settings : Settings
  pub columns : Columns
  -- The order in which a set of agents is walked.
  pub order : List AgentType → List AgentType
  -- engine.run_panel on the agents that are left.
  pub panel : List AgentType → Panel
  -- bundle_version()
  pub bundle : Text
  -- The time at which the outcome is made, and the id of a new human item.
  pub now : ℕ
  pub new_item : ℕ

-- [a for a in ALL_AGENTS if str(a) not in done]
unfoldable pub todo : ℕ → Database → List AgentType
todo review_id db = filter_by (λ a. not (is_completed review_id db a)) all_agents

unfoldable pub save_verdicts : Columns → ℕ → List AgentVerdict → Database → Database
save_verdicts C review_id [] db = db
save_verdicts C review_id (v ∷ vs) db = save_verdicts C review_id vs (save_verdict C review_id v db)

unfoldable pub read_panel : Panel → List AgentVerdict × Bool
read_panel (answered verdicts) = (verdicts, false)
read_panel out_of_budget = ([], true)

-- The verdicts of the panel, and whether the budget ended it; no agent left, no panel.
unfoldable pub run_todo : (List AgentType → Panel) → List AgentType → List AgentVerdict × Bool
run_todo panel [] = ([], false)
run_todo panel (a ∷ agents) = read_panel (panel (a ∷ agents))

is_denied : VerdictStatus → Bool
is_denied budget_denied = true
is_denied _ = false

-- `loaded or verdicts`
unfoldable pub or_else : List AgentVerdict → List AgentVerdict → List AgentVerdict
or_else [] verdicts = verdicts
or_else (v ∷ vs) verdicts = v ∷ vs

module _ (E : Surroundings) where
  -- From the panel to the verdicts that the review goes by, the rows, and the budget's flag.
  unfoldable pub collect : ℕ → Database → Database × List AgentVerdict × Bool
  collect review_id db =
      let (verdicts, exhausted) = run_todo E.panel (todo review_id db) in
      let saved = save_verdicts E.columns review_id verdicts db in
      (saved, or_else (load_verdicts review_id saved) verdicts, exhausted)

  -- The aggregation, the gate and the outcome.
  unfoldable pub conclude : PullRequestContext → ℕ → List AgentVerdict → Bool → ReviewOutcome
  unfolding is_denied
  conclude pr review_id verdicts exhausted =
      let merged =
        aggregate E.floats E.unicode E.order E.settings.collapse_repeated_after verdicts in
      let result =
        evaluate E.floats E.settings merged.findings verdicts merged.confidence
          (exhausted || any (λ v. is_denied v.status) verdicts) (not pr.is_private) in
      record {
        review_id = review_id;
        decision = result.decision;
        reason = result.reason;
        overall_confidence = merged.confidence;
        findings = merged.findings;
        postable = result.postable;
        verdicts = verdicts;
        summary = summarise merged.findings verdicts;
        total_cost_usd = E.floats.sum (map (λ v. v.cost_usd) verdicts);
        created_at = E.now;
      }

  -- _run
  unfoldable pub run : PullRequestContext → ℕ → Database → Database × ReviewOutcome
  run pr review_id db =
      let (saved, verdicts, exhausted) = collect review_id db in
      let outcome = conclude pr review_id verdicts exhausted in
      (save_findings E.columns review_id outcome.findings saved, outcome)

-- How the calls of the try block end: the requests of post_review, and the two changes of the database,
-- where a `false` is an exception that changes nothing.
pub record Sending : Type 0 where
  pub first : Answer
  pub second : Answer
  pub marks : Bool
  pub finishes : Bool

pub record World : Type 0 where
  pub database : Database
  pub comments : List Comment

unfoldable pub hitl_priority : EscalationReason → ℕ
hitl_priority critical_security = 1
hitl_priority budget_exceeded = 10
hitl_priority agent_failure = 20
hitl_priority low_confidence = 50
hitl_priority policy = 30

or_low_confidence : Option EscalationReason → EscalationReason
or_low_confidence none = low_confidence
or_low_confidence (some r) = r

module _ (E : Surroundings) (pr : PullRequestContext) (review_id : ℕ) where
  -- finish_review for this review, with the fields of the outcome.
  unfoldable pub finish :
      ReviewStatus
      → Decision
      → Option EscalationReason
      → Option ℕ
      → ReviewOutcome
      → Database
      → Database
  finish status decision reason github_review_id o db =
      finish_review E.columns review_id status (some decision) reason o.overall_confidence
        o.total_cost_usd github_review_id none db

  unfoldable pub body_of : ReviewOutcome → Text
  body_of o =
      render_review_body o.postable o.summary (length o.findings - length o.postable) E.bundle

  -- What post_review leaves on GitHub and returns.
  unfoldable pub deliver : Sending → ReviewOutcome → List Comment × Option (Option ℕ)
  deliver sending o =
      post_review E.floats pr.repo_full_name pr.number pr.head_sha (body_of o) o.postable
        sending.first sending.second

  -- The try block behind post_review: the world it leaves, and whether it returned.
  unfoldable pub close_posted : Sending → Option (Option ℕ) → ReviewOutcome → World → World × Bool
  close_posted sending none o w = (w, false)
  close_posted sending (some id) o w =
      if not sending.marks
      then (w, false)
      else let marked = mark_posted (map (λ f. f.id) o.postable) w.database in
        if not sending.finishes
        then (record w { database = marked }, false)
        else (record w { database = finish posted auto_post none id o marked }, true)

  -- The try block. The id is None when the answer holds none, and the review is closed all the same.
  unfoldable pub try_post : Sending → ReviewOutcome → World → World × Bool
  try_post sending o w =
      let (sent, answer) = deliver sending o in
      close_posted sending answer o (record w { comments = sent ++ w.comments })

  -- The branch of ESCALATE.
  unfoldable pub hand_to_human :
      Option EscalationReason → ReviewOutcome → World → World × ReviewOutcome
  unfolding or_low_confidence
  hand_to_human result_reason o w =
      let reason = or_low_confidence result_reason in
      let queued =
        enqueue_hitl E.new_item review_id reason
          (pr.repo_full_name ++ codes "#" ++ show pr.number ++ codes " — " ++ o.summary)
          (hitl_priority reason) w.database in
      (record w { database = finish awaiting_human escalate (some reason) none o queued }, o)

  unfoldable pub suppress_with : Decision → ReviewOutcome → World → World × ReviewOutcome
  suppress_with decision o w =
      (record w { database = finish suppressed decision none none o w.database }, o)

  -- The branch of AUTO_POST: a failure hands the review over, with the outcome's decision changed and
  -- its reason as it was.
  unfoldable pub post_or_escalate : Sending → ReviewOutcome → World → World × ReviewOutcome
  post_or_escalate sending o w =
      let (tried, returned) = try_post sending o w in
      if returned
      then (tried, o)
      else hand_to_human (some policy) (record o { decision = escalate }) tried

  unfoldable pub act_on : Decision → Bool → Sending → ReviewOutcome → World → World × ReviewOutcome
  act_on auto_post true sending o w = post_or_escalate sending o w
  act_on auto_post false sending o w = suppress_with auto_post o w
  act_on escalate post sending o w = hand_to_human o.reason o w
  act_on suppress post sending o w = suppress_with suppress o w

  -- _act
  unfoldable pub act : Bool → Sending → ReviewOutcome → World → World × ReviewOutcome
  unfolding act_on
  act post sending o w = act_on o.decision post sending o w

-- The ids that the database draws for new rows.
pub record NewIds : Type 0 where
  pub repository : ℕ
  pub pull_request : ℕ
  pub review : ℕ

-- review_pull_request, with the pull request that GitHub gives.
unfoldable pub review_pull_request :
    Surroundings
    → NewIds
    → PullRequestContext
    → Bool
    → Sending
    → WebhookJob
    → World
    → World × ReviewOutcome
review_pull_request E new pr post sending job w =
    let recorded = (record_delivery job (codes "accepted") w.database).0 in
    let (with_repo, repo_id) =
      upsert_repository new.repository job.repo_full_name job.repo_github_id (codes "main")
        recorded in
    let (with_pr, pr_id) = upsert_pull_request new.pull_request repo_id pr with_repo in
    let (opened, review_id, is_new) =
      open_review new.review pr_id job.delivery_id E.bundle with_pr in
    let (ran, outcome) = run E pr review_id opened in
    act E pr review_id post sending outcome (record w { database = ran })
