-- ===== src/Database/Reviews.antt =====
-- src/pr_sentinel/db/repositories/reviews.py: each function as the change its statement makes to the
-- tables. The id of a new row, which the database draws, is the argument `fresh`; a primary key drawn
-- this way is taken to be new. A table is a set of rows: the order of its list has no meaning, and
-- what reads it in an order sorts it.

pub mod Upserts
pub mod Opened
pub mod Verdicts
use pr_sentinel.Prelude.{
  ℕ, Bool, true, false, not, ◌&&◌, Option, none, some, List, [], ◌∷◌, ◌++◌, map, Text, text_eq,
  text_leb, filter_by, find_first, any, sort, if◌then◌else◌, ◌==◌,
}
use pr_sentinel.Runtime.{Float}
use pr_sentinel.Domain.Enums.{
  AgentType, agent_name, same_agent, Decision, EscalationReason, ReviewStatus, running,
}
use pr_sentinel.Domain.Models.{Finding, AgentVerdict, verdict_ok, PullRequestContext, WebhookJob}
use pr_sentinel.Database.{
  DeliveryRow, RepositoryRow, PullRequestRow, ReviewRow, VerdictRow, FindingRow, Database, Columns,
}

pub delivery_at : Text → Database → Option DeliveryRow
delivery_at id db = find_first (λ r. text_eq r.delivery_id id) db.deliveries

unfoldable pub delivery_row : WebhookJob → Text → DeliveryRow
delivery_row job status = record {
  delivery_id = job.delivery_id;
  event = job.event;
  action = job.action;
  repo_full_name = job.repo_full_name;
  pr_number = job.pr_number;
  status = status;
}

-- ON CONFLICT (delivery_id) DO NOTHING: whether the row is new.
unfoldable pub record_delivery : WebhookJob → Text → Database → Database × Bool
unfolding delivery_at
record_delivery job status db = elim (delivery_at job.delivery_id db) [
  | some r ↦ (db, false)
  | none ↦ (record db { deliveries = delivery_row job status ∷ db.deliveries }, true)
]

repository_at : ℕ → Database → Option RepositoryRow
repository_at github_id db = find_first (λ r. r.github_repo_id == github_id) db.repositories

-- ON CONFLICT (github_repo_id) DO UPDATE SET full_name.
unfoldable pub upsert_repository : ℕ → Text → ℕ → Text → Database → Database × ℕ
unfolding repository_at
upsert_repository fresh full_name github_id default_branch db = elim (repository_at github_id db) [
  | some r ↦ (
    record db {
      repositories =
          map (λ x. if x.github_repo_id == github_id then record x { full_name = full_name } else x)
            db.repositories;
    },
    r.id,
  )
  | none ↦ (
    record db {
      repositories =
          record {
            id = fresh;
            github_repo_id = github_id;
            full_name = full_name;
            default_branch = default_branch;
          }
          ∷ db.repositories;
    },
    fresh,
  )
]

is_pull_request : ℕ → PullRequestContext → PullRequestRow → Bool
is_pull_request repo_id pr r =
    r.repo_id == repo_id && r.number == pr.number && text_eq r.head_sha pr.head_sha

-- ON CONFLICT (repo_id, number, head_sha) DO UPDATE SET title.
unfoldable pub upsert_pull_request : ℕ → ℕ → PullRequestContext → Database → Database × ℕ
unfolding is_pull_request
upsert_pull_request fresh repo_id pr db =
    elim (find_first (is_pull_request repo_id pr) db.pull_requests) [
      | some r ↦ (
        record db {
          pull_requests =
              map (λ x. if is_pull_request repo_id pr x then record x { title = pr.title } else x)
                db.pull_requests;
        },
        r.id,
      )
      | none ↦ (
        record db {
          pull_requests =
              record {
                id = fresh;
                repo_id = repo_id;
                number = pr.number;
                head_sha = pr.head_sha;
                base_sha = pr.base_sha;
                title = pr.title;
                author = pr.author;
                is_private = pr.is_private;
              }
              ∷ db.pull_requests;
        },
        fresh,
      )
    ]

unfoldable pub is_review : ℕ → Text → ReviewRow → Bool
is_review pr_id delivery_id r = r.pr_id == pr_id && text_eq r.delivery_id delivery_id

unfoldable pub review_row : ℕ → ℕ → Text → Text → ReviewRow
review_row fresh pr_id delivery_id prompt_bundle = record {
  id = fresh;
  pr_id = pr_id;
  delivery_id = delivery_id;
  status = running;
  decision = none;
  decision_reason = none;
  overall_confidence = none;
  prompt_bundle = prompt_bundle;
  github_review_id = none;
  total_cost_usd = 0;
  error = none;
  finished = false;
}

-- The id of the review, and whether its row is new.
unfoldable pub open_review : ℕ → ℕ → Text → Text → Database → Database × ℕ × Bool
unfolding is_review
open_review fresh pr_id delivery_id prompt_bundle db =
    elim (find_first (is_review pr_id delivery_id) db.reviews) [
      | some r ↦ (db, r.id, false)
      | none ↦ (
        record db { reviews = review_row fresh pr_id delivery_id prompt_bundle ∷ db.reviews },
        fresh,
        true,
      )
    ]

unfoldable pub rows_of : ℕ → Database → List VerdictRow
rows_of review_id db = filter_by (λ r. r.review_id == review_id) db.agent_verdicts

-- a in completed_agents(review_id)
unfoldable pub is_completed : ℕ → Database → AgentType → Bool
unfolding rows_of
is_completed review_id db a =
    any (λ r. same_agent r.verdict.agent a && verdict_ok r.verdict) (rows_of review_id db)

unfoldable pub verdict_before : AgentVerdict → AgentVerdict → Bool
verdict_before v w = text_leb (agent_name v.agent) (agent_name w.agent)

-- The rows in the order of their agents.
unfoldable pub load_verdicts : ℕ → Database → List AgentVerdict
unfolding rows_of verdict_before
load_verdicts review_id db = sort verdict_before (map (λ r. r.verdict) (rows_of review_id db))

-- What comes back of a verdict that is stored.
unfoldable pub stored_verdict : Columns → AgentVerdict → AgentVerdict
stored_verdict C v = record v {
  findings = map C.raw_finding v.findings;
  cost_usd = C.cost v.cost_usd;
}

unfoldable pub same_row : ℕ → AgentType → VerdictRow → Bool
same_row review_id a r = r.review_id == review_id && same_agent r.verdict.agent a

-- ON CONFLICT (review_id, agent) DO UPDATE of every other column: the new row for the old one.
unfoldable pub save_verdict : Columns → ℕ → AgentVerdict → Database → Database
unfolding same_row stored_verdict
save_verdict C review_id v db = record db {
  agent_verdicts =
      record { review_id = review_id; verdict = stored_verdict C v }
      ∷ filter_by (λ r. not (same_row review_id v.agent r)) db.agent_verdicts;
}

unfoldable pub finding_row : Columns → ℕ → Finding → FindingRow
finding_row C review_id f = record {
  review_id = review_id;
  finding = record f { confidence = C.confidence f.confidence };
  posted = false;
}

-- The findings of the review are replaced, unless there are none.
unfoldable pub save_findings : Columns → ℕ → List Finding → Database → Database
unfolding finding_row
save_findings C review_id [] db = db
save_findings C review_id (f ∷ fs) db = record db {
  findings =
      map (finding_row C review_id) (f ∷ fs)
      ++ filter_by (λ r. not (r.review_id == review_id)) db.findings;
}

unfoldable pub mark_posted : List ℕ → Database → Database
mark_posted ids db = record db {
  findings =
      map (λ r. if any (λ id. id == r.finding.id) ids then record r { posted = true } else r)
        db.findings;
}

-- The last four arguments of finish_review, github_review_id and error among them.
unfoldable pub finish_review :
    Columns
    → ℕ
    → ReviewStatus
    → Option Decision
    → Option EscalationReason
    → Float
    → Float
    → Option ℕ
    → Option Text
    → Database
    → Database
finish_review C review_id status decision reason confidence cost_usd github_review_id error db =
    record db {
      reviews =
          map
            (λ r.
              if r.id == review_id
              then record r {
                status = status;
                decision = decision;
                decision_reason = reason;
                overall_confidence = some (C.confidence (C.round3 confidence));
                total_cost_usd = C.cost (C.round6 cost_usd);
                github_review_id = github_review_id;
                error = error;
                finished = true;
              }
              else r)
            db.reviews;
    }

unfoldable pub enqueue_hitl : ℕ → ℕ → EscalationReason → Text → ℕ → Database → Database
enqueue_hitl fresh review_id reason summary priority db = record db {
  hitl_items =
      record {
        id = fresh;
        review_id = review_id;
        reason = reason;
        summary = summary;
        priority = priority;
      }
      ∷ db.hitl_items;
}

pub record_feedback :
    Option ℕ → Option ℕ → Text → Text → Option Text → Option Text → Database → Database
record_feedback review_id finding_id source verdict actor note db = record db {
  feedback =
      record {
        review_id = review_id;
        finding_id = finding_id;
        source = source;
        verdict = verdict;
        actor = actor;
        note = note;
      }
      ∷ db.feedback;
}
