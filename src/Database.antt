-- ===== src/Database.antt =====
-- The tables of migrations/001_core.sql that db/repositories/reviews.py reads and writes, as lists of
-- rows. Columns that the database fills (created_at and the like) are left out.
pub mod Reviews
pub mod Migrate
use pr_sentinel.Prelude.{ℕ, Bool, Option, List, Text}
use pr_sentinel.Runtime.{Float}
use pr_sentinel.Domain.Enums.{Decision, EscalationReason, ReviewStatus}
use pr_sentinel.Domain.Models.{Finding, AgentVerdict}

pub record DeliveryRow : Type 0 where
  pub delivery_id : Text
  pub event : Text
  pub action : Text
  pub repo_full_name : Text
  pub pr_number : ℕ
  pub status : Text

pub record RepositoryRow : Type 0 where
  pub id : ℕ
  pub github_repo_id : ℕ
  pub full_name : Text
  pub default_branch : Text

pub record PullRequestRow : Type 0 where
  pub id : ℕ
  pub repo_id : ℕ
  pub number : ℕ
  pub head_sha : Text
  pub base_sha : Text
  pub title : Text
  pub author : Text
  pub is_private : Bool

pub record ReviewRow : Type 0 where
  pub id : ℕ
  pub pr_id : ℕ
  pub delivery_id : Text
  pub status : ReviewStatus
  pub decision : Option Decision
  pub decision_reason : Option EscalationReason
  pub overall_confidence : Option Float
  pub prompt_bundle : Text
  pub github_review_id : Option ℕ
  pub total_cost_usd : Float
  pub error : Option Text
  -- finished_at is set.
  pub finished : Bool

pub record VerdictRow : Type 0 where
  pub review_id : ℕ
  pub verdict : AgentVerdict

pub record FindingRow : Type 0 where
  pub review_id : ℕ
  pub finding : Finding
  pub posted : Bool

pub record HitlRow : Type 0 where
  pub id : ℕ
  pub review_id : ℕ
  pub reason : EscalationReason
  pub summary : Text
  pub priority : ℕ

pub record FeedbackRow : Type 0 where
  pub review_id : Option ℕ
  pub finding_id : Option ℕ
  pub source : Text
  pub verdict : Text
  pub actor : Option Text
  pub note : Option Text

pub record Database : Type 0 where
  pub deliveries : List DeliveryRow
  pub repositories : List RepositoryRow
  pub pull_requests : List PullRequestRow
  pub reviews : List ReviewRow
  pub agent_verdicts : List VerdictRow
  pub findings : List FindingRow
  pub hitl_items : List HitlRow
  pub feedback : List FeedbackRow

-- What the columns and the JSON of `raw` keep of a value.
pub record Columns : Type 0 where
  -- NUMERIC(12, 6) and NUMERIC(4, 3).
  pub cost : Float → Float
  pub confidence : Float → Float
  -- round(x, 6) and round(x, 3)
  pub round6 : Float → Float
  pub round3 : Float → Float
  -- Finding.model_validate of Finding.model_dump(mode="json").
  pub raw_finding : Finding → Finding
