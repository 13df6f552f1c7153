-- ===== src/Orchestration/Pipeline/Samples.antt =====
-- A pull request, its surroundings and a database for the tests.
use pr_sentinel.Prelude.{◌≡◌, true, false, none, some, [], ◌∷◌, codes}
use pr_sentinel.Runtime.Samples.{ascii, thousandths}
use pr_sentinel.Database.{Database, Columns, ReviewRow}
use pr_sentinel.Domain.Enums.{
  AgentType, security, correctness, tests, docs, authz, logic, critical, major, ok, running,
}
use pr_sentinel.Domain.Models.{Finding, AgentVerdict, PullRequestContext, WebhookJob}
use pr_sentinel.Domain.Samples.{sample_finding, sample_verdict, sample_settings}
use pr_sentinel.Orchestration.Panel.{AgentRun, raised, returned, run_panel, AnswersForItself}
use pr_sentinel.Forge.Github.{replied, rejected, broken_off}
use pr_sentinel.Orchestration.Pipeline.{Surroundings, answered, Sending, NewIds}

abbrev pub wrong : Finding
wrong = sample_finding 1 correctness logic major 3 5 900

abbrev pub hole : Finding
hole = sample_finding 2 security authz critical 9 9 900

-- The security agent crashes.
abbrev pub runs : AgentType → AgentRun
runs security = raised (codes "RuntimeError") (codes "boom")
runs a = returned (sample_verdict a ok wrong)

-- Every agent returns, and one has something to say.
abbrev pub calm : AgentType → AgentRun
calm correctness = returned (sample_verdict correctness ok wrong)
calm a = returned (record (sample_verdict a ok wrong) { findings = [] })

pub runs-AnswersForItself : AnswersForItself runs
runs-AnswersForItself = record { own_name = λ a v e. named a v e }
  where
    named : (a : AgentType) (v : AgentVerdict) → runs a ≡ returned v → v.agent ≡ a
    named security v e = cc
    named correctness v e = cc
    named tests v e = cc
    named docs v e = cc

abbrev pub exact : Columns
exact = record {
  cost = λ x. x;
  confidence = λ x. x;
  round6 = λ x. x;
  round3 = λ x. x;
  raw_finding = λ f. f;
}

abbrev pub around : (AgentType → AgentRun) → Surroundings
around ends = record {
  floats = thousandths;
  unicode = ascii;
  settings = sample_settings;
  columns = exact;
  order = λ agents. agents;
  panel = λ agents. answered (run_panel ends agents);
  bundle = codes "v1";
  now = 0;
  new_item = 77;
}

abbrev pub pull_request : PullRequestContext
pull_request = record {
  repo_full_name = codes "o/r";
  repo_github_id = 5;
  is_private = false;
  number = 12;
  title = codes "t";
  body = [];
  author = codes "a";
  head_sha = codes "h";
  base_sha = codes "b";
  base_ref = codes "main";
  files = [];
  truncated = false;
}

abbrev pub job : WebhookJob
job = record {
  delivery_id = codes "d1";
  event = codes "pull_request";
  action = codes "opened";
  repo_full_name = codes "o/r";
  repo_github_id = 5;
  is_private = false;
  pr_number = 12;
  head_sha = codes "h";
  base_sha = codes "b";
  title = codes "t";
  author = codes "a";
  received_at = 0;
}

abbrev pub empty_database : Database
empty_database = record {
  deliveries = [];
  repositories = [];
  pull_requests = [];
  reviews = [];
  agent_verdicts = [];
  findings = [];
  hitl_items = [];
  feedback = [];
}

abbrev pub open_row : ReviewRow
open_row = record {
  id = 9;
  pr_id = 3;
  delivery_id = codes "d1";
  status = running;
  decision = none;
  decision_reason = none;
  overall_confidence = none;
  prompt_bundle = codes "v1";
  github_review_id = none;
  total_cost_usd = 0;
  error = none;
  finished = false;
}

-- An earlier attempt has left the verdict of the correctness agent.
abbrev pub begun : Database
begun = record empty_database {
  reviews = open_row ∷ [];
  agent_verdicts = record { review_id = 9; verdict = sample_verdict correctness ok wrong } ∷ [];
}

abbrev pub arrives : Sending
arrives = record {
  first = replied (some 501);
  second = broken_off false;
  marks = true;
  finishes = true;
}

-- GitHub refuses the comments at the lines, and the answer to the second request holds no id.
abbrev pub falls_back : Sending
falls_back = record { first = rejected 422; second = replied none; marks = true; finishes = true }

abbrev pub new_ids : NewIds
new_ids = record { repository = 1; pull_request = 2; review = 9 }
