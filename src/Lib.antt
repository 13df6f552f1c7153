-- ===== src/Lib.antt =====
-- pr-sentinel reviews pull requests: a panel of specialist agents reads a diff, their findings are
-- merged, and a gate decides what is posted, what goes to a person and what is dropped. This library
-- models the core of src/pr_sentinel, and the paths below start there.
--
-- The parts, in the order in which a review passes through them:
--
--   Ingress       ingress/security.py (Ingress.Security): the signature of a webhook, with the digest
--                 as a parameter. ingress/routes.py (Ingress.Routes): github_webhook, whose checks before
--                 the claim of the delivery are `admit` and whose rest is `take_on`; seen_delivery and
--                 enqueue_review of queue/dispatch.py
--   Database      db/repositories/reviews.py (Database.Reviews) on the tables of
--                 migrations/001_core.sql: each function is the change that its statement makes.
--                 Database.Reviews.Opened: one review for a delivery.
--                 db/migrate.py (Database.Migrate): split_statements, whose flags are a Mode, and
--                 apply_migrations
--   Config        config.py: the settings, their check, model_for
--   Domain        domain/enums.py (Domain.Enums) and domain/models.py (Domain.Models): the objects
--                 that the other parts pass on. Domain.Models.Lines and Domain.Models.Security are
--                 about overlaps, the validators and is_security
--   Retrieval     retrieval/chunking.py (Retrieval.Chunking): the chunks of a file that is indexed;
--                 retrieval/context.py (Retrieval.Context): the merge of the hits as context_chunks,
--                 and what is rendered of them
--   Forge.Diff    forge/diff.py: parse_patch and build_diff_file. Forge.Diff.Source describes hunks
--                 and their printed form without the parser, Forge.Diff.RoundTrip and
--                 Forge.Diff.Addressable relate the two. Forge.Prompt is render_for_prompt.
--                 forge/github.py (Forge.Github): post_review with its second request, and the texts
--   Agents        agents/base.py (Agents.Grounding): _ground, _coerce, _evidence and the loop of
--                 _parse, on JSON values whose type and conversions are the parameter Runtime.Json
--   Llm           llm/pricing.py, and _worst_case_cost of llm/client.py (Llm.Pricing)
--   Reliability   reliability/circuit.py (Circuit: State, the breaker's fields, read_state for the
--                 property `state`, on_success, on_failure, call, breaker), reliability/retry.py
--                 (Retry: with_retry, whose loop is attempt_from), reliability/budget.py (Budget:
--                 load, check, charge). A model call goes through all three: see call_llm in
--                 llm/client.py. Circuit.Trace has calls that overlap as a step relation,
--                 Budget.Caps calls of one review, one after another and at once
--   Orchestration orchestration/aggregator.py: Titles (_same_issue, _title_similarity), Clusters
--                 (_merge, _collapse), Repeated (_collapse_repeated, _fold), Aggregator (aggregate,
--                 overall_confidence, summarise, agent_breakdown)
--                 orchestration/local_engine.py (Panel: run_panel) and orchestration/pipeline.py
--                 (Pipeline: review_pull_request, _run as collect and conclude, _act as act). Pipeline
--                 composes the other parts on a World, the database and the reviews on GitHub;
--                 Pipeline.View says without the code what may become of a review,
--                 and Pipeline.Fate that _act brings it about
--   Gate          gate/confidence.py: evaluate and render_review_body
--   Evaluation    evaluation/matching.py (Labels: a finding against a label; Matching: classify and
--                 missed) and evaluation/metrics.py (Metrics: the buckets of score; Calibration: the
--                 bins, the error, score_case and score)
--
-- Prelude has the shared lists, texts, tests and sorting, Runtime what the program takes from Python
-- and Unicode, and each module Examples runs the definitions on concrete values.
--
-- How the code is read:
--
--   * A str is the list of its code points. The tables behind str.lower, str.isalnum, str.isspace
--     and \d are a parameter, Runtime.Unicode; Runtime.IsAscii is what the tables say of ASCII.
--   * A float of the program is finite and not negative. It is the multiple of 2^-1074 that it is,
--     so comparisons are exact; the operations that round are a parameter, Runtime.Floats, with the
--     laws of Runtime.IsRounded and Runtime.IsAddition where a theorem needs them. The difference of
--     two readings of the clock in the circuit breaker, and the one of its recovery time and that, are
--     taken exactly; and so is the product by a power of two in the backoff, which is exact.
--   * A write of `merged_into` to a finding that a verdict still holds is a link from that finding to
--     the one that stands for it, so that the sharing of the objects stays visible.
--   * A set or a dictionary is a list, without repeats where that matters. The order in which Python
--     walks a set is a parameter.
--   * The clock, the random draw, the outcome of an awaited call and the settings are arguments. What
--     asyncio may interleave are steps of a relation.
--   * An exception is a value of the result: Option for a ValueError, Ending for with_retry,
--     CallResult for the breaker, Ground for the filter of the agents, a status of 500 for the
--     webhook. The ends of the calls to GitHub, Redis and arq that _act and the webhook make are
--     arguments (Sending, Moment), so that a call may fail at each place.
--   * A table is a list of rows whose order has no meaning; a primary key that the database draws is an
--     argument, taken to be new. What a column or the JSON of a column keeps of a value is the parameter
--     Database.Columns.
--
-- Every loop of the program is structural recursion on the list it walks or on the rounds that are
-- left, but for two on fuel: str(n) in Prelude.Texts has n + 1 rounds, where each round takes a digit of
-- n away, and the loop of _windows in Retrieval.Chunking has one round for each line of its range, where
-- each round moves the cursor on by 105 lines; see Retrieval.Chunking.Windows.
--
-- Not modelled: logging and the event spine; the connections to the database, Redis and GitHub, the
-- queries that rank and report, and the model providers, which are input and output; the command line
-- and the dashboard, which print; the engines for langgraph and temporal, which are glue to packages
-- outside the repository; scripts and tests.
pub mod Prelude
pub mod Runtime
pub mod Database
pub mod Evaluation
pub mod Retrieval
pub mod Config
pub mod Ingress
pub mod Agents
pub mod Llm
pub mod Domain
pub mod Forge
pub mod Gate
pub mod Reliability
pub mod Orchestration
