-- ===== src/Orchestration/Panel.antt =====
-- src/pr_sentinel/orchestration/local_engine.py: the panel, from what each agent's run ends with.
use pr_sentinel.Prelude.{◌≡◌, refl, List, [], ◌++◌, map, Text, codes, some}
use pr_sentinel.Domain.Enums.{AgentType, failed}
use pr_sentinel.Domain.Models.{AgentVerdict}

-- The end of one awaitable of asyncio.gather(return_exceptions=True): an exception with the name of
-- its class and its text, or a value.
pub data AgentRun : Type 0 where
  raised : Text → Text → AgentRun
  returned : AgentVerdict → AgentRun

unfoldable pub crashed_verdict : AgentType → Text → AgentVerdict
crashed_verdict agent error = record {
  agent = agent;
  status = failed;
  findings = [];
  summary = [];
  model = [];
  prompt_version = [];
  input_tokens = 0;
  output_tokens = 0;
  cached_tokens = 0;
  cost_usd = 0;
  duration_ms = 0;
  error = some error;
}

unfoldable pub verdict_of : AgentType → AgentRun → AgentVerdict
verdict_of agent (raised class text) = crashed_verdict agent (class ++ codes ": " ++ text)
verdict_of agent (returned v) = v

-- LocalEngine.run_panel, with what each agent's run ends with.
unfoldable pub run_panel : (AgentType → AgentRun) → List AgentType → List AgentVerdict
run_panel runs agents = map (λ a. verdict_of a (runs a)) agents

-- An agent's run, when it returns, returns a verdict in its own name.
pub record AnswersForItself (runs : AgentType → AgentRun) : Type 0 where
  pub own_name : (a : AgentType) (v : AgentVerdict) → runs a ≡ returned v → v.agent ≡ a

-- The verdict that stands for an agent is in its name, whatever its run ends with.
pub verdict_of-agent :
    (runs : AgentType → AgentRun)
    → AnswersForItself runs
    → (a : AgentType) → (verdict_of a (runs a)).agent ≡ a
unfolding verdict_of crashed_verdict
verdict_of-agent runs own a = ended (runs a) refl
  where
    ended : (r : AgentRun) → runs a ≡ r → (verdict_of a r).agent ≡ a
    ended (raised class text) e = refl
    ended (returned v) e = own.own_name a v e
