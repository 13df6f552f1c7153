-- ===== src/Config.antt =====
-- src/pr_sentinel/config.py: the settings. The `Literal` of the severities is the severity itself, any
-- other `Literal` its text.
use pr_sentinel.Prelude.{
  ℕ, Bool, Option, none, some, Text, codes, text_eq, ltb, if◌then◌else◌, ◌||◌,
}
use pr_sentinel.Runtime.{Float, Floats}
use pr_sentinel.Domain.Enums.{Severity}

pub record Settings : Type 0 where
  pub app_env : Text
  pub log_level : Text
  pub github_webhook_secret : Text
  pub github_token : Text
  pub github_api_url : Text
  pub database_url : Text
  pub database_provider : Text
  pub db_pool_min : ℕ
  pub db_pool_max : ℕ
  pub db_ssl : Bool
  pub redis_url : Text
  pub orchestration_engine : Text
  pub llm_provider : Text
  pub anthropic_api_key : Text
  pub model_security : Text
  pub model_correctness : Text
  pub model_tests : Text
  pub model_docs : Text
  pub max_output_tokens : ℕ
  pub embedding_provider : Text
  pub embedding_model : Text
  pub local_embedding_model : Text
  pub embedding_dim : ℕ
  pub openai_api_key : Text
  pub auto_post_confidence : Float
  pub finding_post_confidence : Float
  pub escalate_critical_security : Bool
  pub post_min_severity : Severity
  pub collapse_repeated_after : ℕ
  pub daily_cost_cap_usd : Float
  pub review_cost_cap_usd : Float
  pub llm_timeout_s : Float
  pub agent_timeout_s : Float
  pub github_timeout_s : Float
  pub db_timeout_s : Float
  pub retrieval_top_k : ℕ
  pub retrieval_context_chars : ℕ
  pub max_diff_bytes : ℕ

-- The fields' ranges and `_check_gate_ordering`; `none` is the ValueError.
unfoldable pub validate : Floats → Settings → Option Settings
validate F s =
    if ltb F.one s.auto_post_confidence || ltb F.one s.finding_post_confidence
    then none
    else if ltb s.auto_post_confidence s.finding_post_confidence
    then none
    else some s

-- Settings.model_for
unfoldable pub model_for : Settings → Text → Text
model_for s agent =
    if text_eq agent (codes "security")
    then s.model_security
    else if text_eq agent (codes "correctness")
    then s.model_correctness
    else if text_eq agent (codes "tests")
    then s.model_tests
    else if text_eq agent (codes "docs")
    then s.model_docs
    else s.model_correctness
