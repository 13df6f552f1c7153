-- ===== src/Gate.antt =====
-- src/pr_sentinel/gate/confidence.py: what is posted, what goes to a person, what is dropped. The
-- settings are an argument where the program calls get_settings().
pub mod Decisions
pub mod Posting
mod Examples
use pr_sentinel.Prelude.{
  ℕ, ◌≡◌, Bool, true, false, not, ◌&&◌, Option, none, some, List, [], ◌∷◌, ◌++◌, map, Text, codes,
  leb, ltb, length, filter_by, join, show, if◌then◌else◌,
}
use pr_sentinel.Runtime.{Float, Floats}
use pr_sentinel.Config.{Settings}
use pr_sentinel.Domain.Enums.{
  AgentType, Severity, critical, severity_rank, severity_name, agent_name, Decision, auto_post,
  escalate, suppress, EscalationReason, low_confidence, critical_security, agent_failure,
  budget_exceeded,
}
use pr_sentinel.Domain.Models.{Finding, AgentVerdict, verdict_ok, is_security}

pub record GateResult : Type 0 where
  pub decision : Decision
  pub reason : Option EscalationReason
  pub postable : List Finding
  pub priority : ℕ
  pub explanation : Text

unfoldable pub failed_verdicts : List AgentVerdict → List AgentVerdict
failed_verdicts verdicts = filter_by (λ v. not (verdict_ok v)) verdicts

is_critical : Severity → Bool
is_critical critical = true
is_critical _ = false

unfoldable pub is_critical_security : Finding → Bool
unfolding is_critical
is_critical_security f = is_critical f.severity && is_security f

unfoldable pub critical_findings : List Finding → List Finding
critical_findings findings = filter_by is_critical_security findings

-- The two bars of a finding: confidence, then severity.
unfoldable pub clears_confidence : Settings → Finding → Bool
clears_confidence s f = leb s.finding_post_confidence f.confidence

unfoldable pub clears_severity : Settings → Finding → Bool
clears_severity s f = leb (severity_rank s.post_min_severity) (severity_rank f.severity)

unfoldable pub is_postable : Settings → Finding → Bool
is_postable s f = clears_confidence s f && clears_severity s f

unfoldable pub postable_findings : Settings → List Finding → List Finding
postable_findings s findings = filter_by (is_postable s) findings

unfoldable pub held_low_confidence : Settings → List Finding → ℕ
held_low_confidence s findings = length (filter_by (λ f. not (clears_confidence s f)) findings)

unfoldable pub held_low_severity : Settings → List Finding → ℕ
held_low_severity s findings =
    length (filter_by (λ f. clears_confidence s f && not (clears_severity s f)) findings)

-- The explanations, as f-strings give them.
pub explain_failed : List AgentVerdict → Text
explain_failed failed =
    codes "Incomplete panel — "
    ++ join (codes ", ") (map (λ v. agent_name v.agent) failed)
    ++ codes " did not return."

pub explain_critical : ℕ → Bool → Text
explain_critical n is_public =
    show n
    ++ codes " critical security finding(s); not posted to the "
    ++ (if is_public then codes "public repository" else codes "pull request")
    ++ codes " to avoid disclosure. Route through the security channel."

pub explain_low : Floats → Settings → Float → Text
explain_low F s overall =
    codes "Overall confidence "
    ++ F.fixed2 overall
    ++ codes " is below the "
    ++ F.fixed2 s.auto_post_confidence
    ++ codes " auto-post threshold."

pub explain_posting : Settings → ℕ → ℕ → ℕ → Text
explain_posting s posted low_conf low_sev =
    let by_confidence : List Text =
      if ltb 0 low_conf
      then (show low_conf ++ codes " below the confidence threshold") ∷ []
      else [] in
    let by_severity : List Text =
      if ltb 0 low_sev
      then (show low_sev
          ++ codes " below "
          ++ severity_name s.post_min_severity
          ++ codes " severity")
        ∷ []
      else [] in
    let reasons = by_confidence ++ by_severity in
    codes "Posting "
    ++ show posted
    ++ codes " finding(s)"
    ++ (if ltb 0 (length reasons)
        then codes "; held back: " ++ join (codes ", ") reasons ++ codes "."
        else codes ".")

hand_over : EscalationReason → ℕ → Text → GateResult
hand_over reason priority explanation = record {
  decision = escalate;
  reason = some reason;
  postable = [];
  priority = priority;
  explanation = explanation;
}

-- evaluate(findings, verdicts, overall_confidence, budget_exhausted=…, is_public_repo=…)
unfoldable pub evaluate :
    Floats → Settings → List Finding → List AgentVerdict → Float → Bool → Bool → GateResult
unfolding hand_over
evaluate F s findings verdicts overall_confidence budget_exhausted is_public_repo =
    if budget_exhausted
    then hand_over budget_exceeded 10
        (codes "Cost cap reached before the panel finished; review is incomplete.")
    else if ltb 0 (length (failed_verdicts verdicts))
    then hand_over agent_failure 20 (explain_failed (failed_verdicts verdicts))
    else if ltb 0 (length (critical_findings findings)) && s.escalate_critical_security
    then hand_over critical_security 1
        (explain_critical (length (critical_findings findings)) is_public_repo)
    else if leb (length (postable_findings s findings)) 0
    then record {
      decision = suppress;
      reason = none;
      postable = [];
      priority = 100;
      explanation = codes "Nothing cleared the per-finding posting threshold. Staying quiet.";
    }
    else if ltb overall_confidence s.auto_post_confidence
    then hand_over low_confidence 50 (explain_low F s overall_confidence)
    else record {
      decision = auto_post;
      reason = none;
      postable = postable_findings s findings;
      priority = 100;
      explanation =
          explain_posting s (length (postable_findings s findings)) (held_low_confidence s findings)
            (held_low_severity s findings);
    }

-- The body of the review that is posted.
unfoldable pub render_review_body : List Finding → Text → ℕ → Text → Text
render_review_body postable summary held_back bundle =
    let agreed = length (filter_by (λ f. ltb 1 (length f.agreeing)) postable) in
    codes "### pr-sentinel review\n\n"
    ++ summary
    ++ codes ". "
    ++ show (length postable)
    ++ codes " comment(s) below."
    ++ (if ltb 0 held_back
        then codes " " ++ show held_back ++ codes " lower-confidence observation(s) withheld."
        else [])
    ++ (if ltb 0 agreed
        then codes "\n\n"
          ++ show agreed
          ++ codes
              " finding(s) were raised independently by more than one specialist, which is the strongest signal this tool produces."
        else [])
    ++ codes
        "\n\n<sub>Advisory only — this review never blocks a merge. Reply to any comment to dispute it; disputes are recorded. Prompt bundle `"
    ++ bundle
    ++ codes "`.</sub>"
