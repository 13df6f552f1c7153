-- ===== src/Orchestration/Aggregator.antt =====
-- src/pr_sentinel/orchestration/aggregator.py: the whole fan-in, and what is said of a review.
pub mod Complete
pub mod Sorted
use pr_sentinel.Prelude.{
  ℕ, suc, ◌+◌, ◌-◌, ◌≡◌, Bool, true, false, not, ◌&&◌, ◌||◌, Option, none, some, List, [], ◌∷◌,
  ◌++◌, map, Text, codes, text_leb, filter_by, length, ltb, leb, ◌==◌, sort, join, show,
  if◌then◌else◌,
}
use pr_sentinel.Runtime.{Float, Floats, Unicode}
use pr_sentinel.Domain.Enums.{
  AgentType, agent_name, same_agent, Severity, critical, major, minor, info, severity_rank,
  severity_weight, severity_name,
}
use pr_sentinel.Domain.Models.{Finding, AgentVerdict, verdict_ok}
use pr_sentinel.Orchestration.Clusters.{Merged, merge}
use pr_sentinel.Orchestration.Repeated.{collapse_repeated}

-- [f for v in verdicts if v.ok for f in v.findings]
unfoldable pub reported : List AgentVerdict → List Finding
reported [] = []
reported (v ∷ vs) = (if verdict_ok v then v.findings else []) ++ reported vs

-- The sort key (-severity, -confidence, file_path), compared.
unfoldable pub comes_first : Finding → Finding → Bool
comes_first a b =
    ltb (severity_rank b.severity) (severity_rank a.severity)
    || (severity_rank a.severity == severity_rank b.severity
        && (ltb b.confidence a.confidence
            || (a.confidence == b.confidence && text_leb a.file_path b.file_path)))

unfoldable pub count_ok : List AgentVerdict → ℕ
count_ok verdicts = length (filter_by verdict_ok verdicts)

panel_health : Floats → List AgentVerdict → Float
panel_health F [] = 0
panel_health F (v ∷ vs) = F.ratio (count_ok (v ∷ vs)) (length (v ∷ vs))

weighted_mean : Floats → List Finding → Float
weighted_mean F findings =
    F.div (F.sum (map (λ f. F.mul f.confidence (severity_weight F f.severity)) findings))
      (F.sum (map (λ f. severity_weight F f.severity) findings))

unfoldable pub overall_confidence : Floats → List Finding → List AgentVerdict → Float
unfolding panel_health weighted_mean
overall_confidence F [] verdicts = F.round3 (panel_health F verdicts)
overall_confidence F (f ∷ fs) verdicts =
    F.round3 (F.mul (weighted_mean F (f ∷ fs)) (panel_health F verdicts))

-- The merged findings, the overall confidence, and the links of both stages in order.
pub record Aggregate : Type 0 where
  pub findings : List Finding
  pub confidence : Float
  pub links : List (ℕ × ℕ)

unfoldable pub findings_of : List Merged → List Finding
findings_of ms = map (λ m. m.finding) ms

unfoldable pub links_of : List Merged → List (ℕ × ℕ)
links_of [] = []
links_of (m ∷ ms) = m.links ++ links_of ms

unfoldable pub aggregate :
    Floats → Unicode → (List AgentType → List AgentType) → ℕ → List AgentVerdict → Aggregate
aggregate F U order threshold verdicts =
    let merged = merge F U order (reported verdicts) in
    let repeated = collapse_repeated threshold (findings_of merged) in
    let findings = sort comes_first (findings_of repeated) in
    record {
      findings = findings;
      confidence = overall_confidence F findings verdicts;
      links = links_of merged ++ links_of repeated;
    }

unfoldable pub count_severity : Severity → List Finding → ℕ
count_severity s findings =
    length (filter_by (λ f. severity_rank f.severity == severity_rank s) findings)

count_part : List Finding → Severity → List Text
count_part findings s =
    if ltb 0 (count_severity s findings)
    then (show (count_severity s findings) ++ codes " " ++ severity_name s) ∷ []
    else []

pub summarise : List Finding → List AgentVerdict → Text
unfolding count_part
summarise findings verdicts =
    let parts =
      count_part findings critical
      ++ count_part findings major
      ++ count_part findings minor
      ++ count_part findings info in
    let failed = map (λ v. agent_name v.agent) (filter_by (λ v. not (verdict_ok v)) verdicts) in
    (if ltb 0 (length parts) then join (codes ", ") parts else codes "no findings")
    ++ (if ltb 0 (length failed)
        then codes " (agents unavailable: " ++ join (codes ", ") failed ++ codes ")"
        else [])

-- The dictionary comprehension: the last verdict of an agent is its entry.
pub agent_breakdown : List AgentVerdict → AgentType → Option ℕ
agent_breakdown [] a = none
agent_breakdown (v ∷ vs) a =
    let later = agent_breakdown vs a in
    elim later [
      | some n ↦ some n
      | none ↦ if same_agent v.agent a then some (length v.findings) else none
    ]
