-- ===== src/Gate/Decisions.antt =====
-- When the gate decides what.
use pr_sentinel.Prelude.{
  ◌≤◌, ◌<◌, ◌≡◌, ◌≢◌, ◌↔◌, refl, Bool, true, false, none, some, List, [], ◌∷◌, ltb, length, All, In,
  In-filter_by_back, arith,
}
use pr_sentinel.Runtime.{Float, Floats}
use pr_sentinel.Config.{Settings}
use pr_sentinel.Domain.Enums.{critical, auto_post, escalate, critical_security}
use pr_sentinel.Domain.Models.{Finding, AgentVerdict, verdict_ok}
use pr_sentinel.Domain.Models.Security.{ConcernsSecurity, is_security-iff-ConcernsSecurity}
use pr_sentinel.Gate.{
  GateResult, evaluate, failed_verdicts, critical_findings, is_critical_security,
}

pub length-failed-zero :
    (verdicts : List AgentVerdict)
    → ltb 0 (length (failed_verdicts verdicts)) ≡ false
    → All (λ v. verdict_ok v ≡ true) verdicts
unfolding failed_verdicts
length-failed-zero [] h = tt
length-failed-zero (v ∷ vs) h = ground (arith, length-failed-zero vs)

pub none_failed :
    (verdicts : List AgentVerdict)
    → All (λ v. verdict_ok v ≡ true) verdicts
    → length (failed_verdicts verdicts) ≡ 0
unfolding failed_verdicts
none_failed [] h = refl
none_failed (v ∷ vs) h = ground (arith, none_failed vs h.1)

pos_of_In : {A : Type 0} (x : A) (xs : List A) → In x xs → 0 < length xs
pos_of_In x [] m = absurd m
pos_of_In x (y ∷ ys) m = omega arith

pub critical-found :
    (findings : List Finding) (f : Finding)
    → In f findings
    → f.severity ≡ critical
    → ConcernsSecurity f
    → 0 < length (critical_findings findings)
unfolding critical_findings is_critical_security
critical-found findings f m severe concern = pos_of_In f _ (
    In-filter_by_back is_critical_security findings f m
      (ground (arith, (is_security-iff-ConcernsSecurity f).1 concern)))

module _ (F : Floats) (s : Settings) (findings : List Finding) (verdicts : List AgentVerdict)
    (overall : Float) (exhausted is_public : Bool) where
  abbrev result : GateResult
  result = evaluate F s findings verdicts overall exhausted is_public

  -- What holds when a review is posted: the budget held, every agent returned, the review as a
  -- whole is confident, and there is something to say.
  pub auto_post_requires :
      result.decision ≡ auto_post
      → (exhausted ≡ false)
        × All (λ v. verdict_ok v ≡ true) verdicts
        × (s.auto_post_confidence ≤ overall)
        × (0 < length result.postable)
  unfolding evaluate
  auto_post_requires h = ground (arith, length-failed-zero verdicts)

  -- The gate gives a reason exactly when the review goes to a person, and then it posts nothing.
  pub escalate-iff-reason :
      ((result.decision ≡ escalate) ↔ (result.reason ≢ none))
      × (result.decision ≢ auto_post → result.postable ≡ [])
  unfolding evaluate
  escalate-iff-reason = ((ground arith, ground arith), ground arith)

  -- With the security channel on (escalate_critical_security), the budget left and every agent back, a
  -- review with a critical security finding goes to that channel at the first priority and posts
  -- nothing, whatever its confidence.
  pub critical_security_first :
      (f : Finding)
      → s.escalate_critical_security ≡ true
      → exhausted ≡ false
      → All (λ v. verdict_ok v ≡ true) verdicts
      → In f findings
      → f.severity ≡ critical
      → ConcernsSecurity f
      → (result.decision ≡ escalate)
        × (result.reason ≡ some critical_security)
        × (result.priority ≡ 1)
        × (result.postable ≡ [])
  unfolding evaluate
  critical_security_first f on left back member severe concern =
      ground (arith, none_failed verdicts back, critical-found findings f member severe concern)
