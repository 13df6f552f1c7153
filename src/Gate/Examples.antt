-- ===== src/Gate/Examples.antt =====
-- The gate on concrete reviews.
use pr_sentinel.Prelude.{
  ◌≤◌, ◌<◌, ◌≡◌, ◌↔◌, ◌⊎◌, inl, inr, refl, true, false, some, List, [], ◌∷◌, length, All, In, arith,
}
use pr_sentinel.Runtime.Samples.{thousandths}
use pr_sentinel.Domain.Enums.{
  same_agent, security, correctness, authz, logic, critical, major, info, ok, auto_post, escalate,
  suppress, critical_security,
}
use pr_sentinel.Domain.Models.{is_security, Finding, AgentVerdict, verdict_ok}
use pr_sentinel.Domain.Models.Security.{ConcernsSecurity}
use pr_sentinel.Domain.Samples.{sample_finding, sample_verdict, sample_settings}
use pr_sentinel.Gate.{
  clears_confidence, clears_severity, is_critical_security, is_postable, GateResult, evaluate,
  failed_verdicts, critical_findings, postable_findings,
}
use pr_sentinel.Gate.Decisions.{auto_post_requires, critical_security_first}
use pr_sentinel.Gate.Posting.{IsWorthPosting, posted_sound, posted_complete, suppress_iff}

abbrev sure : Finding
sure = sample_finding 1 correctness logic major 3 5 900

abbrev unsure : Finding
unsure = sample_finding 2 correctness logic major 7 7 400

abbrev trifle : Finding
trifle = sample_finding 3 correctness logic info 9 9 900

abbrev hole : Finding
hole = sample_finding 4 security authz critical 3 5 300

abbrev panel : List AgentVerdict
panel = sample_verdict correctness ok sure ∷ []

abbrev calm : List Finding
calm = sure ∷ unsure ∷ trifle ∷ []

abbrev review : List Finding → GateResult
review findings = evaluate thousandths sample_settings findings panel 800 false true

test_posts : (review calm).postable ≡ sure ∷ []
unfolding evaluate postable_findings failed_verdicts verdict_ok critical_findings
    is_critical_security is_postable clears_confidence clears_severity
test_posts = refl

posts : (review calm).decision ≡ auto_post
unfolding evaluate failed_verdicts verdict_ok critical_findings is_critical_security
    postable_findings is_postable clears_confidence clears_severity
posts = refl

test_routes : (review (hole ∷ calm)).decision ≡ escalate
unfolding evaluate failed_verdicts verdict_ok critical_findings is_critical_security is_security
    same_agent
test_routes = refl

panel_back : All (λ v. verdict_ok v ≡ true) panel
unfolding verdict_ok
panel_back = (refl, tt)

auto_post_requires_example :
    (false ≡ false)
    × All (λ v. verdict_ok v ≡ true) panel
    × (750 ≤ 800)
    × (0 < length (review calm).postable)
auto_post_requires_example =
    auto_post_requires thousandths sample_settings calm panel 800 false true posts

critical_security_first_example :
    ((review (sure ∷ hole ∷ [])).decision ≡ escalate)
    × ((review (sure ∷ hole ∷ [])).reason ≡ some critical_security)
    × ((review (sure ∷ hole ∷ [])).priority ≡ 1)
    × ((review (sure ∷ hole ∷ [])).postable ≡ [])
critical_security_first_example =
    critical_security_first thousandths sample_settings (sure ∷ hole ∷ []) panel 800 false true hole
      refl refl panel_back (inr (inl refl)) refl (inl refl)

sure_posted : In sure (review calm).postable
unfolding evaluate postable_findings failed_verdicts verdict_ok critical_findings
    is_critical_security is_postable clears_confidence clears_severity
sure_posted = inl refl

posted_sound_example :
    In sure calm
    × IsWorthPosting sample_settings sure
    × (true ≡ true → ¬ ((major ≡ critical) × ConcernsSecurity sure))
posted_sound_example =
    posted_sound thousandths sample_settings calm panel 800 false true sure sure_posted

posted_complete_example : In sure (review calm).postable
posted_complete_example =
    posted_complete thousandths sample_settings calm panel 800 false true sure posts (inl refl)
      (omega arith, omega arith)

suppress_iff_example : ((review (unsure ∷ [])).decision ≡ suppress) ↔ (
    (false ≡ false)
    × All (λ v. verdict_ok v ≡ true) panel
    × ((true ≡ false)
        ⊎ ((f : Finding) → In f (unsure ∷ []) → ¬ ((f.severity ≡ critical) × ConcernsSecurity f)))
    × ((f : Finding) → In f (unsure ∷ []) → ¬ IsWorthPosting sample_settings f))
suppress_iff_example = suppress_iff thousandths sample_settings (unsure ∷ []) panel 800 false true
