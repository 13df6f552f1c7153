-- ===== src/Gate/Posting.antt =====
-- Which findings the gate posts, and what becomes of the others.
use pr_sentinel.Prelude.{
  ℕ, All, length-filter_by-none, not-In-empty, ◌+◌, ◌≤◌, ◌≡◌, ◌↔◌, ◌⊎◌, inl, inr, refl, Bool, true,
  false, List, [], ◌∷◌, ltb, length, In, In-filter_by_back, In-of_filter_by, arith,
}
use pr_sentinel.Runtime.{Float, Floats}
use pr_sentinel.Config.{Settings}
use pr_sentinel.Domain.Enums.{critical, severity_rank, auto_post, suppress}
use pr_sentinel.Domain.Models.{Finding, AgentVerdict, verdict_ok}
use pr_sentinel.Domain.Models.Security.{ConcernsSecurity, is_security-iff-ConcernsSecurity}
use pr_sentinel.Gate.Decisions.{length-failed-zero, none_failed}
use pr_sentinel.Gate.{
  GateResult, evaluate, failed_verdicts, critical_findings, is_critical_security, postable_findings,
  is_postable, clears_confidence, clears_severity, held_low_confidence, held_low_severity,
}

-- A finding that clears the bar of confidence and the bar of severity.
abbrev pub IsWorthPosting : Settings → Finding → Type 0
IsWorthPosting s f =
    (s.finding_post_confidence ≤ f.confidence)
    × (severity_rank s.post_min_severity ≤ severity_rank f.severity)

is_postable_iff : (s : Settings) (f : Finding) → (is_postable s f ≡ true) ↔ IsWorthPosting s f
unfolding is_postable clears_confidence clears_severity
is_postable_iff s f = ground arith

no_critical :
    (findings : List Finding) (f : Finding)
    → ltb 0 (length (critical_findings findings)) ≡ false
    → In f findings
    → ¬ ((f.severity ≡ critical) × ConcernsSecurity f)
unfolding critical_findings is_critical_security
no_critical findings f none_found m (severe, concern) =
    empty _
      (In-filter_by_back is_critical_security findings f m
        (ground (arith, (is_security-iff-ConcernsSecurity f).1 concern)))
      none_found
  where
    empty : (fs : List Finding) → In f fs → ltb 0 (length fs) ≡ false → ⊥
    empty [] m h = m
    empty (g ∷ gs) m h = ground arith

none_critical :
    (findings : List Finding)
    → ((f : Finding) → In f findings → ¬ ((f.severity ≡ critical) × ConcernsSecurity f))
    → length (critical_findings findings) ≡ 0
unfolding critical_findings is_critical_security
none_critical findings h =
    length-filter_by-none is_critical_security findings (λ f m t.
      h f m (ground (arith, t), (is_security-iff-ConcernsSecurity f).0 (ground (arith, t))))

none_postable :
    (s : Settings) (findings : List Finding) (f : Finding)
    → length (postable_findings s findings) ≡ 0
    → In f findings
    → ¬ IsWorthPosting s f
unfolding postable_findings
none_postable s findings f h m worth =
    not-In-empty f _ h
      (In-filter_by_back (is_postable s) findings f m ((is_postable_iff s f).1 worth))

all_unworthy :
    (s : Settings) (findings : List Finding)
    → ((f : Finding) → In f findings → ¬ IsWorthPosting s f)
    → length (postable_findings s findings) ≡ 0
unfolding postable_findings
all_unworthy s findings h =
    length-filter_by-none (is_postable s) findings (λ f m t. h f m ((is_postable_iff s f).0 t))

ltb_zero : (n : ℕ) → n ≡ 0 → ltb 0 n ≡ false
ltb_zero n h = ground arith

-- Every finding falls under exactly one of three counts that the explanation reports: posted, below
-- the confidence threshold, below the severity floor.
pub posting_counts :
    (s : Settings) (findings : List Finding)
    → length (postable_findings s findings)
        + held_low_confidence s findings
        + held_low_severity s findings
      ≡ length findings
unfolding postable_findings held_low_confidence held_low_severity is_postable
posting_counts s [] = refl
posting_counts s (f ∷ fs) = ground (arith, posting_counts s fs)

module _ (F : Floats) (s : Settings) (findings : List Finding) (verdicts : List AgentVerdict)
    (overall : Float) (exhausted is_public : Bool) where
  abbrev result : GateResult
  result = evaluate F s findings verdicts overall exhausted is_public

  postable_cases :
      (result.postable ≡ [])
      ⊎ ((result.postable ≡ postable_findings s findings)
          × (s.escalate_critical_security ≡ true
              → ltb 0 (length (critical_findings findings)) ≡ false))
  unfolding evaluate
  postable_cases = ground arith

  -- What is posted was found, is worth posting, and, with the security channel on, is no critical
  -- security finding.
  pub posted_sound :
      (f : Finding)
      → In f result.postable
      → In f findings
        × IsWorthPosting s f
        × (s.escalate_critical_security ≡ true → ¬ ((f.severity ≡ critical) × ConcernsSecurity f))
  unfolding postable_findings
  posted_sound f m = elim postable_cases [
    | inl e ↦ absurd (rw e at m)
    | inr (e, quiet) ↦
        let (found, worth) = In-of_filter_by (is_postable s) findings f (rw e at m) in
        (found, (is_postable_iff s f).0 worth, λ on. no_critical findings f (quiet on) found)
  ]

  -- When the gate posts, it posts every finding that is worth posting.
  pub posted_complete :
      (f : Finding)
      → result.decision ≡ auto_post
      → In f findings
      → IsWorthPosting s f
      → In f result.postable
  posted_complete f posts m worth = rw all_of (
      unfold postable_findings in
      In-filter_by_back (is_postable s) findings f m ((is_postable_iff s f).1 worth))
    where
      all_of : result.postable ≡ postable_findings s findings
      all_of = unfold evaluate in ground arith

  -- The gate stays quiet exactly when the budget held, every agent returned, no finding is worth
  -- posting, and the security channel is off or no finding is a critical security finding; the overall
  -- confidence has no part.
  pub suppress_iff : (result.decision ≡ suppress) ↔ (
      (exhausted ≡ false)
      × All (λ v. verdict_ok v ≡ true) verdicts
      × ((s.escalate_critical_security ≡ false)
          ⊎ ((f : Finding) → In f findings → ¬ ((f.severity ≡ critical) × ConcernsSecurity f)))
      × ((f : Finding) → In f findings → ¬ IsWorthPosting s f))
  suppress_iff = (
    λ h.
        let (on, back, security, quiet) = quiet_when.0 h in
        (
          on,
          length-failed-zero verdicts (ltb_zero _ back),
          elim security [
            | inl off ↦ inl off
            | inr none_found ↦ inr (λ f m. no_critical findings f (ltb_zero _ none_found) m)
          ],
          λ f m worth. none_postable s findings f quiet m worth,
        ),
    λ (on, back, security, unworthy). quiet_when.1 (
      on,
      none_failed verdicts back,
      elim security [
        | inl off ↦ inl off
        | inr none_found ↦ inr (none_critical findings none_found)
      ],
      all_unworthy s findings unworthy,
    ),
  )
    where
      quiet_when : (result.decision ≡ suppress) ↔ (
          (exhausted ≡ false)
          × (length (failed_verdicts verdicts) ≡ 0)
          × ((s.escalate_critical_security ≡ false) ⊎ (length (critical_findings findings) ≡ 0))
          × (length (postable_findings s findings) ≡ 0))
      quiet_when = unfold evaluate in ground arith
