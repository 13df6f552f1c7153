-- ===== src/Orchestration/Pipeline/Disclosure.antt =====
-- What a review can write to GitHub, and how urgent a person's item is.
use pr_sentinel.Prelude.{
  ℕ, ◌≡◌, ◌⊎◌, inl, inr, refl, ap, ◌∙◌, subst, Bool, true, false, some, List, [], ◌∷◌, In,
  In-append, arith, if◌then◌else◌,
}
use pr_sentinel.Runtime.{Float, Floats}
use pr_sentinel.Config.{Settings}
use pr_sentinel.Database.{Database}
use pr_sentinel.Domain.Enums.{critical, Decision, auto_post, escalate, suppress, EscalationReason}
use pr_sentinel.Domain.Models.{Finding, AgentVerdict, PullRequestContext, ReviewOutcome, WebhookJob}
use pr_sentinel.Domain.Models.Security.{ConcernsSecurity}
use pr_sentinel.Gate.{evaluate}
use pr_sentinel.Gate.Posting.{IsWorthPosting, posted_sound}
use pr_sentinel.Orchestration.Pipeline.{
  Surroundings, Sending, World, NewIds, hitl_priority, conclude, run, act, review_pull_request,
}
use pr_sentinel.Forge.Github.{Comment, inline_review, summary_review}
use pr_sentinel.Orchestration.Pipeline.View.{publishes, comment_of}
use pr_sentinel.Orchestration.Pipeline.Fate.{act_refines-fate}

-- A finding that may stand in public: worth posting, and no critical security finding while those are
-- to be kept for the security channel.
abbrev pub IsPublic : Settings → Finding → Type 0
IsPublic s f =
    IsWorthPosting s f
    × (s.escalate_critical_security ≡ true → ¬ ((f.severity ≡ critical) × ConcernsSecurity f))

-- The priority that _act gives an item is the one that the gate decided on, for each of the gate's
-- reasons.
pub hitl_priority-evaluate :
    (F : Floats) (s : Settings) (findings : List Finding) (verdicts : List AgentVerdict)
    (overall : Float) (exhausted is_public : Bool) (reason : EscalationReason)
    → (evaluate F s findings verdicts overall exhausted is_public).reason ≡ some reason
    → hitl_priority reason ≡ (evaluate F s findings verdicts overall exhausted is_public).priority
unfolding evaluate hitl_priority
hitl_priority-evaluate F s findings verdicts overall exhausted is_public reason h = ground arith

publishes-posts :
    (post : Bool) (sending : Sending) (fs : List Finding) (d : Decision)
    → publishes post sending fs d ≡ true
    → post ≡ true
publishes-posts true sending fs d h = refl
publishes-posts false sending fs auto_post h = h
publishes-posts false sending fs escalate h = absurd (ground (arith, h))
publishes-posts false sending fs suppress h = absurd (ground (arith, h))

comment_of-findings :
    (E : Surroundings) (pr : PullRequestContext) (id : ℕ) (sending : Sending) (o : ReviewOutcome)
    → (comment_of E pr id sending o).findings ≡ o.postable
unfolding inline_review summary_review
comment_of-findings E pr id sending o = ground arith

In-if : (b : Bool) (c d : Comment) → In c (if b then d ∷ [] else []) → (b ≡ true) × (c ≡ d)
In-if true c d (inl e) = (refl, e)
In-if true c d (inr m) = absurd m
In-if false c d m = absurd m

conclude-IsPublic :
    (E : Surroundings) (pr : PullRequestContext) (id : ℕ) (verdicts : List AgentVerdict)
    (exhausted : Bool) (f : Finding)
    → In f (conclude E pr id verdicts exhausted).postable
    → IsPublic E.settings f
unfolding conclude
conclude-IsPublic E pr id verdicts exhausted f m =
    let (found, worth, quiet) = posted_sound E.floats E.settings _ verdicts _ _ _ f m in
    (worth, quiet)

run-IsPublic :
    (E : Surroundings) (pr : PullRequestContext) (id : ℕ) (db : Database) (f : Finding)
    → In f (run E pr id db).1.postable
    → IsPublic E.settings f
unfolding run
run-IsPublic E pr id db f m = conclude-IsPublic E pr id _ _ f m

act_comments :
    (E : Surroundings) (pr : PullRequestContext) (id : ℕ) (post : Bool) (sending : Sending)
    (o : ReviewOutcome) (w : World) (c : Comment)
    → In c (act E pr id post sending o w).0.comments
    → In c w.comments ⊎ ((post ≡ true) × (c.findings ≡ o.postable))
act_comments E pr id post sending o w c m =
    let shown = ap (λ v. v.comments) (act_refines-fate E pr id o w post sending) in
    elim (In-append c
      (if publishes post sending o.postable o.decision
        then comment_of E pr id sending o ∷ []
        else [])
      w.comments (subst (In c) shown m)) [
        | inr old ↦ inl old
        | inl new ↦
            let (sent, same) =
              In-if (publishes post sending o.postable o.decision) c (comment_of E pr id sending o)
                new in
            inr (
              publishes-posts post sending o.postable o.decision sent,
              ap (λ x. x.findings) same ∙ comment_of-findings E pr id sending o,
            )
      ]

-- Whatever the agents report, the database held and the sending does: a review that was not on GitHub
-- before review_pull_request is there only if it is no dry run, and each of its findings clears both
-- bars and is, with the security channel on, no critical security finding.
pub review_discloses_nothing :
    (E : Surroundings) (new : NewIds) (pr : PullRequestContext) (post : Bool) (sending : Sending)
    (job : WebhookJob) (w : World) (c : Comment)
    → In c (review_pull_request E new pr post sending job w).0.comments
    → In c w.comments ⊎ ((post ≡ true) × ((f : Finding) → In f c.findings → IsPublic E.settings f))
unfolding review_pull_request
review_discloses_nothing E new pr post sending job w c m =
    elim (act_comments E pr _ post sending _ _ c m) [
      | inl old ↦ inl old
      | inr (on, same) ↦ inr (on, λ f i. run-IsPublic E pr _ _ f (subst (In f) same i))
    ]
