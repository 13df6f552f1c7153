-- ===== src/Orchestration/Aggregator/Complete.antt =====
-- Nothing that a working agent reported is lost on the way through the aggregator.
use pr_sentinel.Prelude.{
  In-map, ℕ, ◌≡◌, ◌⊎◌, inl, inr, sym, ◌∙◌, subst, true, List, [], ◌∷◌, ◌++◌, In, In-append_left,
  In-append_right, In-sort,
}
use pr_sentinel.Runtime.{Floats, Unicode}
use pr_sentinel.Domain.Enums.{AgentType}
use pr_sentinel.Domain.Models.{Finding, AgentVerdict, verdict_ok}
use pr_sentinel.Orchestration.Clusters.{Merged, merge}
use pr_sentinel.Orchestration.Clusters.Accounts.{StandsFor, merge-accounts}
use pr_sentinel.Orchestration.Repeated.{collapse_repeated}
use pr_sentinel.Orchestration.Repeated.Folding.{collapse_repeated-accounts}
use pr_sentinel.Orchestration.Aggregator.{aggregate, reported, comes_first, findings_of, links_of}

-- From a child to the finding that stands for it, in at most two steps: one of each stage.
abbrev pub Leads : List (ℕ × ℕ) → ℕ → ℕ → Type 0
Leads links i j = (i ≡ j) ⊎ In (i, j) links ⊎ ((k : ℕ) × In (i, k) links × In (k, j) links)

In-findings_of : (m : Merged) (ms : List Merged) → In m ms → In m.finding (findings_of ms)
unfolding findings_of
In-findings_of m ms i = In-map (λ (k : Merged). k.finding) m ms i

In-links : (l : ℕ × ℕ) (m : Merged) (ms : List Merged) → In m ms → In l m.links → In l (links_of ms)
unfolding links_of
In-links l m [] i h = absurd i
In-links l m (n ∷ ms) (inl e) h =
    In-append_left l n.links _ (subst (λ (k : Merged). In l k.links) e h)
In-links l m (n ∷ ms) (inr i) h = In-append_right l n.links _ (In-links l m ms i h)

pub In-reported :
    (v : AgentVerdict) (vs : List AgentVerdict) (x : Finding)
    → In v vs
    → verdict_ok v ≡ true
    → In x v.findings
    → In x (reported vs)
unfolding reported
In-reported v [] x i k m = absurd i
In-reported v (w ∷ vs) x (inl e) k m =
    let k' : verdict_ok w ≡ true = subst (λ u. verdict_ok u ≡ true) e k in
    rw k' (In-append_left x w.findings _ (subst (λ (u : AgentVerdict). In x u.findings) e m))
In-reported v (w ∷ vs) x (inr i) k m = In-append_right x _ _ (In-reported v vs x i k m)

two_steps :
    (m n : Merged) (ms ns : List Merged) (i : ℕ)
    → StandsFor m i
    → In m ms
    → StandsFor n m.finding.id
    → In n ns
    → Leads (links_of ms ++ links_of ns) i n.finding.id
two_steps m n ms ns i (inl e) im (inl d) jn = inl (e ∙ d)
two_steps m n ms ns i (inl e) im (inr l) jn = inr (
    inl (
      subst (λ k. In (k, n.finding.id) (links_of ms ++ links_of ns)) (sym e)
        (In-append_right (m.finding.id, n.finding.id) (links_of ms) (links_of ns)
          (In-links (m.finding.id, n.finding.id) n ns jn l))))
two_steps m n ms ns i (inr l) im (inl d) jn = inr (
    inl (
      subst (λ k. In (i, k) (links_of ms ++ links_of ns)) d
        (In-append_left (i, m.finding.id) (links_of ms) (links_of ns)
          (In-links (i, m.finding.id) m ms im l))))
two_steps m n ms ns i (inr l) im (inr k) jn = inr (
    inr (
      m.finding.id,
      In-append_left (i, m.finding.id) (links_of ms) (links_of ns)
          (In-links (i, m.finding.id) m ms im l),
      In-append_right (m.finding.id, n.finding.id) (links_of ms) (links_of ns)
          (In-links (m.finding.id, n.finding.id) n ns jn k),
    ))

-- A finding of an agent that returned stands in the review, or its `merged_into` leads, in one step
-- or two, to a finding that does.
pub aggregate_complete :
    (F : Floats) (U : Unicode) (order : List AgentType → List AgentType) (threshold : ℕ)
    (verdicts : List AgentVerdict) (v : AgentVerdict) (x : Finding)
    → In v verdicts
    → verdict_ok v ≡ true
    → In x v.findings
    → (y : Finding) × In y (aggregate F U order threshold verdicts).findings
      × Leads (aggregate F U order threshold verdicts).links x.id y.id
unfolding aggregate
aggregate_complete F U order threshold verdicts v x i k h =
    let merged = merge F U order (reported verdicts) in
    let repeated = collapse_repeated threshold (findings_of merged) in
    let (m, im, sm) =
      merge-accounts F U order (reported verdicts) x (In-reported v verdicts x i k h) in
    let (n, jn, sn) =
      collapse_repeated-accounts threshold (findings_of merged) m.finding
        (In-findings_of m merged im) in
    (
      n.finding,
      In-sort comes_first n.finding (findings_of repeated) (In-findings_of n repeated jn),
      two_steps m n merged repeated x.id sm im sn jn,
    )
