-- ===== src/Orchestration/Clusters/Confidence.antt =====
-- Noisy-OR: how sure the panel is of a finding that several agents raised.
use pr_sentinel.Prelude.{
  ◌*◌, ◌≤◌, ◌<◌, min, ◌≡◌, inl, inr, refl, sym, subst, List, [], ◌∷◌, any, In, All, lt→ltb, length,
  arith, In-filter_by_back, any_complete,
}
use pr_sentinel.Runtime.{Float, Floats, IsRounded}
use pr_sentinel.Domain.Enums.{
  AgentType, security, correctness, tests, docs, all_agents, same_agent, same_agent_iff,
}
use pr_sentinel.Domain.Models.{Finding}
use pr_sentinel.Orchestration.Clusters.{agents_of, best_of, doubt, merged_confidence}

best_of-bounds :
    (one : Float) (a : AgentType) (fs : List Finding)
    → All (λ f. f.confidence ≤ one) fs
    → best_of a fs ≤ one
unfolding best_of
best_of-bounds one a [] h = omega arith
best_of-bounds one a (f ∷ fs) h = ground (arith, best_of-bounds one a fs h.1)

best_of-member : (f : Finding) (fs : List Finding) → In f fs → f.confidence ≤ best_of f.agent fs
unfolding best_of
best_of-member f [] m = absurd m
best_of-member f (g ∷ fs) (inl e) =
    subst (λ (k : Finding). f.confidence ≤ best_of f.agent (k ∷ fs)) e
      (rw (best_of, (same_agent_iff f.agent f.agent).1 refl) (omega arith))
best_of-member f (g ∷ fs) (inr m) = ground (arith, best_of-member f fs m)

agents_of-member : (f : Finding) (fs : List Finding) → In f fs → In f.agent (agents_of fs)
unfolding agents_of
agents_of-member f fs m =
    In-filter_by_back (λ a. any (λ g. same_agent g.agent a) fs) all_agents f.agent (listed f.agent)
      (any_complete (λ g. same_agent g.agent f.agent) fs f m
        ((same_agent_iff f.agent f.agent).1 refl))
  where
    listed : (a : AgentType) → In a all_agents
    listed security = inl refl
    listed correctness = inr (inl refl)
    listed tests = inr (inr (inl refl))
    listed docs = inr (inr (inr (inl refl)))

module _ (F : Floats) (R : IsRounded F) (cluster : List Finding) where
  doubt_le : (agents : List AgentType) (p : Float) → p ≤ F.one → doubt F cluster agents p ≤ p
  unfolding doubt
  doubt_le [] p h = omega arith
  doubt_le (a ∷ agents) p h =
      let step : F.mul p (F.co (best_of a cluster)) ≤ p =
        R.mul_le_left p (F.co (best_of a cluster)) (R.co_le (best_of a cluster)) in
      omega
        (arith, doubt_le agents (F.mul p (F.co (best_of a cluster))) (omega (arith, step, h)), step)

  -- Each agent that is counted leaves at most its own doubt.
  doubt_le_one :
      (agents : List AgentType) (p : Float) (a : AgentType)
      → p ≤ F.one
      → In a agents
      → doubt F cluster agents p ≤ F.co (best_of a cluster)
  unfolding doubt
  doubt_le_one [] p a h m = absurd m
  doubt_le_one (b ∷ agents) p a h (inl e) =
      let q = F.mul p (F.co (best_of b cluster)) in
      let left : q ≤ p = R.mul_le_left p (F.co (best_of b cluster)) (R.co_le (best_of b cluster)) in
      let right : q ≤ F.co (best_of b cluster) = R.mul_le_right p (F.co (best_of b cluster)) h in
      subst (λ k. doubt F cluster (b ∷ agents) p ≤ F.co (best_of k cluster)) (sym e)
        (omega (arith, doubt_le agents q (omega (arith, left, h)), right))
  doubt_le_one (b ∷ agents) p a h (inr m) =
      let q = F.mul p (F.co (best_of b cluster)) in
      let left : q ≤ p = R.mul_le_left p (F.co (best_of b cluster)) (R.co_le (best_of b cluster)) in
      doubt_le_one agents q a (omega (arith, left, h)) m

-- Where several agents raised a cluster, and the walk over the set of agents leaves none out, the
-- merged confidence is at most 0.99, and at least the confidence of each finding that is one half or
-- more, up to that cap.
pub merged_confidence-bounds :
    (F : Floats) (R : IsRounded F) (order : List AgentType → List AgentType) (primary : Finding)
    (cluster : List Finding)
    → ((a : AgentType) (agents : List AgentType) → In a agents → In a (order agents))
    → All (λ f. f.confidence ≤ F.one) cluster
    → 1 < length (agents_of cluster)
    → (merged_confidence F order primary cluster ≤ F.c99)
      × ((f : Finding)
          → In f cluster
          → F.one ≤ 2 * f.confidence
          → min F.c99 f.confidence ≤ merged_confidence F order primary cluster)
unfolding merged_confidence
merged_confidence-bounds F R order primary cluster all_walked bounded several =
    rw (lt→ltb 1 (length (agents_of cluster)) several) (
      omega arith,
      λ f m half.
          let d = doubt F cluster (order (agents_of cluster)) F.one in
          let b = best_of f.agent cluster in
          let d_le : d ≤ F.co b =
            doubt_le_one F R cluster (order (agents_of cluster)) F.one f.agent (omega arith)
              (all_walked f.agent (agents_of cluster) (agents_of-member f cluster m)) in
          let f_le : f.confidence ≤ b = best_of-member f cluster m in
          let b_le : b ≤ F.one = best_of-bounds F.one f.agent cluster bounded in
          let exact : F.co (F.co b) ≡ b = R.co_co b (omega (arith, f_le, half)) b_le in
          let high : F.co (F.co b) ≤ F.co d = R.co_anti d (F.co b) d_le (R.co_le b) in
          omega (arith, exact, high, f_le),
    )
