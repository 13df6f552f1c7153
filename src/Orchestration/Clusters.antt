-- ===== src/Orchestration/Clusters.antt =====
-- src/pr_sentinel/orchestration/aggregator.py: findings that describe one defect become one. The
-- objects are shared with the verdicts, so a write of `merged_into` is kept as a link, from the
-- finding that is merged to the finding that stands for it. The order in which Python walks a set
-- of agents is the argument `order`.
pub mod Members
pub mod Accounts
pub mod Confidence
pub mod Concerns
use pr_sentinel.Prelude.{
  ℕ, ℤ, int_eq, ◌+◌, ◌-◌, ◌*◌, ◌≤◌, min, max, ◌≡◌, Bool, true, false, not, ◌&&◌, ◌||◌, Option, none,
  some, List, [], ◌∷◌, ◌++◌, map, Text, codes, text_eq, text_leb, any, filter_by, length, take, ltb,
  leb, ◌==◌, sort, max_of, unique, if◌then◌else◌,
}
use pr_sentinel.Runtime.{Float, Floats, Unicode}
use pr_sentinel.Domain.Enums.{
  AgentType, all_agents, agent_name, same_agent, Category, all_categories, category_name,
  same_category, severity_rank,
}
use pr_sentinel.Domain.Models.{Evidence, Finding}
use pr_sentinel.Orchestration.Titles.{same_issue}

-- (SEVERITY_ORDER.index(severity), confidence), compared as Python compares tuples.
unfoldable pub weaker : Finding → Finding → Bool
weaker a b =
    ltb (severity_rank a.severity) (severity_rank b.severity)
    || (severity_rank a.severity == severity_rank b.severity && ltb a.confidence b.confidence)

-- The loop over the clusters, with its `else`.
unfoldable pub place :
    (Finding → Finding → Bool) → Finding → List (List Finding) → List (List Finding)
place same f [] = (f ∷ []) ∷ []
place same f (c ∷ cs) = if any (same f) c then (c ++ f ∷ []) ∷ cs else c ∷ place same f cs

unfoldable pub cluster_from :
    (Finding → Finding → Bool) → List (List Finding) → List Finding → List (List Finding)
unfolding place
cluster_from same clusters [] = clusters
cluster_from same clusters (f ∷ fs) = cluster_from same (place same f clusters) fs

-- The set of the agents of a cluster, in the order of ALL_AGENTS.
unfoldable pub agents_of : List Finding → List AgentType
agents_of cluster = filter_by (λ a. any (λ f. same_agent f.agent a) cluster) all_agents

unfoldable pub categories_of : List Finding → List Category
categories_of cluster =
    filter_by (λ c. any (λ f. same_category f.category c) cluster) all_categories

-- max(f.confidence for f in cluster if f.agent is agent)
unfoldable pub best_of : AgentType → List Finding → Float
best_of agent [] = 0
best_of agent (f ∷ fs) =
    if same_agent f.agent agent then max f.confidence (best_of agent fs) else best_of agent fs

unfoldable pub doubt : Floats → List Finding → List AgentType → Float → Float
doubt F cluster [] product = product
doubt F cluster (a ∷ agents) product =
    doubt F cluster agents (F.mul product (F.co (best_of a cluster)))

-- Noisy-OR over the agents, when there is more than one.
unfoldable pub merged_confidence :
    Floats → (List AgentType → List AgentType) → Finding → List Finding → Float
merged_confidence F order primary cluster =
    if ltb 1 (length (agents_of cluster))
    then min F.c99 (F.co (doubt F cluster (order (agents_of cluster)) F.one))
    else primary.confidence

unfoldable pub min_start : ℕ → List Finding → ℕ
min_start n [] = n
min_start n (f ∷ fs) = min_start (min n f.line_start) fs

unfoldable pub max_end : ℕ → List Finding → ℕ
max_end n [] = n
max_end n (f ∷ fs) = max_end (max n f.line_end) fs

same_line : Option ℤ → Option ℤ → Bool
unfolding int_eq
same_line none none = true
same_line (some a) (some b) = int_eq a b
same_line _ _ = false

-- The key of an evidence: path, first line, and 80 characters of the excerpt.
same_evidence : Evidence → Evidence → Bool
unfolding same_line
same_evidence a b =
    text_eq a.file_path b.file_path
    && same_line a.line_start b.line_start
    && text_eq (take 80 a.excerpt) (take 80 b.excerpt)

all_evidence : List Finding → List Evidence
all_evidence [] = []
all_evidence (f ∷ fs) = f.evidence ++ all_evidence fs

unfoldable pub dedupe_evidence : List Finding → List Evidence
unfolding same_evidence all_evidence unique
dedupe_evidence cluster = take 6 (unique same_evidence (all_evidence cluster))

concat_texts : List Text → Text
concat_texts [] = []
concat_texts (t ∷ ts) = t ++ concat_texts ts

unfoldable pub merge_bodies : Finding → List Finding → Text
unfolding concat_texts unique text_eq
merge_bodies primary cluster =
    primary.body
    ++ concat_texts (
        unique text_eq (
          map
            (λ f.
              codes "\n\n_Also raised by the "
              ++ agent_name f.agent
              ++ codes " agent:_ "
              ++ f.title)
            (filter_by (λ f. not (f.id == primary.id) && not (same_agent f.agent primary.agent))
              cluster)))

-- A finding that stands for others, and the writes of `merged_into`: child, parent.
pub record Merged : Type 0 where
  pub finding : Finding
  pub links : List (ℕ × ℕ)

unfoldable pub links_to : ℕ → List Finding → List (ℕ × ℕ)
links_to parent [] = []
links_to parent (f ∷ fs) =
    if f.id == parent then links_to parent fs else (f.id, parent) ∷ links_to parent fs

unfoldable pub merged_finding :
    Floats → (List AgentType → List AgentType) → Finding → List Finding → Finding
merged_finding F order primary cluster = record primary {
  confidence = merged_confidence F order primary cluster;
  agreeing = sort text_leb (map agent_name (agents_of cluster));
  categories = sort text_leb (map category_name (categories_of cluster));
  line_start = min_start primary.line_start cluster;
  line_end = max_end primary.line_end cluster;
  evidence = dedupe_evidence cluster;
  body = merge_bodies primary cluster;
}

-- _collapse of the cluster f ∷ fs; no cluster is empty.
unfoldable pub collapse :
    Floats → (List AgentType → List AgentType) → Finding → List Finding → Merged
collapse F order f [] = record { finding = f; links = [] }
collapse F order f (g ∷ fs) =
    let primary = max_of weaker f (g ∷ fs) in
    record {
      finding = merged_finding F order primary (f ∷ g ∷ fs);
      links = links_to primary.id (f ∷ g ∷ fs);
    }

unfoldable pub collapse_all :
    Floats → (List AgentType → List AgentType) → List (List Finding) → List Merged
collapse_all F order [] = []
collapse_all F order ([] ∷ cs) = collapse_all F order cs
collapse_all F order ((f ∷ fs) ∷ cs) = collapse F order f fs ∷ collapse_all F order cs

-- _merge
unfoldable pub merge :
    Floats → Unicode → (List AgentType → List AgentType) → List Finding → List Merged
merge F U order findings = collapse_all F order (cluster_from (same_issue F U) [] findings)
