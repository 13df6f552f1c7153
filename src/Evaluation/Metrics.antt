-- ===== src/Evaluation/Metrics.antt =====
-- src/pr_sentinel/evaluation/metrics.py: the buckets of score, the calibration and its error. The
-- dictionaries that as_dict prints are left out.
pub mod Totals
pub mod Found
use pr_sentinel.Prelude.{
  ℕ, zero, ◌+◌, ◌*◌, suc, Bool, not, ◌&&◌, ◌==◌, Option, none, some, List, [], ◌∷◌, Text, text_eq,
  any, ltb, if◌then◌else◌,
}
use pr_sentinel.Runtime.{Float, Floats}
use pr_sentinel.Domain.Enums.{agent_name, Category, Family, family_of, same_family}
use pr_sentinel.Evaluation.Labels.{Label}
use pr_sentinel.Evaluation.Matching.{Kind, hit, false_positive, unlabelled, allowed, Match, is_hit}

pub record CaseResult : Type 0 where
  pub case_id : Text
  pub matches : List Match
  pub missed : List Label
  pub decision : Text
  pub expected_decision : Option Text
  pub confidence : Float
  pub cost_usd : Float
  pub duration_ms : ℕ
  pub failed_agents : List Text
  pub error : Option Text

unfoldable pub decision_correct : CaseResult → Option Bool
decision_correct r = elim r.expected_decision [ none ↦ none | some d ↦ some (text_eq r.decision d) ]

pub record Bucket : Type 0 where
  pub hits : ℕ
  pub allowed : ℕ
  pub labels_found : ℕ
  pub concerns : ℕ
  pub false_positives : ℕ
  pub unlabelled : ℕ
  pub misses : ℕ

-- Bucket()
abbrev pub empty_bucket : Bucket
empty_bucket = record {
  hits = 0;
  allowed = 0;
  labels_found = 0;
  concerns = 0;
  false_positives = 0;
  unlabelled = 0;
  misses = 0;
}

-- a / b if b else 0.0
unfoldable pub ratio_or_zero : Floats → ℕ → ℕ → Float
ratio_or_zero F a zero = 0
ratio_or_zero F a (suc b) = F.ratio a (suc b)

module _ (F : Floats) (b : Bucket) where
  unfoldable pub precision_strict : Float
  unfolding ratio_or_zero
  precision_strict = ratio_or_zero F b.hits (b.hits + b.false_positives + b.unlabelled)

  unfoldable pub precision_lenient : Float
  unfolding ratio_or_zero
  precision_lenient = ratio_or_zero F b.hits (b.hits + b.false_positives)

  unfoldable pub recall : Float
  unfolding ratio_or_zero
  recall = ratio_or_zero F b.labels_found (b.labels_found + b.misses)

  -- Twice a float is exact.
  pub f1 : Float
  unfolding precision_strict recall
  f1 =
      let p = precision_strict in
      let r = recall in if ltb 0 (F.add p r) then F.div (F.mul (2 * p) r) (F.add p r) else 0

  pub duplicate_rate : Float
  unfolding ratio_or_zero
  duplicate_rate = ratio_or_zero F b.hits b.concerns

-- The buckets of the agents, by name.
abbrev pub Buckets : Type 0
Buckets = List (Text × Bucket)

-- by_agent.setdefault(agent, Bucket()), changed in place.
unfoldable pub change_bucket : (Bucket → Bucket) → Text → Buckets → Buckets
change_bucket f agent [] = (agent, f empty_bucket) ∷ []
change_bucket f agent ((name, b) ∷ rest) =
    let later = change_bucket f agent rest in
    if text_eq name agent then (name, f b) ∷ rest else (name, b) ∷ later

-- What one result of a case has seen: labels, labels with a family, and the labels of each agent.
pub record Seen : Type 0 where
  pub labels : List ℕ
  pub concerns : List (ℕ × Family)
  pub per_agent : List (Text × ℕ)

pub record Tally : Type 0 where
  pub overall : Bucket
  pub by_agent : Buckets

has_label : Seen → ℕ → Bool
has_label s l = any (λ x. x == l) s.labels

has_concern : Seen → ℕ → Family → Bool
has_concern s l f = any (λ c. c.0 == l && same_family c.1 f) s.concerns

has_for_agent : Seen → Text → ℕ → Bool
has_for_agent s agent l = any (λ p. text_eq p.0 agent && p.1 == l) s.per_agent

-- The body of `for lab in match.labels`.
unfoldable pub count_label : Text → Category → Label → Seen × Tally → Seen × Tally
unfolding has_label has_concern has_for_agent
count_label agent category l (s, t) =
    let family = family_of category in
    let new_label = not (has_label s l.ref) in
    let new_concern = not (has_concern s l.ref family) in
    let new_for_agent = not (has_for_agent s agent l.ref) in
    (
      record {
        labels = if new_label then l.ref ∷ s.labels else s.labels;
        concerns = if new_concern then (l.ref, family) ∷ s.concerns else s.concerns;
        per_agent = if new_for_agent then (agent, l.ref) ∷ s.per_agent else s.per_agent;
      },
      record {
        overall = record t.overall {
          labels_found = t.overall.labels_found + (if new_label then 1 else 0);
          concerns = t.overall.concerns + (if new_concern then 1 else 0);
        };
        by_agent =
            change_bucket
              (λ b. record b { labels_found = b.labels_found + (if new_for_agent then 1 else 0) })
              agent t.by_agent;
      },
    )

unfoldable pub count_labels : Text → Category → List Label → Seen × Tally → Seen × Tally
count_labels agent category [] st = st
count_labels agent category (l ∷ ls) st =
    count_labels agent category ls (count_label agent category l st)

unfoldable pub add_kind : Kind → Bucket → Bucket
add_kind hit b = record b { hits = b.hits + 1 }
add_kind false_positive b = record b { false_positives = b.false_positives + 1 }
add_kind allowed b = record b { allowed = b.allowed + 1 }
add_kind unlabelled b = record b { unlabelled = b.unlabelled + 1 }

-- The body of `for match in result.matches`.
unfoldable pub count_match : Match → Seen × Tally → Seen × Tally
count_match m (s, t) =
    let agent = agent_name m.finding.agent in
    let counted : Tally = record {
      overall = add_kind m.kind t.overall;
      by_agent = change_bucket (add_kind m.kind) agent t.by_agent;
    } in
    if is_hit m.kind
    then count_labels agent m.finding.category m.labels (s, counted)
    else (s, counted)

unfoldable pub count_matches : List Match → Seen × Tally → Seen × Tally
count_matches [] st = st
count_matches (m ∷ ms) st = count_matches ms (count_match m st)

abbrev pub add_miss : Bucket → Bucket
add_miss b = record b { misses = b.misses + 1 }

-- `if label.agent` is false of an empty name too.
miss_of_agent : Option Text → Buckets → Buckets
miss_of_agent none bs = bs
miss_of_agent (some []) bs = bs
miss_of_agent (some (c ∷ s)) bs = change_bucket add_miss (c ∷ s) bs

unfoldable pub count_missed : List Label → Tally → Tally
unfolding miss_of_agent
count_missed [] t = t
count_missed (l ∷ ls) t =
    count_missed ls
      (record { overall = add_miss t.overall; by_agent = miss_of_agent l.agent t.by_agent })

abbrev pub nothing_seen : Seen
nothing_seen = record { labels = []; concerns = []; per_agent = [] }

-- The body of `for result in results`.
unfoldable pub count_result : CaseResult → Tally → Tally
count_result r t = count_missed r.missed (count_matches r.matches (nothing_seen, t)).1

unfoldable pub count_results : List CaseResult → Tally → Tally
count_results [] t = t
count_results (r ∷ rs) t = count_results rs (count_result r t)
