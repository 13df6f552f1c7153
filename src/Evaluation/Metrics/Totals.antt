-- ===== src/Evaluation/Metrics/Totals.antt =====
-- score counts every match once, in the whole and under its agent.
use pr_sentinel.Prelude.{
  ℕ, ◌+◌, ◌≡◌, refl, ap, subst, inl, inr, ◌∙◌, Bool, true, false, Option, none, some, List, [], ◌∷◌,
  ◌++◌, Text, filter_by, length, Bool-cases, if◌then◌else◌, sort, insert_sorted, text_leb, arith,
}
use pr_sentinel.Runtime.{Floats}
use pr_sentinel.Domain.Enums.{agent_name, Category}
use pr_sentinel.Evaluation.Labels.{Label}
use pr_sentinel.Evaluation.Matching.{Kind, hit, false_positive, unlabelled, allowed, Match, is_hit}
use pr_sentinel.Evaluation.Metrics.{
  Bucket, Buckets, empty_bucket, Tally, Seen, CaseResult, change_bucket, count_label, count_labels,
  add_kind, count_match, count_matches, add_miss, miss_of_agent, count_missed, nothing_seen,
  count_result, count_results,
}
use pr_sentinel.Evaluation.Calibration.{all_matches, score}

-- The count of a kind in a bucket.
abbrev pub of_kind : Kind → Bucket → ℕ
of_kind hit b = b.hits
of_kind false_positive b = b.false_positives
of_kind allowed b = b.allowed
of_kind unlabelled b = b.unlabelled

abbrev pub same_kind : Kind → Kind → Bool
same_kind hit hit = true
same_kind false_positive false_positive = true
same_kind allowed allowed = true
same_kind unlabelled unlabelled = true
same_kind _ _ = false

-- How many of the matches are of a kind.
abbrev pub number_of : Kind → List Match → ℕ
number_of k ms = length (filter_by (λ m. same_kind k m.kind) ms)

-- The sum of a count over the agents.
abbrev pub over_agents : (Bucket → ℕ) → Buckets → ℕ
over_agents g [] = 0
over_agents g ((name, b) ∷ bs) = g b + over_agents g bs

change_bucket-total :
    (g : Bucket → ℕ) (f : Bucket → Bucket) (n : ℕ)
    → g empty_bucket ≡ 0
    → ((b : Bucket) → g (f b) ≡ g b + n)
    → (agent : Text) (bs : Buckets)
    → over_agents g (change_bucket f agent bs) ≡ over_agents g bs + n
unfolding change_bucket
change_bucket-total g f n z adds agent [] = omega (arith, z, adds empty_bucket)
change_bucket-total g f n z adds agent ((name, b) ∷ bs) =
    ground (arith, adds b, change_bucket-total g f n z adds agent bs)

-- `n` is the count of the kind, in the whole and over the agents.
abbrev Counts : Kind → ℕ → Tally → Type 0
Counts k n t = (of_kind k t.overall ≡ n) × (over_agents (of_kind k) t.by_agent ≡ n)

none_of : (k : Kind) → of_kind k empty_bucket ≡ 0
none_of hit = refl
none_of false_positive = refl
none_of allowed = refl
none_of unlabelled = refl

-- The fields that count_label writes are of no kind.
labels_of_no_kind :
    (k : Kind) (b : Bucket) (x y : ℕ)
    → of_kind k (record b { labels_found = x; concerns = y }) ≡ of_kind k b
labels_of_no_kind hit b x y = refl
labels_of_no_kind false_positive b x y = refl
labels_of_no_kind allowed b x y = refl
labels_of_no_kind unlabelled b x y = refl

add_miss-of_kind : (k : Kind) (b : Bucket) → of_kind k (add_miss b) ≡ of_kind k b + 0
add_miss-of_kind hit b = omega arith
add_miss-of_kind false_positive b = omega arith
add_miss-of_kind allowed b = omega arith
add_miss-of_kind unlabelled b = omega arith

-- One when the kinds agree.
abbrev one_if : Bool → ℕ
one_if b = if b then 1 else 0

add_kind-of_kind :
    (k k' : Kind) (b : Bucket) → of_kind k (add_kind k' b) ≡ of_kind k b + one_if (same_kind k k')
unfolding add_kind
add_kind-of_kind k k' b = ground arith

count_label-Counts :
    (k : Kind) (n : ℕ) (agent : Text) (category : Category) (l : Label) (s : Seen) (t : Tally)
    → Counts k n t
    → Counts k n (count_label agent category l (s, t)).1
unfolding count_label
count_label-Counts k n agent category l s t h = (
  labels_of_no_kind k t.overall _ _ ∙ h.0,
  change_bucket-total (of_kind k) _ 0 (none_of k)
        (λ b. labels_of_no_kind k b _ b.concerns ∙ plus_zero (of_kind k b)) agent t.by_agent
      ∙ plus_none (over_agents (of_kind k) t.by_agent)
      ∙ h.1,
)
  where
    plus_zero : (x : ℕ) → x ≡ x + 0
    plus_zero x = omega arith

    plus_none : (x : ℕ) → x + 0 ≡ x
    plus_none x = omega arith

count_labels-Counts :
    (k : Kind) (n : ℕ) (agent : Text) (category : Category) (ls : List Label) (st : Seen × Tally)
    → Counts k n st.1
    → Counts k n (count_labels agent category ls st).1
unfolding count_labels
count_labels-Counts k n agent category [] st h = h
count_labels-Counts k n agent category (l ∷ ls) st h =
    count_labels-Counts k n agent category ls (count_label agent category l st)
      (count_label-Counts k n agent category l st.0 st.1 h)

-- What one more match of kind `k'` makes of the count of `k`.
count_match-Counts :
    (k : Kind) (n : ℕ) (m : Match) (st : Seen × Tally)
    → Counts k n st.1
    → Counts k (n + one_if (same_kind k m.kind)) (count_match m st).1
unfolding count_match
count_match-Counts k n m st h = elim (Bool-cases (is_hit m.kind)) [
  | inl t ↦
      rw (count_match, t)
        (count_labels-Counts k (n + one_if (same_kind k m.kind)) (agent_name m.finding.agent)
          m.finding.category m.labels (st.0, counted) added)
  | inr f ↦ rw (count_match, f) added
]
  where
    counted : Tally
    counted = record {
      overall = add_kind m.kind st.1.overall;
      by_agent = change_bucket (add_kind m.kind) (agent_name m.finding.agent) st.1.by_agent;
    }

    added : Counts k (n + one_if (same_kind k m.kind)) counted
    added = (
      add_kind-of_kind k m.kind st.1.overall ∙ ap (λ x. x + one_if (same_kind k m.kind)) h.0,
      change_bucket-total (of_kind k) (add_kind m.kind) (one_if (same_kind k m.kind)) (none_of k)
            (add_kind-of_kind k m.kind) (agent_name m.finding.agent) st.1.by_agent
          ∙ ap (λ x. x + one_if (same_kind k m.kind)) h.1,
    )

number_of-cons :
    (k : Kind) (m : Match) (ms : List Match)
    → number_of k (m ∷ ms) ≡ one_if (same_kind k m.kind) + number_of k ms
number_of-cons k m ms = ground arith

count_matches-Counts :
    (k : Kind) (n : ℕ) (ms : List Match) (st : Seen × Tally)
    → Counts k n st.1
    → Counts k (n + number_of k ms) (count_matches ms st).1
unfolding count_matches
count_matches-Counts k n [] st h = subst (λ x. Counts k x st.1) (omega arith) h
count_matches-Counts k n (m ∷ ms) st h =
    subst (λ x. Counts k x (count_matches ms (count_match m st)).1)
      (omega (arith, number_of-cons k m ms))
      (count_matches-Counts k (n + one_if (same_kind k m.kind)) ms (count_match m st)
        (count_match-Counts k n m st h))

count_missed-Counts :
    (k : Kind) (n : ℕ) (ls : List Label) (t : Tally) → Counts k n t → Counts k n (count_missed ls t)
unfolding count_missed
count_missed-Counts k n [] t h = h
count_missed-Counts k n (l ∷ ls) t h =
    count_missed-Counts k n ls _
      (omega (arith, add_miss-of_kind k t.overall, h.0), by_agent l.agent)
  where
    by_agent : (a : Option Text) → over_agents (of_kind k) (miss_of_agent a t.by_agent) ≡ n
    by_agent none = h.1
    by_agent (some []) = h.1
    by_agent (some (c ∷ s)) = omega (
      arith,
      change_bucket-total (of_kind k) add_miss 0 (none_of k) (add_miss-of_kind k) (c ∷ s)
          t.by_agent,
      h.1,
    )

number_of-append :
    (k : Kind) (ms ns : List Match) → number_of k (ms ++ ns) ≡ number_of k ms + number_of k ns
number_of-append k [] ns = omega arith
number_of-append k (m ∷ ms) ns = ground (arith, number_of-append k ms ns)

count_results-Counts :
    (k : Kind) (n : ℕ) (rs : List CaseResult) (t : Tally)
    → Counts k n t
    → Counts k (n + number_of k (all_matches rs)) (count_results rs t)
unfolding count_results count_result all_matches
count_results-Counts k n [] t h = subst (λ x. Counts k x t) (omega arith) h
count_results-Counts k n (r ∷ rs) t h =
    subst (λ x. Counts k x (count_results rs (count_result r t)))
      (omega (arith, number_of-append k r.matches (all_matches rs)))
      (count_results-Counts k (n + number_of k r.matches) rs (count_result r t) (
        count_missed-Counts k (n + number_of k r.matches) r.missed _
          (count_matches-Counts k n r.matches (nothing_seen, t) h)))

insert-total :
    (g : Bucket → ℕ) (le : Text × Bucket → Text × Bucket → Bool) (x : Text × Bucket) (bs : Buckets)
    → over_agents g (insert_sorted le x bs) ≡ g x.1 + over_agents g bs
unfolding insert_sorted
insert-total g le x [] = refl
insert-total g le x (y ∷ bs) = ground (arith, insert-total g le x bs)

sort-total :
    (g : Bucket → ℕ) (le : Text × Bucket → Text × Bucket → Bool) (bs : Buckets)
    → over_agents g (sort le bs) ≡ over_agents g bs
unfolding sort
sort-total g le [] = refl
sort-total g le (x ∷ bs) = omega (arith, insert-total g le x (sort le bs), sort-total g le bs)

-- score counts every match once: of each kind the whole has as many as there are matches of that kind
-- in all cases, and so have the agents together.
pub score_counts :
    (F : Floats) (results : List CaseResult) (provider : Text) (models : List (Text × Text))
    (k : Kind)
    → let report = score F results provider models in
      (of_kind k report.overall ≡ number_of k (all_matches results))
      × (over_agents (of_kind k) report.by_agent ≡ number_of k (all_matches results))
unfolding score
score_counts F results provider models k =
    let (whole, agents) =
      count_results-Counts k 0 results (record { overall = empty_bucket; by_agent = [] })
        (none_of k, refl) in
    (whole ∙ from_zero, sort-total (of_kind k) (λ a b. text_leb a.0 b.0) _ ∙ agents ∙ from_zero)
  where
    from_zero : 0 + number_of k (all_matches results) ≡ number_of k (all_matches results)
    from_zero = omega arith
