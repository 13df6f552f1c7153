-- ===== src/Evaluation/Calibration/Recall.antt =====
-- What score_case and score make of the expected labels of a case.
use pr_sentinel.Prelude.{
  ℕ, ◌+◌, ◌≡◌, ◌↔◌, inl, inr, refl, sym, Bool, true, not, Option, some, List, [], ◌∷◌, map,
  filter_by, length, any, any_sound, any_complete, In, All, All-In, In-map, map-In,
  In-filter_by_back, In-of_filter_by, Bool-cases, ◌==◌, ==_iff, ◌&&◌, Text, IsDistinct,
  same_members_length, arith, subst,
}
use pr_sentinel.Runtime.{Float}
use pr_sentinel.Domain.Models.{Finding}
use pr_sentinel.Evaluation.Labels.{Label}
use pr_sentinel.Evaluation.Matching.{
  Kind, hit, false_positive, unlabelled, allowed, Match, is_hit, was_found, missed,
}
use pr_sentinel.Evaluation.Matching.About.{NamesCategories}
use pr_sentinel.Evaluation.Matching.Outcomes.{IsJudged, classify_judges}
use pr_sentinel.Evaluation.Metrics.{Tally, CaseResult, count_matches, nothing_seen, count_result}
use pr_sentinel.Evaluation.Metrics.Found.{
  RefOf, count_matches-Seeing, count_matches-misses, count_missed-misses,
}
use pr_sentinel.Evaluation.Calibration.{EvalCase, case_result, score_case}

-- The refs of the expected labels that a hit carries, and the split into found and missed.
length-split :
    (p : Label → Bool) (ls : List Label)
    → length (filter_by p ls) + length (filter_by (λ l. not (p l)) ls) ≡ length ls
length-split p [] = omega arith
length-split p (l ∷ ls) = ground (arith, length-split p ls)

length-refs : (ls : List Label) → length (map (λ l. l.ref) ls) ≡ length ls
length-refs [] = refl
length-refs (l ∷ ls) = omega (arith, length-refs ls)

kept_refs-IsDistinct :
    (p : Label → Bool) (ls : List Label)
    → IsDistinct (map (λ l. l.ref) ls)
    → IsDistinct (map (λ l. l.ref) (filter_by p ls))
kept_refs-IsDistinct p [] d = tt
kept_refs-IsDistinct p (l ∷ ls) d = elim (Bool-cases (p l)) [
  | inl t ↦ rw t (
    λ m.
        let (x, i, e) = map-In (λ l. l.ref) l.ref (filter_by p ls) m in
        d.0 (
          subst (λ n. In n (map (λ l. l.ref) ls)) e
            (In-map (λ l. l.ref) x ls (In-of_filter_by p ls x i).0)),
    kept_refs-IsDistinct p ls d.1,
  )
  | inr f ↦ rw f (kept_refs-IsDistinct p ls d.1)
]

-- A label is found exactly when its ref is the ref of a label of a hit.
was_found_iff :
    (ms : List Match) (l : Label)
    → (was_found ms l ≡ true) ↔ ((m : Match) × In m ms × RefOf l.ref m)
unfolding was_found
was_found_iff ms l = (
  λ t.
      let (m, i, h) = any_sound (λ m. is_hit m.kind && any (λ x. x.ref == l.ref) m.labels) ms t in
      let (x, j, e) = any_sound (λ x. x.ref == l.ref) m.labels (ground (arith, h)) in
      (m, i, (ground (arith, h), (x, j, (==_iff x.ref l.ref).0 e))),
  λ (m, i, (h, (x, j, e))).
      any_complete (λ m. is_hit m.kind && any (λ x. x.ref == l.ref) m.labels) ms m i
        (both (is_hit m.kind) _ h
          (any_complete (λ x. x.ref == l.ref) m.labels x j ((==_iff x.ref l.ref).1 e))),
)
  where
    both : (p q : Bool) → p ≡ true → q ≡ true → (p && q) ≡ true
    both p q hp hq = ground (arith, hp, hq)

-- The labels of a hit are expected ones.
hit_expected :
    (expected forbidden may : List Label) (concerns : List (Text × Text)) (m : Match)
    → IsJudged expected forbidden may concerns m
    → is_hit m.kind ≡ true
    → (l : Label) → In l m.labels
    → In l expected
hit_expected expected forbidden may concerns m j h l i = by_kind m.kind refl
  where
    by_kind : (k : Kind) → m.kind ≡ k → In l expected
    by_kind hit e = let (reached, exactly) = rw e at j in ((exactly l).0 i).0
    by_kind false_positive e = absurd (ground (arith, rw e at h))
    by_kind unlabelled e = absurd (ground (arith, rw e at h))
    by_kind allowed e = absurd (ground (arith, rw e at h))

module _ (c : EvalCase) (ms : List Match)
    (judged : All (IsJudged c.expected c.must_not_find c.may_find c.permitted_concerns) ms) where
  IsJudged-one :
      (m : Match) → In m ms → IsJudged c.expected c.must_not_find c.may_find c.permitted_concerns m
  IsJudged-one m i =
      All-In (IsJudged c.expected c.must_not_find c.may_find c.permitted_concerns)
        (λ x y e p.
          subst (IsJudged c.expected c.must_not_find c.may_find c.permitted_concerns) (sym e) p)
        m ms judged i

  -- The refs that are seen are those of the expected labels that are found.
  seen_iff :
      (t : Tally) (n : ℕ)
      → In n (count_matches ms (nothing_seen, t)).0.labels
        ↔ In n (map (λ l. l.ref) (filter_by (was_found ms) c.expected))
  seen_iff t n =
      let members =
        (count_matches-Seeing t.overall.labels_found ms (nothing_seen, t) (tt, omega arith)).1 n in
      (
        λ i. elim (members.0 i) [
          | inl (m, j, (h, (l, k, e))) ↦
              subst (λ x. In x (map (λ l. l.ref) (filter_by (was_found ms) c.expected))) e
                (In-map (λ l. l.ref) l (filter_by (was_found ms) c.expected)
                  (In-filter_by_back (was_found ms) c.expected l
                    (hit_expected c.expected c.must_not_find c.may_find c.permitted_concerns m
                      (IsJudged-one m j) h l k)
                    ((was_found_iff ms l).1 (m, j, (h, (l, k, refl))))))
          | inr j ↦ absurd j
        ],
        λ i.
            let (l, j, e) = map-In (λ l. l.ref) n (filter_by (was_found ms) c.expected) i in
            let (k, found) = In-of_filter_by (was_found ms) c.expected l j in
            let (m, q, h) = (was_found_iff ms l).0 found in
            members.1 (inl (m, q, subst (λ x. RefOf x m) e h)),
      )

  -- What is found, as many labels as are expected and not missed.
  found_count :
      (t : Tally)
      → IsDistinct (map (λ l. l.ref) c.expected)
      → (count_matches ms (nothing_seen, t)).1.overall.labels_found
        ≡ t.overall.labels_found + length (filter_by (was_found ms) c.expected)
  found_count t d =
      let (distinct, e) =
        (count_matches-Seeing t.overall.labels_found ms (nothing_seen, t) (tt, omega arith)).0 in
      omega (
        arith,
        e,
        same_members_length _ (map (λ l. l.ref) (filter_by (was_found ms) c.expected)) distinct
            (kept_refs-IsDistinct (was_found ms) c.expected d) (seen_iff t),
        length-refs (filter_by (was_found ms) c.expected),
      )

-- With one Label object for each expected label and findings whose categories are categories,
-- score_case returns, and score adds to the labels found and to the misses together exactly the number
-- of expected labels of the case: each is found or missed, and none twice, however many findings
-- repeat it.
pub score_case_recall :
    (c : EvalCase) (findings : List Finding) (decision : Text) (confidence cost_usd : Float)
    (duration_ms : ℕ) (failed_agents : List Text) (error : Option Text) (t : Tally)
    → IsDistinct (map (λ l. l.ref) c.expected)
    → All NamesCategories findings
    → (r : CaseResult) × (score_case c findings decision confidence cost_usd duration_ms
          failed_agents error
        ≡ some r)
      × ((count_result r t).overall.labels_found + (count_result r t).overall.misses
          ≡ t.overall.labels_found + t.overall.misses + length c.expected)
unfolding score_case count_result missed case_result
score_case_recall c findings decision confidence cost_usd duration_ms failed_agents error t d
      names =
    let (ms, e, same, judged) =
      classify_judges c.expected c.must_not_find c.may_find c.permitted_concerns findings names in
    let (more, kept) =
      count_missed-misses (filter_by (λ l. not (was_found ms l)) c.expected)
        (count_matches ms (nothing_seen, t)).1 in
    (
      case_result c ms decision confidence cost_usd duration_ms failed_agents error,
      rw (score_case, e) refl,
      omega (
        arith,
        more,
        kept,
        found_count c ms judged t d,
        count_matches-misses ms (nothing_seen, t),
        length-split (was_found ms) c.expected,
      ),
    )
