-- ===== src/Evaluation/Matching/Outcomes.antt =====
-- What each outcome of classify means.
use pr_sentinel.Prelude.{
  ◌≡◌, ◌↔◌, ◌⊎◌, inl, inr, refl, true, false, Option, none, some, List, [], ◌∷◌, map, Text,
  In-find_first, find_first-none, any_sound, any, any_complete, In, All, Bool-cases, Option-cases,
  arith,
}
use pr_sentinel.Domain.Models.{Finding}
use pr_sentinel.Evaluation.Labels.{Label, locates, traps}
use pr_sentinel.Evaluation.Matching.{
  hit, false_positive, unlabelled, allowed, Match, all_about, is_permitted, hit_match, other_match,
  sprung, optional_match, judge_rest, judge, classify,
}
use pr_sentinel.Evaluation.Matching.About.{
  NamesCategories, IsAbout, Reaches, all_about_keeps, FirstOf, first_about_finds,
}

module _ (expected forbidden may : List Label) (concerns : List (Text × Text)) where
  -- What it takes to be of each kind: a hit covers the expected labels that it reaches and speaks of,
  -- each of them and no other; a false positive is near no expected label and springs a trap; what is
  -- allowed or unlabelled speaks of no expected label that it reaches, springs no trap unless it is near
  -- an expected label, and is one or the other by an optional label or a permitted concern.
  abbrev pub IsSpared : Finding → Type 0
  IsSpared f =
      ((l : Label) × In l expected × (locates f l ≡ true))
      ⊎ ((l : Label) → In l forbidden → traps f l ≡ false)

  abbrev pub IsJudged : Match → Type 0
  IsJudged m = elim m.kind [
    | hit ↦
        Reaches m.finding expected
        × ((l : Label) → In l m.labels ↔ (In l expected × IsAbout m.finding l))
    | false_positive ↦
        (¬ ((l : Label) × In l expected × (locates m.finding l ≡ true)))
        × ((l : Label) × (m.label ≡ some l) × In l forbidden × (traps m.finding l ≡ true))
    | allowed ↦
        (¬ Reaches m.finding expected)
        × IsSpared m.finding
        × (Reaches m.finding may ⊎ (is_permitted concerns m.finding ≡ true))
    | unlabelled ↦
        (¬ Reaches m.finding expected)
        × IsSpared m.finding
        × (¬ Reaches m.finding may)
        × (is_permitted concerns m.finding ≡ false)
  ]

  -- The judgement that a finding gets.
  abbrev Judged : Finding → Option Match → Type 0
  Judged f judgement = (m : Match) × (judgement ≡ some m) × (m.finding ≡ f) × IsJudged m

  sprung_trap :
      (f : Finding) (t : Label)
      → sprung f expected forbidden ≡ some t
      → (¬ ((l : Label) × In l expected × (locates f l ≡ true)))
        × In t forbidden
        × (traps f t ≡ true)
  unfolding sprung
  sprung_trap f t e = elim (Bool-cases (any (locates f) expected)) [
    | inl near_one ↦ absurd (ground (arith, near_one, e))
    | inr far ↦
        let (m, fires) = In-find_first (traps f) forbidden t (rw (sprung, far) at e) in
        (
          λ (l, i, k). absurd (ground (arith, any_complete (locates f) expected l i k, far)),
          m,
          fires,
        )
  ]

  untrapped : (f : Finding) → sprung f expected forbidden ≡ none → IsSpared f
  unfolding sprung
  untrapped f e = elim (Bool-cases (any (locates f) expected)) [
    | inl near_one ↦ inl (any_sound (locates f) expected near_one)
    | inr far ↦ inr (find_first-none (traps f) forbidden (rw (sprung, far) at e))
  ]

  optional_match-IsJudged :
      (f : Finding) (found : Option Label)
      → ¬ Reaches f expected
      → IsSpared f
      → FirstOf f may found
      → ((optional_match concerns f found).finding ≡ f) × IsJudged (optional_match concerns f found)
  unfolding optional_match other_match
  optional_match-IsJudged f (some l) free spared first =
      (refl, (free, spared, inl (l, first.0, first.1)))
  optional_match-IsJudged f none free spared first = elim (Bool-cases (is_permitted concerns f)) [
    | inl t ↦ rw t (refl, (free, spared, inr t))
    | inr n ↦ rw n (refl, (free, spared, first, n))
  ]

  judge_rest_judges :
      (f : Finding)
      → NamesCategories f
      → ¬ Reaches f expected
      → Judged f (judge_rest expected forbidden may concerns f)
  unfolding judge_rest other_match
  judge_rest_judges f h none_reached =
      let (permitted, r, first) = first_about_finds f may h in
      elim (Option-cases (sprung f expected forbidden)) [
        | inl e ↦
            let (same, judged) =
              optional_match-IsJudged f permitted none_reached (untrapped f e) first in
            (optional_match concerns f permitted, rw (judge_rest, e, r) refl, same, judged)
        | inr (t, e) ↦
            let (far, m, fires) = sprung_trap f t e in
            (
              other_match f false_positive (some t),
              rw (judge_rest, e) refl,
              refl,
              (far, (t, refl, m, fires)),
            )
      ]

  judge_judges :
      (f : Finding) → NamesCategories f → Judged f (judge expected forbidden may concerns f)
  unfolding judge hit_match
  judge_judges f h = let (kept, r, keeps) = all_about_keeps f expected h in by_kept kept r keeps
    where
      by_kept :
          (kept : List Label)
          → all_about f expected ≡ some kept
          → ((l : Label) → In l kept ↔ (In l expected × IsAbout f l))
          → Judged f (judge expected forbidden may concerns f)
      by_kept [] r keeps =
          let (m, e, same, judged) = judge_rest_judges f h (λ (l, i, k). (keeps l).1 (i, k)) in
          (m, rw (judge, r) e, same, judged)
      by_kept (x ∷ xs) r keeps = (
        hit_match f x xs,
        rw (judge, r) refl,
        refl,
        ((x, ((keeps x).0 (inl refl)).0, ((keeps x).0 (inl refl)).1), keeps),
      )

  -- classify returns whenever the findings name categories only: a judgement for each finding, in the
  -- order of the findings. A hit covers exactly the expected labels that its finding reaches and speaks
  -- of; a false positive is near none of them and springs a trap; what is allowed or unlabelled speaks of
  -- none that it reaches, is near one or springs no trap, and is allowed exactly when an optional label
  -- or a permitted concern fits it.
  pub classify_judges :
      (findings : List Finding)
      → All NamesCategories findings
      → (ms : List Match) × (classify findings expected forbidden may concerns ≡ some ms)
        × (map (λ m. m.finding) ms ≡ findings)
        × All IsJudged ms
  unfolding classify
  classify_judges [] h = ([], refl, refl, tt)
  classify_judges (f ∷ fs) h =
      let (m, e, same, judged) = judge_judges f h.0 in
      let (ms, es, all_same, all_judged) = classify_judges fs h.1 in
      (m ∷ ms, rw (classify, e, es) refl, rw (same, all_same) refl, (judged, all_judged))
