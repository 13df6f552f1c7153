-- ===== src/Evaluation/Metrics/Found.antt =====
-- The labels that score finds and misses are the expected ones.
use pr_sentinel.Prelude.{
  ℕ, ◌+◌, ◌≡◌, ◌↔◌, ◌⊎◌, inl, inr, refl, sym, ap, subst, ◌∙◌, true, ◌==◌, ==_iff, List, [], ◌∷◌,
  length, any, any_sound, any_complete, In, Bool-cases, Text, IsDistinct, arith,
}
use pr_sentinel.Domain.Enums.{agent_name, Category}
use pr_sentinel.Evaluation.Labels.{Label}
use pr_sentinel.Evaluation.Matching.{Kind, hit, false_positive, unlabelled, allowed, Match, is_hit}
use pr_sentinel.Evaluation.Metrics.{
  Bucket, Tally, Seen, count_label, count_labels, add_kind, count_match, count_matches, has_label,
  add_miss, miss_of_agent, count_missed,
}

-- `found` labels before the case; then one more for each ref seen, none twice.
abbrev pub Seeing : ℕ → Seen × Tally → Type 0
Seeing found st = IsDistinct st.0.labels × (st.1.overall.labels_found ≡ found + length st.0.labels)

count_label-Seeing :
    (found : ℕ) (agent : Text) (category : Category) (l : Label) (st : Seen × Tally)
    → Seeing found st
    → Seeing found (count_label agent category l st)
      × ((n : ℕ)
          → In n (count_label agent category l st).0.labels ↔ ((n ≡ l.ref) ⊎ In n st.0.labels))
unfolding count_label has_label
count_label-Seeing found agent category l st (d, e) =
    elim (Bool-cases (any (λ x. x == l.ref) st.0.labels)) [
      | inl old ↦ rw old (
        (d, omega (arith, e)),
        λ n. (
          λ m. inr m,
          λ m. elim m [
            | inl same ↦
                let (x, i, t) = any_sound (λ x. x == l.ref) st.0.labels old in
                rw (same ∙ sym ((==_iff x l.ref).0 t)) i
            | inr i ↦ i
          ],
        ),
      )
      | inr new ↦ rw new (
        (
          (
            λ i. absurd (
                ground
                  (arith, new, any_complete (λ x. x == l.ref) st.0.labels l.ref i (itself l.ref))),
            d,
          ),
          omega (arith, e),
        ),
        λ n. (λ m. m, λ m. m),
      )
    ]
  where
    itself : (n : ℕ) → (n == n) ≡ true
    itself n = ground arith

count_labels-Seeing :
    (found : ℕ) (agent : Text) (category : Category) (ls : List Label) (st : Seen × Tally)
    → Seeing found st
    → Seeing found (count_labels agent category ls st)
      × ((n : ℕ)
          → In n (count_labels agent category ls st).0.labels
            ↔ (((l : Label) × In l ls × (l.ref ≡ n)) ⊎ In n st.0.labels))
unfolding count_labels
count_labels-Seeing found agent category [] st h =
    (h, λ n. (λ m. inr m, λ m. elim m [ inl x ↦ absurd x.1 | inr i ↦ i ]))
count_labels-Seeing found agent category (l ∷ ls) st h =
    let (one, members) = count_label-Seeing found agent category l st h in
    let (all, more) =
      count_labels-Seeing found agent category ls (count_label agent category l st) one in
    (
      all,
      λ n. (
        λ m. elim ((more n).0 m) [
          | inl (x, i, e) ↦ inl (x, inr i, e)
          | inr i ↦ elim ((members n).0 i) [ inl e ↦ inl (l, inl refl, sym e) | inr j ↦ inr j ]
        ],
        λ m. elim m [
          | inl (x, inl s, e) ↦ (more n).1 (inr ((members n).1 (inl (sym e ∙ ap (λ y. y.ref) s))))
          | inl (x, inr i, e) ↦ (more n).1 (inl (x, i, e))
          | inr i ↦ (more n).1 (inr ((members n).1 (inr i)))
        ],
      ),
    )

add_kind-labels_found : (k : Kind) (b : Bucket) → (add_kind k b).labels_found ≡ b.labels_found
unfolding add_kind
add_kind-labels_found hit b = refl
add_kind-labels_found false_positive b = refl
add_kind-labels_found allowed b = refl
add_kind-labels_found unlabelled b = refl

add_kind-misses : (k : Kind) (b : Bucket) → (add_kind k b).misses ≡ b.misses
unfolding add_kind
add_kind-misses hit b = refl
add_kind-misses false_positive b = refl
add_kind-misses allowed b = refl
add_kind-misses unlabelled b = refl

-- The refs of the labels of one hit; of another match, none.
abbrev pub RefOf : ℕ → Match → Type 0
RefOf n m = (is_hit m.kind ≡ true) × ((l : Label) × In l m.labels × (l.ref ≡ n))

count_match-Seeing :
    (found : ℕ) (m : Match) (st : Seen × Tally)
    → Seeing found st
    → Seeing found (count_match m st)
      × ((n : ℕ) → In n (count_match m st).0.labels ↔ (RefOf n m ⊎ In n st.0.labels))
unfolding count_match
count_match-Seeing found m st h = elim (Bool-cases (is_hit m.kind)) [
  | inl t ↦
      let (all, more) =
        count_labels-Seeing found (agent_name m.finding.agent) m.finding.category m.labels _
          (h.0, add_kind-labels_found m.kind st.1.overall ∙ h.1) in
      rw (count_match, t)
        (
          all,
          λ n. (
            λ i. elim ((more n).0 i) [ inl x ↦ inl (refl, x) | inr j ↦ inr j ],
            λ i. elim i [ inl x ↦ (more n).1 (inl x.1) | inr j ↦ (more n).1 (inr j) ],
          ),
        )
  | inr f ↦
      rw (count_match, f)
        (
          (h.0, add_kind-labels_found m.kind st.1.overall ∙ h.1),
          λ n. (λ i. inr i, λ i. elim i [ inl x ↦ absurd (ground (arith, x.0)) | inr j ↦ j ]),
        )
]

pub count_matches-Seeing :
    (found : ℕ) (ms : List Match) (st : Seen × Tally)
    → Seeing found st
    → Seeing found (count_matches ms st)
      × ((n : ℕ)
          → In n (count_matches ms st).0.labels
            ↔ (((m : Match) × In m ms × RefOf n m) ⊎ In n st.0.labels))
unfolding count_matches
count_matches-Seeing found [] st h =
    (h, λ n. (λ m. inr m, λ m. elim m [ inl x ↦ absurd x.1 | inr i ↦ i ]))
count_matches-Seeing found (m ∷ ms) st h =
    let (one, members) = count_match-Seeing found m st h in
    let (all, more) = count_matches-Seeing found ms (count_match m st) one in
    (
      all,
      λ n. (
        λ i. elim ((more n).0 i) [
          | inl (x, j, e) ↦ inl (x, inr j, e)
          | inr j ↦ elim ((members n).0 j) [ inl e ↦ inl (m, inl refl, e) | inr k ↦ inr k ]
        ],
        λ i. elim i [
          | inl (x, inl s, e) ↦ (more n).1 (inr ((members n).1 (inl (subst (RefOf n) s e))))
          | inl (x, inr j, e) ↦ (more n).1 (inl (x, j, e))
          | inr j ↦ (more n).1 (inr ((members n).1 (inr j)))
        ],
      ),
    )

-- The loops over matches leave the misses alone, and count_missed adds one for each label.
count_labels-misses :
    (agent : Text) (category : Category) (ls : List Label) (st : Seen × Tally)
    → (count_labels agent category ls st).1.overall.misses ≡ st.1.overall.misses
unfolding count_labels count_label
count_labels-misses agent category [] st = refl
count_labels-misses agent category (l ∷ ls) st =
    count_labels-misses agent category ls (count_label agent category l st)

count_match-misses :
    (m : Match) (st : Seen × Tally) → (count_match m st).1.overall.misses ≡ st.1.overall.misses
unfolding count_match
count_match-misses m st = elim (Bool-cases (is_hit m.kind)) [
  | inl t ↦
      rw (count_match, t)
        (count_labels-misses (agent_name m.finding.agent) m.finding.category m.labels _
          ∙ add_kind-misses m.kind st.1.overall)
  | inr f ↦ rw (count_match, f) (add_kind-misses m.kind st.1.overall)
]

pub count_matches-misses :
    (ms : List Match) (st : Seen × Tally)
    → (count_matches ms st).1.overall.misses ≡ st.1.overall.misses
unfolding count_matches
count_matches-misses [] st = refl
count_matches-misses (m ∷ ms) st =
    count_matches-misses ms (count_match m st) ∙ count_match-misses m st

pub count_missed-misses :
    (ls : List Label) (t : Tally)
    → ((count_missed ls t).overall.misses ≡ t.overall.misses + length ls)
      × ((count_missed ls t).overall.labels_found ≡ t.overall.labels_found)
unfolding count_missed
count_missed-misses [] t = (omega arith, refl)
count_missed-misses (l ∷ ls) t =
    let (more, same) =
      count_missed-misses ls
        (record { overall = add_miss t.overall; by_agent = miss_of_agent l.agent t.by_agent }) in
    (omega (arith, more), same)
