-- ===== src/Orchestration/Clusters/Members.antt =====
-- What a merged finding takes over from every finding of its cluster.
use pr_sentinel.Prelude.{
  ℕ, ◌≤◌, min, max, ◌≡◌, inl, inr, refl, true, false, List, [], ◌∷◌, All, max_of, arith, Bool-cases,
  if◌then◌else◌,
}
use pr_sentinel.Runtime.{Floats}
use pr_sentinel.Domain.Enums.{AgentType, severity_rank}
use pr_sentinel.Domain.Models.{Finding}
use pr_sentinel.Orchestration.Clusters.{weaker, min_start, max_end, merged_finding, collapse}

-- `b` is at least as severe as `a`, and as confident where they are equally severe.
pub record IsNotStronger (a b : Finding) : Type 0 where
  pub severity : severity_rank a.severity ≤ severity_rank b.severity
  pub confidence : severity_rank a.severity ≡ severity_rank b.severity → a.confidence ≤ b.confidence

not-weaker : (a b : Finding) → weaker b a ≡ false → IsNotStronger a b
unfolding weaker
not-weaker a b h = ground arith

weaker-step : (a b : Finding) → weaker a b ≡ true → IsNotStronger a b
unfolding weaker
weaker-step a b h = ground arith

IsNotStronger-trans : (a b c : Finding) → IsNotStronger a b → IsNotStronger b c → IsNotStronger a c
IsNotStronger-trans a b c p q = ground arith

-- Of the best so far and the next, `max` keeps one that neither exceeds.
abbrev kept : Finding → Finding → Finding
kept best x = if weaker best x then x else best

kept-best : (best x : Finding) → IsNotStronger best (kept best x)
kept-best best x = elim (Bool-cases (weaker best x)) [
  | inl h ↦ rw h (weaker-step best x h)
  | inr h ↦ rw h (record { severity = omega arith; confidence = λ e. omega arith })
]

kept-next : (best x : Finding) → IsNotStronger x (kept best x)
kept-next best x = elim (Bool-cases (weaker best x)) [
  | inl h ↦ rw h (record { severity = omega arith; confidence = λ e. omega arith })
  | inr h ↦ rw h (not-weaker x best h)
]

pub max_of-first : (best : Finding) (xs : List Finding) → IsNotStronger best (max_of weaker best xs)
unfolding max_of
max_of-first best [] = record { severity = omega arith; confidence = λ e. omega arith }
max_of-first best (x ∷ xs) =
    IsNotStronger-trans best (kept best x) (max_of weaker (kept best x) xs) (kept-best best x)
      (max_of-first (kept best x) xs)

pub max_of-rest :
    (best : Finding) (xs : List Finding) → All (λ x. IsNotStronger x (max_of weaker best xs)) xs
unfolding max_of
max_of-rest best [] = tt
max_of-rest best (x ∷ xs) = (
  IsNotStronger-trans x (kept best x) (max_of weaker (kept best x) xs) (kept-next best x)
      (max_of-first (kept best x) xs),
  max_of-rest (kept best x) xs,
)

min_start_le :
    (n : ℕ) (fs : List Finding) → (min_start n fs ≤ n) × All (λ f. min_start n fs ≤ f.line_start) fs
unfolding min_start
min_start_le n [] = (omega arith, tt)
min_start_le n (f ∷ fs) =
    let (h, rest) = min_start_le (min n f.line_start) fs in (omega arith, (omega arith, rest))

max_end_le :
    (n : ℕ) (fs : List Finding) → (n ≤ max_end n fs) × All (λ f. f.line_end ≤ max_end n fs) fs
unfolding max_end
max_end_le n [] = (omega arith, tt)
max_end_le n (f ∷ fs) =
    let (h, rest) = max_end_le (max n f.line_end) fs in (omega arith, (omega arith, rest))

-- The merged finding speaks for `f`: it is at least as severe, and its range holds that of `f`.
pub record Covers (m f : Finding) : Type 0 where
  pub severity : severity_rank f.severity ≤ severity_rank m.severity
  pub starts : m.line_start ≤ f.line_start
  pub ends : f.line_end ≤ m.line_end

Covers-All :
    (m p : Finding) (xs : List Finding)
    → severity_rank m.severity ≡ severity_rank p.severity
    → All (λ f. IsNotStronger f p) xs
    → All (λ f. m.line_start ≤ f.line_start) xs
    → All (λ f. f.line_end ≤ m.line_end) xs
    → All (Covers m) xs
Covers-All m p [] e w s t = tt
Covers-All m p (x ∷ xs) e w s t = (
  record { severity = omega (arith, w.0.severity); starts = s.0; ends = t.0 },
  Covers-All m p xs e w.1 s.1 t.1,
)

-- The finding that a cluster becomes is at least as severe as each of its findings, and its lines
-- take in the lines of each.
pub collapse-Covers :
    (F : Floats) (order : List AgentType → List AgentType) (f : Finding) (fs : List Finding)
    → All (Covers (collapse F order f fs).finding) (f ∷ fs)
unfolding collapse merged_finding
collapse-Covers F order f [] =
    (record { severity = omega arith; starts = omega arith; ends = omega arith }, tt)
collapse-Covers F order f (g ∷ fs) =
    let p = max_of weaker f (g ∷ fs) in
    Covers-All (merged_finding F order p (f ∷ g ∷ fs)) p (f ∷ g ∷ fs) refl
      (max_of-first f (g ∷ fs), max_of-rest f (g ∷ fs)) (min_start_le p.line_start (f ∷ g ∷ fs)).1
      (max_end_le p.line_end (f ∷ g ∷ fs)).1
