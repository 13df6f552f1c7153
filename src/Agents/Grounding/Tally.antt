-- ===== src/Agents/Grounding/Tally.antt =====
-- The loop of _parse: what is kept, and what is counted.
use pr_sentinel.Prelude.{
  ℕ, ◌+◌, ◌≤◌, ◌≡◌, inl, inr, refl, subst, true, false, Option, none, some, List, [], ◌∷◌, ◌++◌, In,
  length, length-append, All, All-append, arith, Bool-cases, ◌>>=◌,
}
use pr_sentinel.Runtime.{Floats, Unicode}
use pr_sentinel.Runtime.Json.{Json}
use pr_sentinel.Domain.Enums.{AgentType}
use pr_sentinel.Domain.Models.{PullRequestContext, Finding}
use pr_sentinel.Agents.Grounding.{
  Ground, dropped, raises, grounded, Parsed, count_in, ground_item, parse_from, parse_findings,
}
use pr_sentinel.Agents.Grounding.Sound.{IsGrounded, AllGrounded, ground_raw-AllGrounded}

-- `n` findings have been read: those kept are grounded, and each of the others is counted.
pub record IsTally (F : Floats) (agent : AgentType) (pr : PullRequestContext) (n : ℕ) (p : Parsed)
    : Type 0 where
  pub kept : All (IsGrounded F agent pr) p.findings
  pub read : length p.findings + p.dropped ≡ n
  pub moved : p.snapped ≤ length p.findings

module _ {J : Type 0} (P : Json J) (F : Floats) (U : Unicode) (walk : ℕ → List ℕ → ℕ × List ℕ)
    (walked : (l n : ℕ) (ls : List ℕ) → In n ((walk l ls).0 ∷ (walk l ls).1) → In n (l ∷ ls))
    (agent : AgentType) (new_id : ℕ → ℕ) (pr : PullRequestContext) where
  abbrev Tallied : ℕ → Option Parsed → Type 0
  Tallied n none = Unit
  Tallied n (some p) = IsTally F agent pr n p

  Tallied-bind :
      (m n : ℕ) (o : Option Parsed) (rest : Parsed → Option Parsed)
      → Tallied m o
      → ((p : Parsed) → IsTally F agent pr m p → Tallied n (rest p))
      → Tallied n (o >>= rest)
  Tallied-bind m n none rest t h = tt
  Tallied-bind m n (some p) rest t h = h p t

  appended :
      (n : ℕ) (p : Parsed) (f : Finding) (moved : ℕ)
      → IsTally F agent pr n p
      → IsGrounded F agent pr f
      → moved ≤ p.snapped + 1
      → IsTally F agent pr (n + 1) (record p { findings = p.findings ++ f ∷ []; snapped = moved })
  appended n p f moved t g le = record {
    kept = All-append (IsGrounded F agent pr) p.findings (f ∷ []) t.kept (g, tt);
    read = omega (arith, length-append p.findings (f ∷ []), t.read);
    moved = omega (arith, length-append p.findings (f ∷ []), t.moved, le);
  }

  count_in-Tallied :
      (g : Ground) (n : ℕ) (p : Parsed)
      → AllGrounded P F U walk walked agent pr g
      → IsTally F agent pr n p
      → Tallied (n + 1) (count_in g p)
  unfolding count_in
  count_in-Tallied dropped n p g t = record {
    kept = t.kept;
    read = omega (arith, t.read);
    moved = t.moved;
  }
  count_in-Tallied raises n p g t = tt
  count_in-Tallied (grounded f true) n p g t = appended n p f (p.snapped + 1) t g (omega arith)
  count_in-Tallied (grounded f false) n p g t = appended n p f p.snapped t g (omega arith)

  item-AllGrounded :
      (n : ℕ) (raw : J)
      → AllGrounded P F U walk walked agent pr (ground_item P F U walk agent new_id pr n raw)
  unfolding ground_item
  item-AllGrounded n raw = elim (Bool-cases (P.is_dict raw)) [
    | inl h ↦ rw h (ground_raw-AllGrounded P F U walk walked agent pr (new_id n) raw)
    | inr h ↦ rw h tt
  ]

  parse_from-Tallied :
      (raws : List J) (k n m : ℕ) (p : Parsed)
      → n + length raws ≡ m
      → IsTally F agent pr n p
      → Tallied m (parse_from P F U walk agent new_id pr k raws p)
  unfolding parse_from
  parse_from-Tallied [] k n m p e t = record {
    kept = t.kept;
    read = omega (arith, t.read, e);
    moved = t.moved;
  }
  parse_from-Tallied (raw ∷ raws) k n m p e t =
      Tallied-bind (n + 1) m (count_in (ground_item P F U walk agent new_id pr k raw) p) _
        (count_in-Tallied (ground_item P F U walk agent new_id pr k raw) n p
          (item-AllGrounded k raw) t)
        (λ q u. parse_from-Tallied raws (k + 1) (n + 1) m q (omega (arith, e)) u)

  -- Of what a model reports, each finding that is kept is about a file of the pull request: it
  -- starts at a line that a comment can be attached to, does not end before it or behind the last
  -- such line, and is at most fully confident. Every other is counted as dropped, and no more are
  -- counted as moved than are kept. The order in which a set is walked must not add lines.
  pub parse_findings-IsTally :
      (raws : List J) (p : Parsed)
      → parse_findings P F U walk agent new_id pr raws ≡ some p
      → IsTally F agent pr (length raws) p
  unfolding parse_findings
  parse_findings-IsTally raws p h = subst (Tallied (length raws)) h (
      parse_from-Tallied raws 0 0 (length raws) _ (omega arith)
        (record { kept = tt; read = refl; moved = omega arith }))
