-- ===== src/Orchestration/Pipeline/Resume.antt =====
-- A review that is run again: which agents the panel asks, and which verdicts the review goes by.
use pr_sentinel.Prelude.{
  ℕ, ◌≡◌, ◌≢◌, inl, inr, refl, sym, ap, ◌∙◌, Bool, true, false, not, List, [], ◌∷◌, filter_by, In,
  All, In-filter_by_back, All-map_pred, All-filter_by, Bool-cases, arith,
}
use pr_sentinel.Database.{Database, Columns}
use pr_sentinel.Database.Reviews.{is_completed, load_verdicts, save_verdict, stored_verdict}
use pr_sentinel.Database.Reviews.Verdicts.{
  load_verdicts_iff, is_completed_iff, load_verdicts-save_verdict,
}
use pr_sentinel.Domain.Enums.{AgentType, all_agents, security, correctness, tests, docs}
use pr_sentinel.Domain.Models.{AgentVerdict, verdict_ok}
use pr_sentinel.Orchestration.Panel.{
  AgentRun, verdict_of, run_panel, AnswersForItself, verdict_of-agent,
}
use pr_sentinel.Orchestration.Pipeline.{
  answered, Surroundings, todo, save_verdicts, run_todo, read_panel, or_else, collect,
}

-- No element stands twice.
abbrev IsDistinct : List AgentType → Type 0
IsDistinct [] = Unit
IsDistinct (a ∷ agents) = All (λ b. a ≢ b) agents × IsDistinct agents

all_agents-IsDistinct : IsDistinct all_agents
all_agents-IsDistinct = ground arith

All-filter :
    (P : AgentType → Type 0) (p : AgentType → Bool) (agents : List AgentType)
    → All P agents
    → All P (filter_by p agents)
All-filter P p [] h = tt
All-filter P p (a ∷ agents) h = elim (Bool-cases (p a)) [
  | inl t ↦ rw t (h.0, All-filter P p agents h.1)
  | inr f ↦ rw f (All-filter P p agents h.1)
]

filter_by-IsDistinct :
    (p : AgentType → Bool) (agents : List AgentType)
    → IsDistinct agents
    → IsDistinct (filter_by p agents)
filter_by-IsDistinct p [] h = tt
filter_by-IsDistinct p (a ∷ agents) h = elim (Bool-cases (p a)) [
  | inl t ↦ rw t (All-filter (λ b. a ≢ b) p agents h.0, filter_by-IsDistinct p agents h.1)
  | inr f ↦ rw f (filter_by-IsDistinct p agents h.1)
]

every_agent : (a : AgentType) → In a all_agents
every_agent security = inl refl
every_agent correctness = inr (inl refl)
every_agent tests = inr (inr (inl refl))
every_agent docs = inr (inr (inr (inl refl)))

-- A verdict stays while those of other agents are saved.
save_verdicts_keeps :
    (C : Columns) (id : ℕ) (v : AgentVerdict) (vs : List AgentVerdict) (db : Database)
    → In v (load_verdicts id db)
    → All (λ w. v.agent ≢ w.agent) vs
    → In v (load_verdicts id (save_verdicts C id vs db))
unfolding save_verdicts
save_verdicts_keeps C id v [] db m h = m
save_verdicts_keeps C id v (w ∷ vs) db m h =
    save_verdicts_keeps C id v vs (save_verdict C id w db)
      ((load_verdicts-save_verdict C id w db v).1 (inr (m, h.0))) h.1

module _ (C : Columns) (id : ℕ) (runs : AgentType → AgentRun) (own : AnswersForItself runs) where
  other_names :
      (a : AgentType) (v : AgentVerdict) (agents : List AgentType)
      → v.agent ≡ a
      → All (λ b. a ≢ b) agents
      → All (λ w. v.agent ≢ w.agent) (run_panel runs agents)
  unfolding run_panel
  other_names a v [] e h = tt
  other_names a v (b ∷ agents) e h =
      (λ s. h.0 (sym e ∙ s ∙ verdict_of-agent runs own b), other_names a v agents e h.1)

  -- The panel's verdict on each agent that it is asked about is stored.
  save_panel :
      (a : AgentType) (agents : List AgentType) (db : Database)
      → IsDistinct agents
      → In a agents
      → In
          (stored_verdict C (verdict_of a (runs a)))
          (load_verdicts id (save_verdicts C id (run_panel runs agents) db))
  unfolding save_verdicts run_panel stored_verdict
  save_panel a [] db d m = absurd m
  save_panel a (b ∷ agents) db d (inl e) =
      save_verdicts_keeps C id (stored_verdict C (verdict_of a (runs a))) (run_panel runs agents)
        (save_verdict C id (verdict_of b (runs b)) db)
        ((load_verdicts-save_verdict C id (verdict_of b (runs b)) db
            (stored_verdict C (verdict_of a (runs a)))).1
          (inl (ap (λ x. stored_verdict C (verdict_of x (runs x))) e)))
        (other_names b (stored_verdict C (verdict_of a (runs a))) agents
          (verdict_of-agent runs own a ∙ e) d.0)
  save_panel a (b ∷ agents) db d (inr m) =
      save_panel a agents (save_verdict C id (verdict_of b (runs b)) db) d.1 m

not_left :
    (id : ℕ) (db : Database) (a : AgentType)
    → is_completed id db a ≡ true
    → (agents : List AgentType)
    → All (λ b. a ≢ b) (filter_by (λ b. not (is_completed id db b)) agents)
not_left id db a done agents =
    All-map_pred (λ b. not (is_completed id db b) ≡ true) (λ b. a ≢ b)
      (λ b open_b e. absurd (ground (arith, open_b, done, ap (is_completed id db) e)))
      (filter_by (λ b. not (is_completed id db b)) agents)
      (All-filter_by (λ b. not (is_completed id db b)) agents)

In-or_else : (v : AgentVerdict) (xs ys : List AgentVerdict) → In v xs → In v (or_else xs ys)
unfolding or_else
In-or_else v [] ys m = absurd m
In-or_else v (x ∷ xs) ys m = m

module _ (E : Surroundings) (runs : AgentType → AgentRun) (own : AnswersForItself runs)
    (local : (agents : List AgentType) → E.panel agents ≡ answered (run_panel runs agents)) where
  run_todo_local : (agents : List AgentType) → (run_todo E.panel agents).0 ≡ run_panel runs agents
  unfolding run_todo run_panel read_panel
  run_todo_local [] = refl
  run_todo_local (a ∷ agents) = rw (run_todo, local (a ∷ agents), read_panel)

  module _ (id : ℕ) (db : Database) where
    In-collect :
        (v : AgentVerdict)
        → In v (load_verdicts id (save_verdicts E.columns id (run_panel runs (todo id db)) db))
        → In v (collect E id db).1
    unfolding collect
    In-collect v m = In-or_else v _ _ (rw (run_todo_local (todo id db)) m)

    saved_now :
        (a : AgentType)
        → is_completed id db a ≡ false
        → In
            (stored_verdict E.columns (verdict_of a (runs a)))
            (load_verdicts id (save_verdicts E.columns id (run_panel runs (todo id db)) db))
    unfolding todo
    saved_now a left =
        save_panel E.columns id runs own a (todo id db) db
          (filter_by-IsDistinct (λ b. not (is_completed id db b)) all_agents all_agents-IsDistinct)
          (In-filter_by_back (λ b. not (is_completed id db b)) all_agents a (every_agent a)
            (rw left))

    -- A review that is run again with the local engine goes by a verdict of every agent: for an agent
    -- that had returned before it is the one that was stored, and for any other agent what the panel
    -- makes of its run now, as it is stored.
    pub collect_resumes :
        (a : AgentType)
        → (v : AgentVerdict) × In v (collect E id db).1
          × (v.agent ≡ a)
          × (is_completed id db a ≡ true → In v (load_verdicts id db) × (verdict_ok v ≡ true))
          × (is_completed id db a ≡ false → v ≡ stored_verdict E.columns (verdict_of a (runs a)))
    unfolding todo is_completed stored_verdict verdict_of
    collect_resumes a = elim (Bool-cases (is_completed id db a)) [
      | inl done ↦
          let (v, stored, e, back) = (is_completed_iff id db a).0 done in
          let m = (load_verdicts_iff id db v).1 stored in
          (
            v,
            In-collect v (
                save_verdicts_keeps E.columns id v (run_panel runs (todo id db)) db m (
                  other_names E.columns id runs own a v (todo id db) e
                    (not_left id db a done all_agents))),
            e,
            λ _. (m, back),
            λ f. absurd (ground (arith, f, done)),
          )
      | inr left ↦ (
        stored_verdict E.columns (verdict_of a (runs a)),
        In-collect _ (saved_now a left),
        verdict_of-agent runs own a,
        λ t. absurd (ground (arith, t, left)),
        λ _. refl,
      )
    ]
