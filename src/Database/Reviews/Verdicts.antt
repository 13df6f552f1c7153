-- ===== src/Database/Reviews/Verdicts.antt =====
-- What load_verdicts and completed_agents find after save_verdict.
use pr_sentinel.Prelude.{
  ℕ, ◌≡◌, ◌≢◌, ◌↔◌, ◌⊎◌, inl, inr, refl, sym, subst, ap, ◌∙◌, Bool, true, false, not, ◌&&◌, ◌==◌,
  ==_iff, map, In, In-map, map-In, In-filter_by_back, In-of_filter_by, In-sort, sort-In, any_sound,
  any_complete, arith,
}
use pr_sentinel.Domain.Enums.{AgentType, same_agent, same_agent_iff}
use pr_sentinel.Domain.Models.{AgentVerdict, verdict_ok}
use pr_sentinel.Database.{VerdictRow, Database, Columns}
use pr_sentinel.Database.Reviews.{
  load_verdicts, save_verdict, stored_verdict, rows_of, same_row, verdict_before, is_completed,
}

-- `v` stands in the table as a verdict of the review.
abbrev pub IsStored : ℕ → Database → AgentVerdict → Type 0
IsStored id db v = (r : VerdictRow) × In r db.agent_verdicts × (r.review_id ≡ id) × (r.verdict ≡ v)

rows_of_iff :
    (id : ℕ) (db : Database) (r : VerdictRow)
    → In r (rows_of id db) ↔ (In r db.agent_verdicts × (r.review_id ≡ id))
unfolding rows_of
rows_of_iff id db r = (
  λ m.
      let (i, e) = In-of_filter_by (λ x. x.review_id == id) db.agent_verdicts r m in
      (i, (==_iff r.review_id id).0 e),
  λ p.
      In-filter_by_back (λ x. x.review_id == id) db.agent_verdicts r p.0
        ((==_iff r.review_id id).1 p.1),
)

pub load_verdicts_iff :
    (id : ℕ) (db : Database) (v : AgentVerdict) → In v (load_verdicts id db) ↔ IsStored id db v
unfolding load_verdicts
load_verdicts_iff id db v = (
  λ m.
      let (r, i, e) =
        map-In (λ r. r.verdict) v (rows_of id db)
          (sort-In verdict_before v (map (λ r. r.verdict) (rows_of id db)) m) in
      let (j, k) = (rows_of_iff id db r).0 i in (r, j, k, e),
  λ (r, j, k, e). In-sort verdict_before v (map (λ r. r.verdict) (rows_of id db)) (
      subst (λ w. In w (map (λ r. r.verdict) (rows_of id db))) e
        (In-map (λ r. r.verdict) r (rows_of id db) ((rows_of_iff id db r).1 (j, k)))),
)

pub is_completed_iff :
    (id : ℕ) (db : Database) (a : AgentType)
    → (is_completed id db a ≡ true)
      ↔ ((v : AgentVerdict) × IsStored id db v × (v.agent ≡ a) × (verdict_ok v ≡ true))
unfolding is_completed
is_completed_iff id db a = (
  λ t.
      let (r, m, h) =
        any_sound (λ r. same_agent r.verdict.agent a && verdict_ok r.verdict) (rows_of id db) t in
      let (j, k) = (rows_of_iff id db r).0 m in
      (
        r.verdict,
        (r, j, k, refl),
        ground (arith, h, (same_agent_iff r.verdict.agent a).0),
        ground (arith, h),
      ),
  λ (v, (r, j, k, e), same, back).
      any_complete (λ r. same_agent r.verdict.agent a && verdict_ok r.verdict) (rows_of id db) r
        ((rows_of_iff id db r).1 (j, k))
        (and_true (same_agent r.verdict.agent a) (verdict_ok r.verdict)
          ((same_agent_iff r.verdict.agent a).1 (ap (λ w. w.agent) e ∙ same))
          (ap verdict_ok e ∙ back)),
)
  where
    and_true : (p q : Bool) → p ≡ true → q ≡ true → (p && q) ≡ true
    and_true p q hp hq = ground (arith, hp, hq)

stored_first :
    (C : Columns) (id : ℕ) (w : AgentVerdict) (db : Database)
    → In
        (record { review_id = id; verdict = stored_verdict C w })
        (save_verdict C id w db).agent_verdicts
unfolding save_verdict
stored_first C id w db = inl refl

saved_before :
    (C : Columns) (id : ℕ) (w : AgentVerdict) (db : Database) (r : VerdictRow)
    → In r (save_verdict C id w db).agent_verdicts
    → (r ≡ record { review_id = id; verdict = stored_verdict C w })
      ⊎ (In r db.agent_verdicts × (same_row id w.agent r ≡ false))
unfolding save_verdict
saved_before C id w db r (inl e) = inl e
saved_before C id w db r (inr m) =
    let (i, h) = In-of_filter_by (λ r. not (same_row id w.agent r)) db.agent_verdicts r m in
    inr (i, ground (arith, h))

kept_behind :
    (C : Columns) (id : ℕ) (w : AgentVerdict) (db : Database) (r : VerdictRow)
    → In r db.agent_verdicts
    → same_row id w.agent r ≡ false
    → In r (save_verdict C id w db).agent_verdicts
unfolding save_verdict
kept_behind C id w db r m h =
    inr (In-filter_by_back (λ r. not (same_row id w.agent r)) db.agent_verdicts r m (rw h))

-- After save_verdict, load_verdicts gives for that review the verdict as it is stored, and the verdicts
-- of the other agents that it gave before, and nothing else: one verdict of an agent.
pub load_verdicts-save_verdict :
    (C : Columns) (id : ℕ) (w : AgentVerdict) (db : Database) (v : AgentVerdict)
    → In v (load_verdicts id (save_verdict C id w db))
      ↔ ((v ≡ stored_verdict C w) ⊎ (In v (load_verdicts id db) × (v.agent ≢ w.agent)))
load_verdicts-save_verdict C id w db v = (there, back)
  where
    other :
        (r : VerdictRow)
        → r.review_id ≡ id
        → same_row id w.agent r ≡ false
        → r.verdict.agent ≢ w.agent
    other r e h =
        unfold same_row in ground (arith, (same_agent_iff r.verdict.agent w.agent).1, e, h)

    differs : (r : VerdictRow) → r.verdict.agent ≢ w.agent → same_row id w.agent r ≡ false
    differs r h = unfold same_row in ground (arith, (same_agent_iff r.verdict.agent w.agent).0, h)

    there :
        In v (load_verdicts id (save_verdict C id w db))
        → (v ≡ stored_verdict C w) ⊎ (In v (load_verdicts id db) × (v.agent ≢ w.agent))
    there m =
        let (r, i, k, e) = (load_verdicts_iff id (save_verdict C id w db) v).0 m in
        elim (saved_before C id w db r i) [
          | inl same ↦ inl (sym e ∙ ap (λ r. r.verdict) same)
          | inr (j, h) ↦ inr (
            (load_verdicts_iff id db v).1 (r, j, k, e),
            λ a. other r k h (ap (λ w. w.agent) e ∙ a),
          )
        ]

    back :
        (v ≡ stored_verdict C w) ⊎ (In v (load_verdicts id db) × (v.agent ≢ w.agent))
        → In v (load_verdicts id (save_verdict C id w db))
    back (inl e) = (load_verdicts_iff id (save_verdict C id w db) v).1 (
      record { review_id = id; verdict = stored_verdict C w },
      stored_first C id w db,
      refl,
      sym e,
    )
    back (inr (m, h)) =
        let (r, j, k, e) = (load_verdicts_iff id db v).0 m in
        (load_verdicts_iff id (save_verdict C id w db) v).1
          (r, kept_behind C id w db r j (differs r (λ a. h (ap (λ w. w.agent) (sym e) ∙ a))), k, e)
