-- ===== src/Database/Reviews/Opened.antt =====
-- INVARIANT-2 of migrations/001_core.sql: a delivery has one review of a pull request, whatever else the
-- repository writes.
use pr_sentinel.Prelude.{
  ℕ, ◌≡◌, ◌≤◌, ◌<◌, inl, inr, refl, ap, ◌∙◌, subst, true, false, Bool, Option, none, some, List, [],
  ◌∷◌, map, Text, text_eq_iff, length, filter_by, find_first, Bool-cases, Option-cases, arith,
}
use pr_sentinel.Runtime.{Float}
use pr_sentinel.Domain.Enums.{Decision, EscalationReason, ReviewStatus}
use pr_sentinel.Domain.Models.{Finding, AgentVerdict}
use pr_sentinel.Database.{Database, Columns, ReviewRow}
use pr_sentinel.Database.Reviews.{
  open_review, is_review, review_row, save_verdict, save_findings, mark_posted, finish_review,
  enqueue_hitl,
}
use pr_sentinel.Database.Reviews.Upserts.{opened_before, opened_new, is_itself, finds_itself}

same_keys :
    (fresh a : ℕ) (d bundle : Text) (pr_id : ℕ) (delivery_id : Text)
    → is_review pr_id delivery_id (review_row fresh a d bundle) ≡ true
    → (a ≡ pr_id) × (d ≡ delivery_id)
unfolding is_review review_row
same_keys fresh a d bundle pr_id delivery_id t = ground (arith, text_eq_iff d delivery_id)

save_findings-reviews :
    (C : Columns) (id : ℕ) (fs : List Finding) (db : Database)
    → (save_findings C id fs db).reviews ≡ db.reviews
unfolding save_findings
save_findings-reviews C id [] db = refl
save_findings-reviews C id (f ∷ fs) db = refl

-- A call of the repository that reads or writes a review after it was opened, for whatever review.
pub data Change : Type 0 where
  opens : ℕ → ℕ → Text → Text → Change
  saves_verdict : ℕ → AgentVerdict → Change
  saves_findings : ℕ → List Finding → Change
  marks_posted : List ℕ → Change
  finishes :
      ℕ
      → ReviewStatus
      → Option Decision
      → Option EscalationReason
      → Float
      → Float
      → Option ℕ
      → Option Text
      → Change
  enqueues : ℕ → ℕ → EscalationReason → Text → ℕ → Change

abbrev pub change : Columns → Change → Database → Database
change C (opens fresh pr_id delivery_id bundle) db =
    (open_review fresh pr_id delivery_id bundle db).0
change C (saves_verdict id v) db = save_verdict C id v db
change C (saves_findings id fs) db = save_findings C id fs db
change C (marks_posted ids) db = mark_posted ids db
change C (finishes id status decision reason confidence cost github_id error) db =
    finish_review C id status decision reason confidence cost github_id error db
change C (enqueues fresh id reason summary priority) db =
    enqueue_hitl fresh id reason summary priority db

abbrev pub change_all : Columns → List Change → Database → Database
change_all C [] db = db
change_all C (c ∷ cs) db = change_all C cs (change C c db)

-- How many rows the table has for a delivery's review of a pull request.
abbrev pub count_reviews : ℕ → Text → Database → ℕ
count_reviews pr_id delivery_id db = length (filter_by (is_review pr_id delivery_id) db.reviews)

-- The row of a delivery's review of a pull request: it is the only one, and has the id.
abbrev IsOnly : ℕ → Text → ℕ → List ReviewRow → Type 0
IsOnly pr_id delivery_id id rs =
    (length (filter_by (is_review pr_id delivery_id) rs) ≡ 1)
    × (r : ReviewRow) × (find_first (is_review pr_id delivery_id) rs ≡ some r)
    × (r.id ≡ id)

none_found :
    (p : ReviewRow → Bool) (rs : List ReviewRow)
    → find_first p rs ≡ none
    → length (filter_by p rs) ≡ 0
none_found p [] h = refl
none_found p (r ∷ rs) h = ground (arith, none_found p rs)

some_found :
    (p : ReviewRow → Bool) (rs : List ReviewRow) (r : ReviewRow)
    → find_first p rs ≡ some r
    → 0 < length (filter_by p rs)
some_found p [] r h = cc
some_found p (x ∷ rs) r h = ground (arith, some_found p rs r)

-- A change of rows that keeps their keys.
record KeepsKeys (f : ReviewRow → ReviewRow) : Type 0 where
  same_id : (r : ReviewRow) → (f r).id ≡ r.id
  same_key : (a : ℕ) (d : Text) (r : ReviewRow) → is_review a d (f r) ≡ is_review a d r

module _ (f : ReviewRow → ReviewRow) (K : KeepsKeys f) (pr_id : ℕ) (delivery_id : Text) where
  kept_count :
      (rs : List ReviewRow)
      → length (filter_by (is_review pr_id delivery_id) (map f rs))
        ≡ length (filter_by (is_review pr_id delivery_id) rs)
  kept_count [] = refl
  kept_count (r ∷ rs) = ground (arith, K.same_key pr_id delivery_id r, kept_count rs)

  kept_first :
      (rs : List ReviewRow) (r : ReviewRow)
      → find_first (is_review pr_id delivery_id) rs ≡ some r
      → find_first (is_review pr_id delivery_id) (map f rs) ≡ some (f r)
  kept_first [] r h = cc
  kept_first (x ∷ rs) r h = elim (Bool-cases (is_review pr_id delivery_id x)) [
    | inl t ↦
        let e : x ≡ r = ground (arith, h, t) in
        rw (K.same_key pr_id delivery_id x, t) (ap (λ y. some (f y)) e)
    | inr n ↦ rw (K.same_key pr_id delivery_id x, n) (kept_first rs r (rw n at h))
  ]

  kept-IsOnly :
      (id : ℕ) (rs : List ReviewRow)
      → IsOnly pr_id delivery_id id rs
      → IsOnly pr_id delivery_id id (map f rs)
  kept-IsOnly id rs (one, r, found, same) =
      (kept_count rs ∙ one, f r, kept_first rs r found, K.same_id r ∙ same)

opened-IsOnly :
    (fresh pr_id : ℕ) (delivery_id bundle : Text) (db : Database)
    → count_reviews pr_id delivery_id db ≤ 1
    → IsOnly pr_id delivery_id
        (open_review fresh pr_id delivery_id bundle db).1
        (open_review fresh pr_id delivery_id bundle db).0.reviews
opened-IsOnly fresh pr_id delivery_id bundle db few =
    elim (Option-cases (find_first (is_review pr_id delivery_id) db.reviews)) [
      | inl e ↦ rw (opened_new fresh pr_id delivery_id bundle db e) (
        rw (is_itself fresh pr_id delivery_id bundle)
            (omega (arith, none_found (is_review pr_id delivery_id) db.reviews e)),
        review_row fresh pr_id delivery_id bundle,
        finds_itself fresh pr_id delivery_id bundle db.reviews,
        unfold review_row in refl,
      )
      | inr (r, e) ↦
          rw (opened_before fresh pr_id delivery_id bundle db r e) (
            omega (arith, few, some_found (is_review pr_id delivery_id) db.reviews r e),
            r,
            e,
            refl,
          )
    ]

module _ (C : Columns) (pr_id : ℕ) (delivery_id : Text) (id : ℕ) where
  finish_review-IsOnly :
      (review_id : ℕ) (status : ReviewStatus) (decision : Option Decision)
      (reason : Option EscalationReason) (confidence cost : Float) (github_id : Option ℕ)
      (error : Option Text) (db : Database)
      → IsOnly pr_id delivery_id id db.reviews
      → IsOnly pr_id delivery_id id
          (finish_review C review_id status decision reason confidence cost github_id error
            db).reviews
  unfolding finish_review is_review
  finish_review-IsOnly review_id status decision reason confidence cost github_id error db h =
      kept-IsOnly _ (record { same_id = λ r. ground arith; same_key = λ a d r. ground arith }) pr_id
        delivery_id id db.reviews h

  open_review-IsOnly :
      (fresh a : ℕ) (d bundle : Text) (db : Database)
      → IsOnly pr_id delivery_id id db.reviews
      → IsOnly pr_id delivery_id id (open_review fresh a d bundle db).0.reviews
  open_review-IsOnly fresh a d bundle db h =
      elim (Option-cases (find_first (is_review a d) db.reviews)) [
        | inr (r, e) ↦ rw (opened_before fresh a d bundle db r e) h
        | inl e ↦
            rw (opened_new fresh a d bundle db e)
              (elim (Bool-cases (is_review pr_id delivery_id (review_row fresh a d bundle))) [
                | inr n ↦ rw n h
                | inl t ↦ absurd (taken h t e)
              ])
      ]
    where
      taken :
          IsOnly pr_id delivery_id id db.reviews
          → is_review pr_id delivery_id (review_row fresh a d bundle) ≡ true
          → find_first (is_review a d) db.reviews ≡ none
          → ⊥
      taken (one, r, found, same) t e =
          let (same_pr, same_delivery) = same_keys fresh a d bundle pr_id delivery_id t in
          absurd (
            ground (
              arith,
              found,
              subst (λ x. find_first (is_review x delivery_id) db.reviews ≡ none) same_pr
                  (subst (λ x. find_first (is_review a x) db.reviews ≡ none) same_delivery e),
            ))

  change-IsOnly :
      (c : Change) (db : Database)
      → IsOnly pr_id delivery_id id db.reviews
      → IsOnly pr_id delivery_id id (change C c db).reviews
  unfolding save_verdict mark_posted enqueue_hitl
  change-IsOnly (opens fresh a d bundle) db h = open_review-IsOnly fresh a d bundle db h
  change-IsOnly (saves_verdict n v) db h = h
  change-IsOnly (saves_findings n fs) db h = rw (save_findings-reviews C n fs db) h
  change-IsOnly (marks_posted ids) db h = h
  change-IsOnly (finishes n status decision reason confidence cost github_id error) db h =
      finish_review-IsOnly n status decision reason confidence cost github_id error db h
  change-IsOnly (enqueues fresh n reason summary priority) db h = h

  change_all-IsOnly :
      (cs : List Change) (db : Database)
      → IsOnly pr_id delivery_id id db.reviews
      → IsOnly pr_id delivery_id id (change_all C cs db).reviews
  change_all-IsOnly [] db h = h
  change_all-IsOnly (c ∷ cs) db h = change_all-IsOnly cs (change C c db) (change-IsOnly c db h)

-- INVARIANT-2: in tables with at most one row for this delivery's review of this pull request, once the
-- delivery has opened its review, and whatever the other calls have written since, among them the end of
-- this review and the opening of others: there is one row for it, and opening it again, under whatever
-- new id and prompt bundle, changes no row and gives the id of the first time.
pub open_review_again :
    (C : Columns) (fresh fresh' pr_id : ℕ) (delivery_id bundle bundle' : Text) (db : Database)
    (changes : List Change)
    → count_reviews pr_id delivery_id db ≤ 1
    → let opened = open_review fresh pr_id delivery_id bundle db in
      let db' = change_all C changes opened.0 in
      (count_reviews pr_id delivery_id db' ≡ 1)
      × (open_review fresh' pr_id delivery_id bundle' db' ≡ (db', opened.1, false))
open_review_again C fresh fresh' pr_id delivery_id bundle bundle' db changes few =
    let opened = open_review fresh pr_id delivery_id bundle db in
    let (one, r, found, same) =
      change_all-IsOnly C pr_id delivery_id opened.1 changes opened.0
        (opened-IsOnly fresh pr_id delivery_id bundle db few) in
    (
      one,
      opened_before fresh' pr_id delivery_id bundle' (change_all C changes opened.0) r found
          ∙ ap (λ n. (change_all C changes opened.0, n, false)) same,
    )
