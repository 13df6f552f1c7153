-- ===== src/Orchestration/Pipeline/Fate.antt =====
-- What _act brings about: the fate of the decision.
use pr_sentinel.Prelude.{
  ℕ, ◌≡◌, inl, inr, refl, ap, ◌∙◌, Bool, true, false, ◌==◌, Option, none, some, List, [], ◌∷◌, ◌++◌,
  map, find_first, Bool-cases, arith, if◌then◌else◌,
}
use pr_sentinel.Database.{Database, Columns, ReviewRow, HitlRow}
use pr_sentinel.Database.Reviews.{finish_review, enqueue_hitl, mark_posted}
use pr_sentinel.Domain.Enums.{
  Decision, auto_post, escalate, suppress, EscalationReason, low_confidence, policy, ReviewStatus,
}
use pr_sentinel.Domain.Models.{PullRequestContext, ReviewOutcome}
use pr_sentinel.Forge.Github.{
  Answer, replied, rejected, broken_off, takes, Comment, send_request, post_review,
}
use pr_sentinel.Orchestration.Pipeline.{
  Surroundings, Sending, World, or_low_confidence, finish, deliver, close_posted, try_post,
  hand_to_human, suppress_with, post_or_escalate, act_on, act,
}
use pr_sentinel.Orchestration.Pipeline.View.{
  Fate, last_answer, sent_id, sent_as, has_arrived, fate_of_sending, reason_or, fate, View, view,
  status_of, decision_of, reason_of, github_id_of, settled, map_row, items, publishes, comment_of,
  quiet, public, human,
}

-- The first row that passes a test, when the rows that pass are changed and still pass.
find_changed :
    (p : ReviewRow → Bool) (f : ReviewRow → ReviewRow)
    → ((r : ReviewRow) → p r ≡ true → p (f r) ≡ true)
    → (rs : List ReviewRow)
    → find_first p (map (λ r. if p r then f r else r) rs) ≡ map_row f (find_first p rs)
find_changed p f still [] = refl
find_changed p f still (r ∷ rs) = elim (Bool-cases (p r)) [
  | inl t ↦ rw (t, still r t) refl
  | inr n ↦ rw (n, n) (find_changed p f still rs)
]

module _ (C : Columns) (id : ℕ) where
  finish_row :
      (status : ReviewStatus) (decision : Decision) (reason : Option EscalationReason)
      (github_id : Option ℕ) (o : ReviewOutcome) (db : Database)
      → find_first
          (λ r. r.id == id)
          (finish_review C id status
            (some decision)
            reason
            o.overall_confidence
            o.total_cost_usd
            github_id
            none
            db).reviews
        ≡ map_row
            (λ r. record r {
              status = status;
              decision = some decision;
              decision_reason = reason;
              overall_confidence = some (C.confidence (C.round3 o.overall_confidence));
              total_cost_usd = C.cost (C.round6 o.total_cost_usd);
              github_review_id = github_id;
              error = none;
              finished = true;
            })
            (find_first (λ r. r.id == id) db.reviews)
  unfolding finish_review
  finish_row status decision reason github_id o db =
      find_changed (λ r. r.id == id) _ (λ r h. h) db.reviews

views :
    {row row' : Option ReviewRow} {queue queue' : List HitlRow} (comments : List Comment)
    → row ≡ row'
    → queue ≡ queue'
    → Path View
        (record { review = row; queue = queue; comments = comments })
        (record { review = row'; queue = queue'; comments = comments })
views comments e f = rw (e, f) refl

module _ (E : Surroundings) (pr : PullRequestContext) (id : ℕ) (o : ReviewOutcome) (w : World) where
  -- What the watcher sees when the review has been finished on the rows of `db`.
  seen :
      (end : Fate) (db : Database) (comments : List Comment)
      → db.reviews ≡ w.database.reviews
      → db.hitl_items ≡ items E pr id o end ++ w.database.hitl_items
      → view id (record {
        database =
            finish E pr id
              (status_of end)
              (decision_of end)
              (reason_of end)
              (github_id_of end)
              o
              db;
        comments = comments;
      })
        ≡ record {
          review = map_row (settled E.columns o end) (view id w).review;
          queue = items E pr id o end ++ (view id w).queue;
          comments = comments;
        }
  unfolding finish finish_review
  seen end db comments rows queue =
      views comments
        (finish_row E.columns id (status_of end) (decision_of end) (reason_of end)
            (github_id_of end) o db
          ∙ ap (λ rs. map_row (settled E.columns o end) (find_first (λ r. r.id == id) rs)) rows)
        queue

  ends_quiet :
      (d : Decision)
      → view id (suppress_with E pr id d o w).0 ≡ record {
        review = map_row (settled E.columns o (quiet d)) (view id w).review;
        queue = (view id w).queue;
        comments = w.comments;
      }
  unfolding suppress_with
  ends_quiet d = seen (quiet d) w.database w.comments refl refl

  ends_human :
      (reason : Option EscalationReason) (w' : World)
      → w'.database.reviews ≡ w.database.reviews
      → w'.database.hitl_items ≡ w.database.hitl_items
      → view id (hand_to_human E pr id reason o w').0 ≡ record {
        review = map_row (settled E.columns o (human (reason_or reason))) (view id w).review;
        queue = items E pr id o (human (reason_or reason)) ++ (view id w).queue;
        comments = w'.comments;
      }
  unfolding hand_to_human or_low_confidence enqueue_hitl
  ends_human none w' rows queue =
      seen (human low_confidence) _ w'.comments rows
        (ap (λ q. items E pr id o (human low_confidence) ++ q) queue)
  ends_human (some r) w' rows queue =
      seen (human r) _ w'.comments rows (ap (λ q. items E pr id o (human r) ++ q) queue)

  decision_not_read :
      (reason : Option EscalationReason) (d : Decision) (w' : World)
      → (hand_to_human E pr id reason (record o { decision = d }) w').0
        ≡ (hand_to_human E pr id reason o w').0
  unfolding hand_to_human finish
  decision_not_read reason d w' = refl

  delivered :
      (sending : Sending)
      → deliver E pr id sending o
        ≡ send_request (last_answer sending o.postable) (comment_of E pr id sending o)
  unfolding deliver post_review
  delivered sending = ground arith

  tried :
      (sending : Sending) (a : Answer)
      → last_answer sending o.postable ≡ a
      → try_post E pr id sending o w
        ≡ close_posted E pr id sending
            (send_request a (comment_of E pr id sending o)).1
            o
            (record w {
              comments = (send_request a (comment_of E pr id sending o)).0 ++ w.comments;
            })
  unfolding try_post
  tried sending a e = rw (try_post, delivered sending, e) refl

  escalated :
      (sending : Sending) (w' : World)
      → try_post E pr id sending o w ≡ (w', false)
      → w'.database.reviews ≡ w.database.reviews
      → w'.database.hitl_items ≡ w.database.hitl_items
      → view id (post_or_escalate E pr id sending o w).0 ≡ record {
        review = map_row (settled E.columns o (human policy)) (view id w).review;
        queue = items E pr id o (human policy) ++ (view id w).queue;
        comments = w'.comments;
      }
  unfolding post_or_escalate
  escalated sending w' failed rows queue =
      rw (failed, decision_not_read (some policy) escalate w')
        (ends_human (some policy) w' rows queue)

  published :
      (sending : Sending) (w' : World)
      → try_post E pr id sending o w ≡ (w', true)
      → (post_or_escalate E pr id sending o w).0 ≡ w'
  unfolding post_or_escalate
  published sending w' returned = rw (post_or_escalate, returned) refl

  -- The end of a sending by the answer that decides.
  ends_answer :
      (first second a : Answer) (m f : Bool)
      → let sending : Sending = record {
        first = first;
        second = second;
        marks = m;
        finishes = f;
      } in
        last_answer sending o.postable ≡ a
        → view id (post_or_escalate E pr id sending o w).0 ≡ record {
          review =
              map_row (settled E.columns o (fate_of_sending (sent_id m f a))) (view id w).review;
          queue = items E pr id o (fate_of_sending (sent_id m f a)) ++ (view id w).queue;
          comments = (if takes a then comment_of E pr id sending o ∷ [] else []) ++ w.comments;
        }
  unfolding close_posted mark_posted send_request takes
  ends_answer first second (rejected status) m f e =
      escalated (record { first = first; second = second; marks = m; finishes = f }) _
        (tried _ (rejected status) e) refl refl
  ends_answer first second (broken_off taken) m f e =
      escalated (record { first = first; second = second; marks = m; finishes = f }) _
        (tried _ (broken_off taken) e) refl refl
  ends_answer first second (replied n) false f e =
      escalated (record { first = first; second = second; marks = false; finishes = f }) _
        (tried _ (replied n) e) refl refl
  ends_answer first second (replied n) true false e =
      escalated (record { first = first; second = second; marks = true; finishes = false }) _
        (tried _ (replied n) e) refl refl
  ends_answer first second (replied n) true true e =
      ap (view id) (
        published (record { first = first; second = second; marks = true; finishes = true }) _
          (tried _ (replied n) e))
      ∙ seen (public n) _ _ refl refl

  ends_sending :
      (sending : Sending)
      → view id (post_or_escalate E pr id sending o w).0 ≡ record {
        review =
            map_row
              (settled E.columns o (fate_of_sending (sent_as sending o.postable)))
              (view id w).review;
        queue = items E pr id o (fate_of_sending (sent_as sending o.postable)) ++ (view id w).queue;
        comments =
            (if has_arrived sending o.postable then comment_of E pr id sending o ∷ [] else [])
            ++ w.comments;
      }
  ends_sending sending =
      ends_answer sending.first sending.second (last_answer sending o.postable) sending.marks
        sending.finishes refl

  decided :
      (d : Decision) (post : Bool) (sending : Sending)
      → view id (act_on E pr id d post sending o w).0 ≡ record {
        review =
            map_row
              (settled E.columns o (fate post sending o.postable d o.reason))
              (view id w).review;
        queue = items E pr id o (fate post sending o.postable d o.reason) ++ (view id w).queue;
        comments =
            (if publishes post sending o.postable d then comment_of E pr id sending o ∷ [] else [])
            ++ (view id w).comments;
      }
  unfolding act_on
  decided auto_post true sending = ends_sending sending
  decided auto_post false sending = ends_quiet auto_post
  decided escalate true sending = ends_human o.reason w refl refl
  decided escalate false sending = ends_human o.reason w refl refl
  decided suppress true sending = ends_quiet suppress
  decided suppress false sending = ends_quiet suppress

  pub act_refines-fate :
      (post : Bool) (sending : Sending)
      → view id (act E pr id post sending o w).0 ≡ record {
        review =
            map_row
              (settled E.columns o (fate post sending o.postable o.decision o.reason))
              (view id w).review;
        queue =
            items E pr id o (fate post sending o.postable o.decision o.reason) ++ (view id w).queue;
        comments =
            (if publishes post sending o.postable o.decision
              then comment_of E pr id sending o ∷ []
              else [])
            ++ (view id w).comments;
      }
  unfolding act
  act_refines-fate post sending = decided o.decision post sending
