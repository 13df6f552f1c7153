-- ===== src/Orchestration/Pipeline/View.antt =====
-- What may become of a review, said without the code, and what a watcher sees of it.
use pr_sentinel.Prelude.{
  ℕ, Bool, true, false, ◌==◌, Option, none, some, List, [], ◌∷◌, ◌++◌, find_first, codes, show,
  if◌then◌else◌,
}
use pr_sentinel.Database.{Columns, ReviewRow, HitlRow}
use pr_sentinel.Domain.Enums.{
  Decision, auto_post, escalate, suppress, EscalationReason, low_confidence, policy, ReviewStatus,
  posted, suppressed, awaiting_human,
}
use pr_sentinel.Domain.Models.{Finding, PullRequestContext, ReviewOutcome}
use pr_sentinel.Forge.Github.{
  Answer, replied, rejected, broken_off, takes, Comment, is_refused_inline, inline_review,
  summary_review,
}
use pr_sentinel.Orchestration.Pipeline.{Surroundings, Sending, World, hitl_priority, body_of}

-- The end of a review: closed without a word, published, under an id if GitHub gave one, or waiting for
-- a person.
pub data Fate : Type 0 where
  quiet : Decision → Fate
  public : Option ℕ → Fate
  human : EscalationReason → Fate

-- The answer that decides: of the second request where GitHub has refused the comments at the lines.
abbrev pub last_answer : Sending → List Finding → Answer
last_answer s findings = if is_refused_inline s.first findings then s.second else s.first

-- What the sending gives as the id of the review, when it ends well.
abbrev pub sent_id : Bool → Bool → Answer → Option (Option ℕ)
sent_id marks finishes (replied id) = if marks then if finishes then some id else none else none
sent_id marks finishes (rejected status) = none
sent_id marks finishes (broken_off taken) = none

abbrev pub sent_as : Sending → List Finding → Option (Option ℕ)
sent_as s findings = sent_id s.marks s.finishes (last_answer s findings)

-- GitHub has the review, whatever the program heard of it.
abbrev pub has_arrived : Sending → List Finding → Bool
has_arrived s findings = takes (last_answer s findings)

abbrev pub fate_of_sending : Option (Option ℕ) → Fate
fate_of_sending none = human policy
fate_of_sending (some id) = public id

abbrev pub reason_or : Option EscalationReason → EscalationReason
reason_or none = low_confidence
reason_or (some r) = r

abbrev pub fate : Bool → Sending → List Finding → Decision → Option EscalationReason → Fate
fate post s findings suppress reason = quiet suppress
fate post s findings escalate reason = human (reason_or reason)
fate true s findings auto_post reason = fate_of_sending (sent_as s findings)
fate false s findings auto_post reason = quiet auto_post

-- What a watcher of one review sees: its row, the queue of the people, and GitHub.
pub record View : Type 0 where
  pub review : Option ReviewRow
  pub queue : List HitlRow
  pub comments : List Comment

abbrev pub view : ℕ → World → View
view id w = record {
  review = find_first (λ r. r.id == id) w.database.reviews;
  queue = w.database.hitl_items;
  comments = w.comments;
}

abbrev pub status_of : Fate → ReviewStatus
status_of (quiet d) = suppressed
status_of (public id) = posted
status_of (human r) = awaiting_human

abbrev pub decision_of : Fate → Decision
decision_of (quiet d) = d
decision_of (public id) = auto_post
decision_of (human r) = escalate

abbrev pub reason_of : Fate → Option EscalationReason
reason_of (human r) = some r
reason_of _ = none

abbrev pub github_id_of : Fate → Option ℕ
github_id_of (public id) = id
github_id_of _ = none

-- The row at the end of the review.
abbrev pub settled : Columns → ReviewOutcome → Fate → ReviewRow → ReviewRow
settled C o end r = record r {
  status = status_of end;
  decision = some (decision_of end);
  decision_reason = reason_of end;
  overall_confidence = some (C.confidence (C.round3 o.overall_confidence));
  total_cost_usd = C.cost (C.round6 o.total_cost_usd);
  github_review_id = github_id_of end;
  error = none;
  finished = true;
}

abbrev pub map_row : (ReviewRow → ReviewRow) → Option ReviewRow → Option ReviewRow
map_row f none = none
map_row f (some r) = some (f r)

-- A person's item for exactly the reviews that wait for one.
abbrev pub items : Surroundings → PullRequestContext → ℕ → ReviewOutcome → Fate → List HitlRow
items E pr id o (human reason) =
    record {
      id = E.new_item;
      review_id = id;
      reason = reason;
      summary = pr.repo_full_name ++ codes "#" ++ show pr.number ++ codes " — " ++ o.summary;
      priority = hitl_priority reason;
    }
    ∷ []
items E pr id o (quiet d) = []
items E pr id o (public n) = []

-- GitHub gets the review when it is to be posted, no dry run, and the request arrives.
abbrev pub publishes : Bool → Sending → List Finding → Decision → Bool
publishes post s findings auto_post = if post then has_arrived s findings else false
publishes post s findings _ = false

-- The review as it arrives: with comments at the lines, or, where those were refused, with the findings
-- in its body.
abbrev pub comment_of : Surroundings → PullRequestContext → ℕ → Sending → ReviewOutcome → Comment
comment_of E pr id s o =
    if is_refused_inline s.first o.postable
    then summary_review E.floats pr.repo_full_name pr.number pr.head_sha (body_of E pr id o)
        o.postable
    else inline_review E.floats pr.repo_full_name pr.number pr.head_sha (body_of E pr id o)
        o.postable
