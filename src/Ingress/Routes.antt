-- ===== src/Ingress/Routes.antt =====
-- src/pr_sentinel/ingress/routes.py: github_webhook, and of src/pr_sentinel/queue/dispatch.py
-- seen_delivery and enqueue_review.

pub mod Restamped
pub mod Deliveries
mod Examples
use pr_sentinel.Prelude.{
  ℕ, ◌+◌, ◌*◌, ltb, Bool, true, false, not, ◌&&◌, ◌||◌, Option, none, some, List, [], ◌∷◌, ◌++◌,
  Text, codes, text_eq, any, if◌then◌else◌, ◌>>=◌,
}
use pr_sentinel.Runtime.Json.{Read, got, refused, crashed}
use pr_sentinel.Database.{Database}
use pr_sentinel.Database.Reviews.{record_delivery}
use pr_sentinel.Domain.Models.{WebhookJob}
use pr_sentinel.Ingress.Security.{verify_signature}

-- What the handler does with parsed JSON. `J` is the type of the values.
pub record Payload (J : Type 0) : Type 0 where
  pub is_dict : J → Bool
  -- v.get(key) of a dictionary, `none` for a missing key.
  pub get : J → Text → Option J
  pub truthy : J → Bool
  -- `v in` a set of texts: `none` is the TypeError of a value that has no hash.
  pub in_set : J → List Text → Option Bool
  -- What pydantic makes of v for `str`; `none` is its ValidationError.
  pub text : J → Option Text
  -- int(v), for the numbers of GitHub, which are not negative.
  pub int : J → Read ℕ

pub record Request : Type 0 where
  pub body : List ℕ
  pub event : Option Text
  pub delivery : Option Text
  pub signature : Option Text

-- REVIEWABLE_ACTIONS
abbrev pub reviewable_actions : List Text
reviewable_actions =
    codes "opened" ∷ codes "synchronize" ∷ codes "reopened" ∷ codes "ready_for_review" ∷ []

-- The next step on a value that was read.
unfoldable pub and_then : {A B : Type 0} → Read A → (A → Read B) → Read B
and_then (got a) f = f a
and_then refused f = refused
and_then crashed f = crashed

or_refuse : {A : Type 0} → Option A → Read A
or_refuse none = refused
or_refuse (some a) = got a

module _ {J : Type 0} (P : Payload J) where
  -- v[key]: a KeyError, or a TypeError for what is no dictionary.
  unfoldable pub item : J → Text → Read J
  unfolding or_refuse
  item v key = if P.is_dict v then or_refuse (P.get v key) else refused

  -- `v or ""` for what v.get gives, as pydantic then reads it.
  unfoldable pub text_or_empty : Option J → Read Text
  unfolding or_refuse
  text_or_empty none = got []
  text_or_empty (some v) = if P.truthy v then or_refuse (P.text v) else got []

  -- (pr.get("user") or {}).get("login"): AttributeError, which nothing catches, for a user that is no
  -- dictionary.
  unfoldable pub login_of : Option J → Read (Option J)
  login_of none = got none
  login_of (some user) =
      if P.truthy user
      then if P.is_dict user then got (P.get user (codes "login")) else crashed
      else got none

  text_of : J → Read Text
  unfolding or_refuse
  text_of v = or_refuse (P.text v)

  int_at : J → Text → Read ℕ
  unfolding item
  int_at v key = and_then (item v key) P.int

  -- bool(repo.get("private", True))
  is_private_of : Option J → Bool
  is_private_of none = true
  is_private_of (some v) = P.truthy v

  -- _build_job: the values are read in order, and pydantic then checks the texts.
  -- `received_at` is the time.
  unfoldable pub build_job : ℕ → Text → Text → J → Read WebhookJob
  unfolding item text_of int_at text_or_empty login_of is_private_of
  build_job received_at delivery action payload =
      and_then (item payload (codes "pull_request")) (λ pr.
        and_then (item payload (codes "repository")) (λ repo.
          and_then (item repo (codes "full_name")) (λ full_name.
            and_then (int_at repo (codes "id")) (λ repo_id.
              and_then (int_at pr (codes "number")) (λ number.
                and_then (item pr (codes "head")) (λ head.
                  and_then (item head (codes "sha")) (λ head_sha.
                    and_then (item pr (codes "base")) (λ base.
                      and_then (item base (codes "sha")) (λ base_sha.
                        and_then (login_of (P.get pr (codes "user"))) (λ login.
                          and_then (text_of full_name) (λ repo_full_name.
                            and_then (text_of head_sha) (λ head_text.
                              and_then (text_of base_sha) (λ base_text.
                                and_then (text_or_empty (P.get pr (codes "title"))) (λ title.
                                  and_then (text_or_empty login) (λ author. got (record {
                                    delivery_id = delivery;
                                    event = codes "pull_request";
                                    action = action;
                                    repo_full_name = repo_full_name;
                                    repo_github_id = repo_id;
                                    is_private = is_private_of (P.get repo (codes "private"));
                                    pr_number = number;
                                    head_sha = head_text;
                                    base_sha = base_text;
                                    title = title;
                                    author = author;
                                    received_at = received_at;
                                  }))))))))))))))))

-- The answer to a request that is not taken on, by its status, or the job.
pub data Admission : Type 0 where
  answered : ℕ → Admission
  admitted : WebhookJob → Admission

-- The claimed keys of Redis, each with the second at which it expires, the tables, and the jobs of arq by their ids.
pub record Inbox : Type 0 where
  pub claimed : List (Text × ℕ)
  pub database : Database
  pub jobs : List (Text × WebhookJob)

-- When a request comes, by the clock of the program and by the seconds of Redis, and which calls raise
-- an exception before they have changed anything: seen_delivery, record_delivery, enqueue_review.
pub record Moment : Type 0 where
  pub received_at : ℕ
  pub clock : ℕ
  pub claiming_fails : Bool
  pub recording_fails : Bool
  pub enqueueing_fails : Bool

-- DEDUPE_TTL_SECONDS, a week.
unfoldable pub dedupe_ttl_seconds : ℕ
dedupe_ttl_seconds = 7 * 24 * 3600

unfoldable pub key_of : Text → Text
key_of delivery_id = codes "sentinel:delivery:" ++ delivery_id

unfoldable pub job_id : WebhookJob → Text
job_id job = codes "review:" ++ job.delivery_id

-- The key is there and has not expired.
unfoldable pub is_claimed : ℕ → Text → List (Text × ℕ) → Bool
is_claimed clock key claimed = any (λ c. text_eq key c.0 && ltb clock c.1) claimed

-- seen_delivery: SET NX EX.
unfoldable pub seen_delivery : ℕ → Text → Inbox → Inbox × Bool
unfolding key_of is_claimed
seen_delivery clock delivery_id inbox =
    if is_claimed clock (key_of delivery_id) inbox.claimed then (inbox, true) else (
      record inbox { claimed = (key_of delivery_id, clock + dedupe_ttl_seconds) ∷ inbox.claimed },
      false,
    )

-- enqueue_review: arq drops a job whose id it has.
unfoldable pub enqueue_review : WebhookJob → Inbox → Inbox
unfolding job_id
enqueue_review job inbox =
    if any (λ j. text_eq j.0 (job_id job)) inbox.jobs
    then inbox
    else record inbox { jobs = (job_id job, job) ∷ inbox.jobs }

-- The handler from record_delivery on.
unfoldable pub record_and_enqueue : Moment → WebhookJob → Inbox → Inbox × ℕ
record_and_enqueue moment job inbox =
    let (recorded, is_new) = record_delivery job (codes "accepted") inbox.database in
    let stored = record inbox { database = recorded } in
    if moment.recording_fails
    then (inbox, 500)
    else if not is_new
    then (stored, 200)
    else if moment.enqueueing_fails
    then (stored, 500)
    else (enqueue_review job stored, 202)

-- The handler from seen_delivery on.
unfoldable pub take_on : Moment → WebhookJob → Inbox → Inbox × ℕ
take_on moment job inbox =
    let (claimed, seen) = seen_delivery moment.clock job.delivery_id inbox in
    if moment.claiming_fails
    then (inbox, 500)
    else if seen
    then (claimed, 200)
    else record_and_enqueue moment job claimed

-- An empty header is falsy, as a missing one.
filled : Option Text → Option Text
filled none = none
filled (some []) = none
filled (some (c ∷ s)) = some (c ∷ s)

is_event : Text → Option Text → Bool
is_event name none = false
is_event name (some event) = text_eq event name

module _ (hmac_hex : Text → List ℕ → Text) {J : Type 0} (P : Payload J) (parse : List ℕ → Option J)
    (secret : Text) (now : ℕ) where
  -- payload.get("pull_request", {}).get("draft"), when _build_job has found the pull request.
  is_draft : J → Bool
  is_draft payload =
      elim (P.get payload (codes "pull_request") >>= (λ pr. P.get pr (codes "draft"))) [
        | none ↦ false
        | some v ↦ P.truthy v
      ]

  -- The handler from _build_job on.
  unfoldable pub admit_job : Text → Text → J → Admission
  unfolding is_draft
  admit_job delivery action payload = elim (build_job P now delivery action payload) [
    | crashed ↦ answered 500
    | refused ↦ answered 400
    | got job ↦
        if is_draft payload && not (text_eq action (codes "ready_for_review"))
        then answered 202
        else admitted job
  ]

  -- From the action on. A missing action is "", and a reviewable one is a text.
  unfoldable pub admit_payload : Text → J → Admission
  admit_payload delivery payload =
      if not (P.is_dict payload) then answered 400 else elim (P.get payload (codes "action")) [
        | none ↦ answered 202
        | some action ↦ elim (P.in_set action reviewable_actions) [
          | none ↦ answered 500
          | some false ↦ answered 202
          | some true ↦ elim (P.text action) [
            | none ↦ answered 400
            | some name ↦ admit_job delivery name payload
          ]
        ]
      ]

  -- The checks behind the signature.
  unfoldable pub admit_signed : Request → Admission
  unfolding filled is_event
  admit_signed request = elim (filled request.delivery) [
    | none ↦ answered 400
    | some delivery ↦
        if is_event (codes "ping") request.event
        then answered 200
        else if not (is_event (codes "pull_request") request.event)
        then answered 202
        else elim (parse request.body) [
          | none ↦ answered 400
          | some payload ↦ admit_payload delivery payload
        ]
  ]

  unfoldable pub admit : Request → Admission
  admit request = elim (verify_signature hmac_hex secret request.body request.signature) [
    | none ↦ answered 500
    | some false ↦ answered 401
    | some true ↦ admit_signed request
  ]

module _ (hmac_hex : Text → List ℕ → Text) {J : Type 0} (P : Payload J) (parse : List ℕ → Option J)
    (secret : Text) where
  -- The inbox and the status of the answer; an exception that nothing catches is a 500.
  unfoldable pub github_webhook : Moment → Request → Inbox → Inbox × ℕ
  github_webhook moment request inbox =
      elim (admit hmac_hex P parse secret moment.received_at request) [
        | answered code ↦ (inbox, code)
        | admitted job ↦ take_on moment job inbox
      ]
