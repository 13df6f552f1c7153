-- ===== src/Ingress/Routes/Deliveries.antt =====
-- What a webhook stores, and what a delivery that comes again changes.
use pr_sentinel.Prelude.{
  ℕ, ◌≡◌, ◌≢◌, ◌<◌, ◌+◌, ◌⊎◌, inl, inr, refl, ap, codes, ◌∙◌, Bool, true, false, Option, none, some,
  List, [], ◌∷◌, Text, text_eq_refl, Bool-cases, arith,
}
use pr_sentinel.Database.Reviews.{record_delivery}
use pr_sentinel.Domain.Models.{WebhookJob}
use pr_sentinel.Ingress.Security.{is_ascii, verify_signature, compute_signature}
use pr_sentinel.Ingress.Security.Accepts.{verify_signature_iff}
use pr_sentinel.Ingress.Routes.{
  Payload, Request, Admission, answered, admitted, Inbox, Moment, dedupe_ttl_seconds, is_claimed,
  key_of, seen_delivery, enqueue_review, record_and_enqueue, take_on, admit, github_webhook,
}
use pr_sentinel.Ingress.Routes.Restamped.{restamp, admit-restamped, admitted-delivery}

-- The key is claimed at a time.
abbrev pub IsClaimed : ℕ → Text → Inbox → Type 0
IsClaimed clock id inbox = is_claimed clock (key_of id) inbox.claimed ≡ true

seen_again :
    (m : Moment) (job : WebhookJob) (inbox : Inbox)
    → IsClaimed m.clock job.delivery_id inbox
    → (take_on m job inbox).0 ≡ inbox
unfolding take_on seen_delivery
seen_again m job inbox h = elim (Bool-cases m.claiming_fails) [
  | inl t ↦ rw (take_on, t) refl
  | inr f ↦ rw (take_on, f, seen_delivery, h) refl
]

claims :
    (m : Moment) (id : Text) (inbox : Inbox) (clock : ℕ)
    → is_claimed m.clock (key_of id) inbox.claimed ≡ false
    → clock < m.clock + dedupe_ttl_seconds
    → IsClaimed clock id (seen_delivery m.clock id inbox).0
unfolding seen_delivery is_claimed
claims m id inbox clock new lt =
    rw (seen_delivery, new) (ground (arith, text_eq_refl (key_of id), lt))

-- A claim is kept by every step of the handler.
seen_delivery-keeps :
    (m : Moment) (id other : Text) (inbox : Inbox) (clock : ℕ)
    → IsClaimed clock id inbox
    → IsClaimed clock id (seen_delivery m.clock other inbox).0
unfolding seen_delivery is_claimed
seen_delivery-keeps m id other inbox clock h =
    elim (Bool-cases (is_claimed m.clock (key_of other) inbox.claimed)) [
      | inl t ↦ rw (seen_delivery, t) h
      | inr f ↦ rw (seen_delivery, f) (ground (arith, h))
    ]

enqueue_review-claimed :
    (job : WebhookJob) (inbox : Inbox) → (enqueue_review job inbox).claimed ≡ inbox.claimed
unfolding enqueue_review
enqueue_review-claimed job inbox = ground arith

record_and_enqueue-claimed :
    (m : Moment) (job : WebhookJob) (inbox : Inbox)
    → (record_and_enqueue m job inbox).0.claimed ≡ inbox.claimed
unfolding record_and_enqueue
record_and_enqueue-claimed m job inbox = ground (
  arith,
  enqueue_review-claimed job
      (record inbox { database = (record_delivery job (codes "accepted") inbox.database).0 }),
)

-- What take_on claims is what seen_delivery claims, unless that fails.
take_on-IsClaimed :
    (m : Moment) (job : WebhookJob) (inbox : Inbox) (clock : ℕ) (id : Text)
    → m.claiming_fails ≡ false
    → IsClaimed clock id (seen_delivery m.clock job.delivery_id inbox).0
    → IsClaimed clock id (take_on m job inbox).0
unfolding take_on
take_on-IsClaimed m job inbox clock id works h =
    elim (Bool-cases (seen_delivery m.clock job.delivery_id inbox).1) [
      | inl t ↦ rw (take_on, works, t) h
      | inr f ↦ rw (take_on, works, f, record_and_enqueue-claimed) h
    ]

take_on-keeps :
    (m : Moment) (job : WebhookJob) (inbox : Inbox) (clock : ℕ) (id : Text)
    → IsClaimed clock id inbox
    → IsClaimed clock id (take_on m job inbox).0
unfolding take_on
take_on-keeps m job inbox clock id h = elim (Bool-cases m.claiming_fails) [
  | inl t ↦ rw (take_on, t) h
  | inr f ↦
      take_on-IsClaimed m job inbox clock id f
        (seen_delivery-keeps m id job.delivery_id inbox clock h)
]

Admission-cases :
    (a : Admission) → ((code : ℕ) × (a ≡ answered code)) ⊎ ((job : WebhookJob) × (a ≡ admitted job))
Admission-cases (answered code) = inl (code, refl)
Admission-cases (admitted job) = inr (job, refl)

module _ (hmac_hex : Text → List ℕ → Text) {J : Type 0} (P : Payload J) (parse : List ℕ → Option J)
    (secret : Text) where
  abbrev pub handled : Moment → Request → Inbox → Inbox × ℕ
  handled m r i = github_webhook hmac_hex P parse secret m r i

  -- Requests one after another.
  abbrev pub handled_all : List (Moment × Request) → Inbox → Inbox
  handled_all [] i = i
  handled_all ((m, r) ∷ rest) i = handled_all rest (handled m r i).0

  answers :
      (m : Moment) (r : Request) (i : Inbox) (code : ℕ)
      → admit hmac_hex P parse secret m.received_at r ≡ answered code
      → handled m r i ≡ (i, code)
  unfolding github_webhook
  answers m r i code e = rw (github_webhook, e) refl

  takes_on :
      (m : Moment) (r : Request) (i : Inbox) (job : WebhookJob)
      → admit hmac_hex P parse secret m.received_at r ≡ admitted job
      → handled m r i ≡ take_on m job i
  unfolding github_webhook
  takes_on m r i job e = rw (github_webhook, e) refl

  handled-keeps :
      (clock : ℕ) (id : Text) (m : Moment) (r : Request) (i : Inbox)
      → IsClaimed clock id i
      → IsClaimed clock id (handled m r i).0
  handled-keeps clock id m r i h =
      elim (Admission-cases (admit hmac_hex P parse secret m.received_at r)) [
        | inl (code, e) ↦ rw (answers m r i code e) h
        | inr (job, e) ↦ rw (takes_on m r i job e) (take_on-keeps m job i clock id h)
      ]

  handled_all-keeps :
      (clock : ℕ) (id : Text) (rest : List (Moment × Request)) (i : Inbox)
      → IsClaimed clock id i
      → IsClaimed clock id (handled_all rest i)
  handled_all-keeps clock id [] i h = h
  handled_all-keeps clock id ((m, r) ∷ rest) i h =
      handled_all-keeps clock id rest (handled m r i).0 (handled-keeps clock id m r i h)

  -- A delivery comes whose key is not claimed, and Redis answers, whatever becomes of the delivery after
  -- that. When it comes again within a week, by the clock of Redis, with any other requests in between,
  -- the second time changes nothing: no claim, no row and no job. So one whose recording or enqueueing
  -- failed is not made up for by a redelivery within the week.
  pub redelivery_changes_nothing :
      (request : Request) (id : Text) (inbox : Inbox) (first again : Moment)
      (between : List (Moment × Request))
      → request.delivery ≡ some id
      → first.claiming_fails ≡ false
      → is_claimed first.clock (key_of id) inbox.claimed ≡ false
      → again.clock < first.clock + dedupe_ttl_seconds
      → let later = handled_all between (handled first request inbox).0 in
        (handled again request later).0 ≡ later
  redelivery_changes_nothing request id inbox first again between named works new soon =
      elim (Admission-cases (admit hmac_hex P parse secret first.received_at request)) [
        | inl (code, e) ↦
            ap (λ r. r.0)
              (answers again request _ code (
                admit-restamped hmac_hex P parse secret first.received_at again.received_at request
                ∙ ap (restamp again.received_at) e))
        | inr (job, e) ↦
            let mine =
              admitted-delivery hmac_hex P parse secret first.received_at request job id named e in
            let later : Inbox = handled_all between (handled first request inbox).0 in
            let claimed : IsClaimed again.clock job.delivery_id later =
              handled_all-keeps again.clock job.delivery_id between (handled first request inbox).0
                (rw (takes_on first request inbox job e) (
                  take_on-IsClaimed first job inbox again.clock job.delivery_id works
                    (claims first job.delivery_id inbox again.clock (rw mine new) soon))) in
            ap (λ r. r.0)
              (takes_on again request later (record job { received_at = again.received_at })
                (admit-restamped hmac_hex P parse secret first.received_at again.received_at request
                  ∙ ap (restamp again.received_at) e))
            ∙ seen_again again (record job { received_at = again.received_at }) later claimed
      ]

module _ (hmac_hex : Text → List ℕ → Text) {J : Type 0} (P : Payload J) (parse : List ℕ → Option J)
    (secret : Text) (moment : Moment) (request : Request) (inbox : Inbox) where
  unsigned_answered :
      verify_signature hmac_hex secret request.body request.signature ≢ some true
      → (code : ℕ) × (admit hmac_hex P parse secret moment.received_at request ≡ answered code)
  unsigned_answered h =
      by_check (verify_signature hmac_hex secret request.body request.signature) refl
    where
      by_check :
          (v : Option Bool)
          → verify_signature hmac_hex secret request.body request.signature ≡ v
          → (code : ℕ) × (admit hmac_hex P parse secret moment.received_at request ≡ answered code)
      by_check none e = (500, unfold admit in rw (admit, e) refl)
      by_check (some false) e = (401, unfold admit in rw (admit, e) refl)
      by_check (some true) e = absurd (h e)

  -- A request that is stored, claimed or enqueued in any part is signed: a secret is set, and the header
  -- is the signature of the body under it.
  pub webhook_stores_signed :
      is_ascii (hmac_hex secret request.body) ≡ true
      → (github_webhook hmac_hex P parse secret moment request inbox).0 ≢ inbox
      → (secret ≢ []) × (request.signature ≡ some (compute_signature hmac_hex secret request.body))
  webhook_stores_signed ascii changed =
      (verify_signature_iff hmac_hex secret request.body ascii request.signature).0
        (accepted (verify_signature hmac_hex secret request.body request.signature) refl)
    where
      unsigned : verify_signature hmac_hex secret request.body request.signature ≢ some true → ⊥
      unsigned h =
          let (code, e) = unsigned_answered h in
          changed (ap (λ r. r.0) (answers hmac_hex P parse secret moment request inbox code e))

      accepted :
          (v : Option Bool)
          → verify_signature hmac_hex secret request.body request.signature ≡ v
          → verify_signature hmac_hex secret request.body request.signature ≡ some true
      accepted (some true) e = e
      accepted none e = absurd (unsigned (λ s. absurd (ground (arith, s, e))))
      accepted (some false) e = absurd (unsigned (λ s. absurd (ground (arith, s, e))))
