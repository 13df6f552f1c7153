-- ===== src/Ingress/Routes/Examples.antt =====
-- A webhook on a small stand-in for JSON.
use pr_sentinel.Database.Reviews.{delivery_row, record_delivery}
use pr_sentinel.Prelude.{
  starts_with, ◌<◌, ◌+◌, ℕ, ◌≡◌, ◌≢◌, refl, ap, Bool, true, false, Option, none, some, List, [],
  ◌∷◌, Text, codes, text_eq, any, length, if◌then◌else◌, arith,
}
use pr_sentinel.Runtime.Json.{Read, got, refused}
use pr_sentinel.Ingress.Security.{compare_digest, verify_signature, compute_signature}
use pr_sentinel.Ingress.Routes.{
  admit, admit_job, admit_payload, admit_signed, build_job, enqueue_review, record_and_enqueue,
  seen_delivery, take_on, Payload, Request, Inbox, Moment, github_webhook, is_claimed, key_of,
  dedupe_ttl_seconds, and_then,
}
use pr_sentinel.Ingress.Routes.Deliveries.{
  handled_all, redelivery_changes_nothing, webhook_stores_signed,
}
use pr_sentinel.Orchestration.Pipeline.Samples.{empty_database}

data Sample : Type 0 where
  payload pull_request repository commit : Sample
  word : Text → Sample
  number : ℕ → Sample

abbrev sample_get : Sample → Text → Option Sample
sample_get payload key =
    if text_eq key (codes "pull_request")
    then some pull_request
    else if text_eq key (codes "repository")
    then some repository
    else if text_eq key (codes "action")
    then some (word (codes "opened"))
    else none
sample_get repository key =
    if text_eq key (codes "full_name")
    then some (word (codes "o/r"))
    else if text_eq key (codes "id")
    then some (number 5)
    else none
sample_get pull_request key =
    if text_eq key (codes "number")
    then some (number 12)
    else if any (text_eq key) (codes "head" ∷ codes "base" ∷ [])
    then some commit
    else none
sample_get commit key = if text_eq key (codes "sha") then some (word (codes "abc")) else none
sample_get _ key = none

abbrev sample_is_dict : Sample → Bool
sample_is_dict (word t) = false
sample_is_dict (number n) = false
sample_is_dict _ = true

abbrev sample_text : Sample → Option Text
sample_text (word t) = some t
sample_text _ = none

abbrev sample_int : Sample → Read ℕ
sample_int (number n) = got n
sample_int _ = refused

abbrev sample_in_set : Sample → List Text → Option Bool
sample_in_set (word t) set = some (any (text_eq t) set)
sample_in_set (number n) set = some false
sample_in_set _ set = none

abbrev sample_payload : Payload Sample
sample_payload = record {
  is_dict = sample_is_dict;
  get = sample_get;
  truthy = λ v. true;
  in_set = sample_in_set;
  text = sample_text;
  int = sample_int;
}

abbrev hex : Text → List ℕ → Text
hex secret body = codes "00ff"

abbrev parse : List ℕ → Option Sample
parse body = some payload

abbrev request : Request
request = record {
  body = 1 ∷ [];
  event = some (codes "pull_request");
  delivery = some (codes "d1");
  signature = some (codes "sha256=00ff");
}

abbrev empty : Inbox
empty = record { claimed = []; database = empty_database; jobs = [] }

abbrev sound : Moment
sound = record {
  received_at = 1700000000;
  clock = 1700000000;
  claiming_fails = false;
  recording_fails = false;
  enqueueing_fails = false;
}

-- arq is not to be reached.
abbrev broken : Moment
broken = record sound { enqueueing_fails = true }

-- An hour later, and eight days later.
abbrev again : Moment
again = record sound { received_at = 1700003600; clock = 1700003601 }

abbrev much_later : Moment
much_later = record sound { received_at = 1700691200; clock = 1700691200 }

test_accepted : (github_webhook hex sample_payload parse (codes "s") sound request empty).1 ≡ 202
unfolding github_webhook admit verify_signature starts_with compare_digest compute_signature text_eq
    admit_signed admit_payload admit_job build_job and_then take_on seen_delivery is_claimed
    dedupe_ttl_seconds key_of record_and_enqueue record_delivery
test_accepted = refl

stored_one :
    length (github_webhook hex sample_payload parse (codes "s") sound request empty).0.jobs ≡ 1
unfolding github_webhook admit verify_signature starts_with compare_digest compute_signature text_eq
    admit_signed admit_payload admit_job build_job and_then take_on seen_delivery is_claimed
    dedupe_ttl_seconds key_of record_and_enqueue record_delivery enqueue_review
stored_one = refl

-- The review of a delivery that could not be enqueued is not made up for by the next one, not even when
-- its key has expired: the row is there.
abbrev after_broken : Inbox
after_broken = (github_webhook hex sample_payload parse (codes "s") broken request empty).0

test_lost :
    (github_webhook hex sample_payload parse (codes "s") again request after_broken).0.jobs ≡ []
unfolding github_webhook admit verify_signature starts_with compare_digest compute_signature text_eq
    admit_signed admit_payload admit_job build_job and_then take_on seen_delivery is_claimed
    dedupe_ttl_seconds key_of record_and_enqueue record_delivery
test_lost = refl

test_still_lost :
    (github_webhook hex sample_payload parse (codes "s") much_later request after_broken).0.jobs
    ≡ []
unfolding github_webhook admit verify_signature starts_with compare_digest compute_signature text_eq
    admit_signed admit_payload admit_job build_job and_then take_on seen_delivery is_claimed
    dedupe_ttl_seconds key_of record_and_enqueue record_delivery delivery_row
test_still_lost = refl

-- Another delivery comes in between.
abbrev other : Request
other = record request { delivery = some (codes "d2") }

abbrev between : List (Moment × Request)
between = (sound, other) ∷ []

unclaimed : is_claimed 1700000000 (key_of (codes "d1")) [] ≡ false
unfolding is_claimed
unclaimed = refl

soon : 1700003601 < 1700000000 + dedupe_ttl_seconds
unfolding dedupe_ttl_seconds
soon = omega arith

redelivery_changes_nothing_example :
    let later = handled_all hex sample_payload parse (codes "s") between after_broken in
    (github_webhook hex sample_payload parse (codes "s") again request later).0 ≡ later
redelivery_changes_nothing_example =
    redelivery_changes_nothing hex sample_payload parse (codes "s") request (codes "d1") empty
      broken again between refl refl unclaimed soon

webhook_stores_signed_example :
    (codes "s" ≢ [])
    × (some (codes "sha256=00ff") ≡ some (compute_signature hex (codes "s") (1 ∷ [])))
webhook_stores_signed_example =
    webhook_stores_signed hex sample_payload parse (codes "s") sound request empty refl
      (λ e. absurd (ground (arith, ap (λ i. length i.jobs) e, stored_one)))
