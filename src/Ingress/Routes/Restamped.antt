-- ===== src/Ingress/Routes/Restamped.antt =====
-- How the job of a request depends on when the request comes: only its received_at does. And the
-- delivery of a job is the request's.
use pr_sentinel.Prelude.{some, ℕ, ◌≡◌, refl, Option, List, Text, arith}
use pr_sentinel.Runtime.Json.{Read, got, refused, crashed}
use pr_sentinel.Domain.Models.{WebhookJob}
use pr_sentinel.Ingress.Routes.{
  Payload, Request, Admission, answered, admitted, and_then, build_job, admit_job, admit_payload,
  admit_signed, admit,
}

abbrev restamp_read : ℕ → Read WebhookJob → Read WebhookJob
restamp_read t (got job) = got (record job { received_at = t })
restamp_read t refused = refused
restamp_read t crashed = crashed

abbrev pub restamp : ℕ → Admission → Admission
restamp t (answered code) = answered code
restamp t (admitted job) = admitted (record job { received_at = t })

and_then-restamped :
    {A : Type 0} (t : ℕ) (r : Read A) (f g : A → Read WebhookJob)
    → ((a : A) → g a ≡ restamp_read t (f a))
    → and_then r g ≡ restamp_read t (and_then r f)
unfolding and_then
and_then-restamped t (got a) f g h = h a
and_then-restamped t refused f g h = refl
and_then-restamped t crashed f g h = refl

-- What a job that was read is for.
abbrev IsFor : Text → Read WebhookJob → Type 0
IsFor id (got job) = job.delivery_id ≡ id
IsFor id refused = Unit
IsFor id crashed = Unit

and_then-IsFor :
    {A : Type 0} (id : Text) (r : Read A) (f : A → Read WebhookJob)
    → ((a : A) → IsFor id (f a))
    → IsFor id (and_then r f)
unfolding and_then
and_then-IsFor id (got a) f h = h a
and_then-IsFor id refused f h = tt
and_then-IsFor id crashed f h = tt

module _ {J : Type 0} (P : Payload J) where
  build_job-restamped :
      (now t : ℕ) (delivery action : Text) (payload : J)
      → build_job P t delivery action payload
        ≡ restamp_read t (build_job P now delivery action payload)
  unfolding build_job
  build_job-restamped now t delivery action payload = and_then-restamped t _ _ _ (λ a0.
      and_then-restamped t _ _ _ (λ a1. and_then-restamped t _ _ _ (λ a2.
        and_then-restamped t _ _ _ (λ a3. and_then-restamped t _ _ _ (λ a4.
          and_then-restamped t _ _ _ (λ a5. and_then-restamped t _ _ _ (λ a6.
            and_then-restamped t _ _ _ (λ a7. and_then-restamped t _ _ _ (λ a8.
              and_then-restamped t _ _ _ (λ a9. and_then-restamped t _ _ _ (λ a10.
                and_then-restamped t _ _ _ (λ a11. and_then-restamped t _ _ _ (λ a12.
                  and_then-restamped t _ _ _
                    (λ a13. and_then-restamped t _ _ _ (λ a14. refl)))))))))))))))

  build_job-IsFor :
      (now : ℕ) (delivery action : Text) (payload : J)
      → IsFor delivery (build_job P now delivery action payload)
  unfolding build_job
  build_job-IsFor now delivery action payload = and_then-IsFor delivery _ _ (λ a0.
      and_then-IsFor delivery _ _ (λ a1. and_then-IsFor delivery _ _ (λ a2.
        and_then-IsFor delivery _ _ (λ a3. and_then-IsFor delivery _ _ (λ a4.
          and_then-IsFor delivery _ _ (λ a5. and_then-IsFor delivery _ _ (λ a6.
            and_then-IsFor delivery _ _ (λ a7. and_then-IsFor delivery _ _ (λ a8.
              and_then-IsFor delivery _ _ (λ a9. and_then-IsFor delivery _ _ (λ a10.
                and_then-IsFor delivery _ _ (λ a11. and_then-IsFor delivery _ _ (λ a12.
                  and_then-IsFor delivery _ _
                    (λ a13. and_then-IsFor delivery _ _ (λ a14. refl)))))))))))))))

module _ (hmac_hex : Text → List ℕ → Text) {J : Type 0} (P : Payload J) (parse : List ℕ → Option J)
    (secret : Text) (now t : ℕ) where
  admit_job-restamped :
      (delivery action : Text) (payload : J)
      → admit_job hmac_hex P parse secret t delivery action payload
        ≡ restamp t (admit_job hmac_hex P parse secret now delivery action payload)
  unfolding admit_job
  admit_job-restamped delivery action payload =
      ground (arith, build_job-restamped P now t delivery action payload)

  admit_payload-restamped :
      (delivery : Text) (payload : J)
      → admit_payload hmac_hex P parse secret t delivery payload
        ≡ restamp t (admit_payload hmac_hex P parse secret now delivery payload)
  unfolding admit_payload
  admit_payload-restamped delivery payload = grind (arith, admit_job-restamped)

  admit_signed-restamped :
      (request : Request)
      → admit_signed hmac_hex P parse secret t request
        ≡ restamp t (admit_signed hmac_hex P parse secret now request)
  unfolding admit_signed
  admit_signed-restamped request = grind (arith, admit_payload-restamped)

  -- The same request at another time is answered the same, or gives the same job but for its time.
  pub admit-restamped :
      (request : Request)
      → admit hmac_hex P parse secret t request
        ≡ restamp t (admit hmac_hex P parse secret now request)
  unfolding admit
  admit-restamped request = ground (arith, admit_signed-restamped request)

-- What a job that is admitted is for.
abbrev HasDelivery : Text → Admission → Type 0
HasDelivery id (answered code) = Unit
HasDelivery id (admitted job) = job.delivery_id ≡ id

module _ (hmac_hex : Text → List ℕ → Text) {J : Type 0} (P : Payload J) (parse : List ℕ → Option J)
    (secret : Text) (now : ℕ) where
  admit_job-delivery :
      (id action : Text) (payload : J) (job : WebhookJob)
      → admit_job hmac_hex P parse secret now id action payload ≡ admitted job
      → job.delivery_id ≡ id
  unfolding admit_job
  admit_job-delivery id action payload job h =
      ground (arith, build_job-IsFor P now id action payload, h)

  admit_payload-delivery :
      (id : Text) (payload : J) (job : WebhookJob)
      → admit_payload hmac_hex P parse secret now id payload ≡ admitted job
      → job.delivery_id ≡ id
  unfolding admit_payload
  admit_payload-delivery id payload job h = grind (arith, admit_job-delivery)

  pub admitted-delivery :
      (request : Request) (job : WebhookJob) (id : Text)
      → request.delivery ≡ some id
      → admit hmac_hex P parse secret now request ≡ admitted job
      → job.delivery_id ≡ id
  unfolding admit admit_signed
  admitted-delivery request job id named h = grind (arith, admit_payload-delivery)
