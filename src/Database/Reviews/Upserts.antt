-- ===== src/Database/Reviews/Upserts.antt =====
-- The statements that make a row once.
use pr_sentinel.Prelude.{
  ℕ, ◌≡◌, inl, inr, true, false, none, some, List, ◌∷◌, Text, text_eq_refl, find_first,
  Option-cases, arith,
}
use pr_sentinel.Domain.Models.{WebhookJob}
use pr_sentinel.Database.{Database, ReviewRow, DeliveryRow}
use pr_sentinel.Database.Reviews.{
  record_delivery, delivery_at, delivery_row, open_review, is_review, review_row,
}

pub opened_before :
    (fresh pr_id : ℕ) (delivery_id bundle : Text) (db : Database) (r : ReviewRow)
    → find_first (is_review pr_id delivery_id) db.reviews ≡ some r
    → open_review fresh pr_id delivery_id bundle db ≡ (db, r.id, false)
unfolding open_review
opened_before fresh pr_id delivery_id bundle db r e = rw (e, open_review)

pub opened_new :
    (fresh pr_id : ℕ) (delivery_id bundle : Text) (db : Database)
    → find_first (is_review pr_id delivery_id) db.reviews ≡ none
    → open_review fresh pr_id delivery_id bundle db ≡ (
      record db { reviews = review_row fresh pr_id delivery_id bundle ∷ db.reviews },
      fresh,
      true,
    )
unfolding open_review review_row
opened_new fresh pr_id delivery_id bundle db e = rw (e, open_review)

pub is_itself :
    (fresh pr_id : ℕ) (delivery_id bundle : Text)
    → is_review pr_id delivery_id (review_row fresh pr_id delivery_id bundle) ≡ true
unfolding is_review review_row
is_itself fresh pr_id delivery_id bundle = ground (arith, text_eq_refl delivery_id)

pub finds_itself :
    (fresh pr_id : ℕ) (delivery_id bundle : Text) (rs : List ReviewRow)
    → find_first (is_review pr_id delivery_id) (review_row fresh pr_id delivery_id bundle ∷ rs)
      ≡ some (review_row fresh pr_id delivery_id bundle)
unfolding is_review review_row
finds_itself fresh pr_id delivery_id bundle rs = ground (arith, text_eq_refl delivery_id)

recorded_before :
    (job : WebhookJob) (status : Text) (db : Database) (r : DeliveryRow)
    → delivery_at job.delivery_id db ≡ some r
    → record_delivery job status db ≡ (db, false)
unfolding record_delivery
recorded_before job status db r e = rw (e, record_delivery)

pub recorded_new :
    (job : WebhookJob) (status : Text) (db : Database)
    → delivery_at job.delivery_id db ≡ none
    → record_delivery job status db
      ≡ (record db { deliveries = delivery_row job status ∷ db.deliveries }, true)
unfolding record_delivery delivery_row
recorded_new job status db e = rw (e, record_delivery)

pub delivery_found :
    (job : WebhookJob) (status : Text) (db : Database)
    → delivery_at job.delivery_id
        (record db { deliveries = delivery_row job status ∷ db.deliveries })
      ≡ some (delivery_row job status)
unfolding delivery_at delivery_row
delivery_found job status db = ground (arith, text_eq_refl job.delivery_id)

-- A delivery is recorded once: the second time finds it, and changes nothing.
pub record_delivery_again :
    (job : WebhookJob) (status status' : Text) (db : Database)
    → record_delivery job status' (record_delivery job status db).0
      ≡ ((record_delivery job status db).0, false)
record_delivery_again job status status' db = elim (Option-cases (delivery_at job.delivery_id db)) [
  | inl e ↦ rw (recorded_new job status db e) (
      recorded_before job status'
        (record db { deliveries = delivery_row job status ∷ db.deliveries })
        (delivery_row job status) (delivery_found job status db))
  | inr (r, e) ↦ rw (recorded_before job status db r e) (recorded_before job status' db r e)
]
