-- ===== src/Ingress/Security/Accepts.antt =====
-- Which requests are authenticated.
use pr_sentinel.Prelude.{
  ℕ, ◌≡◌, ◌≢◌, ◌↔◌, refl, sym, ap, subst, true, false, ◌&&◌, Option, none, some, List, [], Text,
  codes, text_eq, text_eq_iff, starts_with, leb, length, arith, if◌then◌else◌,
}
use pr_sentinel.Ingress.Security.{is_ascii, compare_digest, compute_signature, verify_signature}

compare_digest_iff : (a b : Text) → is_ascii a ≡ true → (compare_digest a b ≡ some true) ↔ (b ≡ a)
unfolding compare_digest
compare_digest_iff a b ascii = (
  λ h. sym ((text_eq_iff a b).0 (ground (arith, h))),
  λ e.
      subst (λ x. (if is_ascii a && is_ascii x then some (text_eq a x) else none) ≡ some true)
        (sym e) (ground (arith, ascii, (text_eq_iff a a).1 refl)),
)

module _ (hmac_hex : Text → List ℕ → Text) (secret : Text) (body : List ℕ)
    (hex_ascii : is_ascii (hmac_hex secret body) ≡ true) where
  signature_ascii : is_ascii (compute_signature hmac_hex secret body) ≡ true
  unfolding compute_signature
  signature_ascii = ground (arith, hex_ascii)

  accepted→signed :
      (header : Option Text)
      → verify_signature hmac_hex secret body header ≡ some true
      → (secret ≢ []) × (header ≡ some (compute_signature hmac_hex secret body))
  unfolding verify_signature
  accepted→signed none h = absurd (ground (arith, h))
  accepted→signed (some header) h = (
    ground (arith, h),
    ap some (
        (compare_digest_iff (compute_signature hmac_hex secret body) header signature_ascii).0
          (ground (arith, h))),
  )

  signed→accepted :
      secret ≢ []
      → verify_signature hmac_hex secret body (some (compute_signature hmac_hex secret body))
        ≡ some true
  unfolding verify_signature
  signed→accepted some_secret = ground (
    arith,
    not_empty,
    starts_right,
    (compare_digest_iff (compute_signature hmac_hex secret body)
          (compute_signature hmac_hex secret body) signature_ascii).1
        refl,
  )
    where
      not_empty : leb (length (compute_signature hmac_hex secret body)) 0 ≡ false
      not_empty = unfold compute_signature in ground arith

      starts_right : starts_with (compute_signature hmac_hex secret body) (codes "sha256=") ≡ true
      starts_right = unfold starts_with compute_signature in refl

  -- A request is authenticated exactly when a secret is set and its header is the signature of its
  -- body under that secret. The digest is written in ASCII.
  pub verify_signature_iff :
      (header : Option Text)
      → (verify_signature hmac_hex secret body header ≡ some true)
        ↔ ((secret ≢ []) × (header ≡ some (compute_signature hmac_hex secret body)))
  verify_signature_iff header = (
    accepted→signed header,
    λ (some_secret, e).
        subst (λ o. verify_signature hmac_hex secret body o ≡ some true) (sym e)
          (signed→accepted some_secret),
  )
