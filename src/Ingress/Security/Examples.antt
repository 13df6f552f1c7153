-- ===== src/Ingress/Security/Examples.antt =====
-- A signature under a stand-in for the digest.
use pr_sentinel.Prelude.{
  starts_with, text_eq, ℕ, ◌≡◌, ◌≢◌, ◌↔◌, refl, true, false, none, some, List, [], ◌∷◌, Text, codes,
}
use pr_sentinel.Ingress.Security.{compare_digest, compute_signature, verify_signature}
use pr_sentinel.Ingress.Security.Accepts.{verify_signature_iff}

abbrev hex : Text → List ℕ → Text
hex secret body = codes "00ff"

test_wrong : verify_signature hex (codes "s") (1 ∷ []) (some (codes "sha256=00fe")) ≡ some false
unfolding verify_signature starts_with compare_digest compute_signature text_eq
test_wrong = refl

-- A header outside ASCII is an exception, not a refusal.
test_not_ascii : verify_signature hex (codes "s") (1 ∷ []) (some (codes "sha256=é")) ≡ none
unfolding verify_signature starts_with compare_digest compute_signature
test_not_ascii = refl

verify_signature_iff_example :
    (verify_signature hex (codes "s") (1 ∷ []) (some (codes "sha256=00ff")) ≡ some true) ↔ (
      (codes "s" ≢ [])
      × (some (codes "sha256=00ff") ≡ some (compute_signature hex (codes "s") (1 ∷ []))))
verify_signature_iff_example =
    verify_signature_iff hex (codes "s") (1 ∷ []) refl (some (codes "sha256=00ff"))
