-- ===== src/Ingress/Security.antt =====
-- src/pr_sentinel/ingress/security.py. `hmac_hex` is the hexadecimal HMAC-SHA256 of a body under a
-- secret, and compare_digest, which takes ASCII texts only, is `none` where it raises a TypeError.
pub mod Accepts
mod Examples
use pr_sentinel.Prelude.{
  ℕ, Bool, true, false, not, ◌&&◌, ◌||◌, Option, none, some, List, [], ◌∷◌, ◌++◌, Text, codes,
  text_eq, starts_with, ltb, length, leb, if◌then◌else◌,
}

abbrev pub is_ascii : Text → Bool
is_ascii [] = true
is_ascii (c ∷ s) = ltb c 128 && is_ascii s

unfoldable pub compare_digest : Text → Text → Option Bool
compare_digest a b = if is_ascii a && is_ascii b then some (text_eq a b) else none

module _ (hmac_hex : Text → List ℕ → Text) where
  unfoldable pub compute_signature : Text → List ℕ → Text
  compute_signature secret body = codes "sha256=" ++ hmac_hex secret body

  unfoldable pub verify_signature : Text → List ℕ → Option Text → Option Bool
  verify_signature secret body none = some false
  verify_signature secret body (some header) =
      if leb (length header) 0 || leb (length secret) 0
      then some false
      else if not (starts_with header (codes "sha256="))
      then some false
      else compare_digest (compute_signature secret body) header
