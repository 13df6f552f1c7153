-- ===== src/Domain/Examples.antt =====
-- The data model on concrete findings.
use pr_sentinel.Prelude.{
  strip, strip_left, text_eq, ◌≡◌, ◌↔◌, refl, true, none, some, [], ◌∷◌, codes,
}
use pr_sentinel.Runtime.Samples.{ascii, thousandths}
use pr_sentinel.Domain.Enums.{
  category_name, category_of, same_agent, security, correctness, authz, logic, major, minor,
  is_security_category,
}
use pr_sentinel.Domain.Models.{Finding, make_finding, is_security, overlaps}
use pr_sentinel.Domain.Models.Security.{ConcernsSecurity, is_security-iff-ConcernsSecurity}
use pr_sentinel.Domain.Samples.{sample_finding}

abbrev early : Finding
early = sample_finding 1 correctness logic major 10 14 800

abbrev late : Finding
late = sample_finding 2 security authz minor 13 20 700

test_overlap : overlaps early late ≡ true
unfolding overlaps text_eq
test_overlap = refl

-- The end is written before the start.
abbrev backwards : Finding
backwards = sample_finding 3 correctness logic major 30 12 800

accepted : make_finding thousandths ascii backwards ≡ some (record backwards { line_end = 30 })
unfolding make_finding strip strip_left
accepted = refl

test_too_confident : make_finding thousandths ascii (record backwards { confidence = 1001 }) ≡ none
unfolding make_finding
test_too_confident = refl

-- A finding that a contributor called a matter of cryptography.
abbrev merged_one : Finding
merged_one = record early { categories = codes "logic" ∷ codes "crypto" ∷ [] }

test_security : is_security merged_one ≡ true
unfolding is_security same_agent is_security_category category_of text_eq category_name
test_security = refl

is_security-iff-ConcernsSecurity_example :
    (is_security merged_one ≡ true) ↔ ConcernsSecurity merged_one
is_security-iff-ConcernsSecurity_example = is_security-iff-ConcernsSecurity merged_one
