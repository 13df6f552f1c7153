-- ===== src/Domain/Enums.antt =====
-- src/pr_sentinel/domain/enums.py. A member's text is its value, as str() gives it.
use mathlib.Core.Bool.{decide}
use pr_sentinel.Prelude.{
  ℕ, ◌≡◌, ◌↔◌, refl, Bool, true, false, Option, List, [], ◌∷◌, Text, codes, find_first, text_eq,
}
use pr_sentinel.Runtime.{Float, Floats}

pub data AgentType : Type 0 where
  security correctness tests docs : AgentType

-- ALL_AGENTS
abbrev pub all_agents : List AgentType
all_agents = security ∷ correctness ∷ tests ∷ docs ∷ []

unfoldable pub agent_name : AgentType → Text
agent_name security = codes "security"
agent_name correctness = codes "correctness"
agent_name tests = codes "tests"
agent_name docs = codes "docs"

pub data Severity : Type 0 where
  critical major minor info : Severity

unfoldable pub severity_name : Severity → Text
severity_name critical = codes "critical"
severity_name major = codes "major"
severity_name minor = codes "minor"
severity_name info = codes "info"

-- Severity.weight
unfoldable pub severity_weight : Floats → Severity → Float
severity_weight F critical = F.one
severity_weight F major = F.c70
severity_weight F minor = F.c40
severity_weight F info = F.c15

-- Severity(name): `none` is the ValueError.
unfoldable pub severity_of : Text → Option Severity
severity_of name =
    find_first (λ s. text_eq (severity_name s) name) (critical ∷ major ∷ minor ∷ info ∷ [])

-- SEVERITY_ORDER
abbrev pub severity_order : List Severity
severity_order = info ∷ minor ∷ major ∷ critical ∷ []

-- SEVERITY_ORDER.index(s)
abbrev pub severity_rank : Severity → ℕ
severity_rank info = 0
severity_rank minor = 1
severity_rank major = 2
severity_rank critical = 3

pub data Category : Type 0 where
  injection authz secrets crypto input_validation logic concurrency error_handling : Category
  resource_leak api_contract test_coverage test_quality documentation readability : Category
  convention other : Category

abbrev pub all_categories : List Category
all_categories =
    injection ∷ authz ∷ secrets ∷ crypto ∷ input_validation ∷ logic ∷ concurrency ∷ error_handling
    ∷ resource_leak ∷ api_contract ∷ test_coverage ∷ test_quality ∷ documentation ∷ readability
    ∷ convention ∷ other ∷ []

unfoldable pub category_name : Category → Text
category_name injection = codes "injection"
category_name authz = codes "authz"
category_name secrets = codes "secrets"
category_name crypto = codes "crypto"
category_name input_validation = codes "input_validation"
category_name logic = codes "logic"
category_name concurrency = codes "concurrency"
category_name error_handling = codes "error_handling"
category_name resource_leak = codes "resource_leak"
category_name api_contract = codes "api_contract"
category_name test_coverage = codes "test_coverage"
category_name test_quality = codes "test_quality"
category_name documentation = codes "documentation"
category_name readability = codes "readability"
category_name convention = codes "convention"
category_name other = codes "other"

-- Category(name): `none` is the ValueError.
unfoldable pub category_of : Text → Option Category
category_of name = find_first (λ c. text_eq (category_name c) name) all_categories

-- c in SECURITY_CATEGORIES
unfoldable pub is_security_category : Category → Bool
is_security_category injection = true
is_security_category authz = true
is_security_category secrets = true
is_security_category crypto = true
is_security_category input_validation = true
is_security_category _ = false

-- The values of CATEGORY_FAMILY.
pub data Family : Type 0 where
  security correctness testing docs other : Family

-- family_of: every category is a key of CATEGORY_FAMILY, so the default is not reached.
unfoldable pub family_of : Category → Family
family_of injection = Family.security
family_of authz = Family.security
family_of secrets = Family.security
family_of crypto = Family.security
family_of input_validation = Family.security
family_of logic = Family.correctness
family_of concurrency = Family.correctness
family_of error_handling = Family.correctness
family_of resource_leak = Family.correctness
family_of api_contract = Family.correctness
family_of test_coverage = Family.testing
family_of test_quality = Family.testing
family_of documentation = Family.docs
family_of readability = Family.docs
family_of convention = Family.docs
family_of other = Family.other

-- c in COLLAPSIBLE_CATEGORIES
unfoldable pub is_collapsible : Category → Bool
is_collapsible test_coverage = true
is_collapsible _ = false

pub data Decision : Type 0 where
  auto_post escalate suppress : Decision

pub data EscalationReason : Type 0 where
  low_confidence critical_security agent_failure budget_exceeded policy : EscalationReason

pub data VerdictStatus : Type 0 where
  ok failed timeout skipped budget_denied : VerdictStatus

pub data ReviewStatus : Type 0 where
  pending running awaiting_human posted suppressed failed : ReviewStatus

-- Equality of members, as `is` and `==` decide it.
unfoldable pub AgentType-discrete : Discrete AgentType
AgentType-discrete = hlevel

unfoldable pub Category-discrete : Discrete Category
Category-discrete = hlevel

unfoldable pub Family-discrete : Discrete Family
Family-discrete = hlevel

unfoldable pub same_agent : AgentType → AgentType → Bool
unfolding AgentType-discrete decide
same_agent a b = decide (AgentType-discrete a b)

unfoldable pub same_category : Category → Category → Bool
unfolding Category-discrete decide
same_category a b = decide (Category-discrete a b)

unfoldable pub same_family : Family → Family → Bool
unfolding Family-discrete decide
same_family a b = decide (Family-discrete a b)

decide_iff : {A : Type 0} (d : Dec A) → (decide d ≡ true) ↔ A
unfolding decide
decide_iff (yes a) = (λ _. a, λ _. refl)
decide_iff (no n) = (λ e. cc, λ a. absurd (n a))

pub same_agent_iff : (a b : AgentType) → (same_agent a b ≡ true) ↔ (a ≡ b)
unfolding same_agent
same_agent_iff a b = decide_iff (AgentType-discrete a b)

pub same_category_iff : (a b : Category) → (same_category a b ≡ true) ↔ (a ≡ b)
unfolding same_category
same_category_iff a b = decide_iff (Category-discrete a b)

pub same_family_iff : (a b : Family) → (same_family a b ≡ true) ↔ (a ≡ b)
unfolding same_family
same_family_iff a b = decide_iff (Family-discrete a b)
