-- ===== src/Runtime.antt =====
-- What the program takes from Python's runtime, and from the Unicode tables.
--
-- A float of the program is finite and not negative: a confidence, a weight, a price, a duration.
-- Every such binary64 value is a whole multiple of 2^-1074, and `Float` is that multiple, so
-- comparisons are exact. The operations that round are the fields of `Floats`, with the laws of
-- correctly rounded arithmetic that the proofs use; `one` is the multiple that stands for 1.0.
pub mod Samples
pub mod Json
use pr_sentinel.Prelude.{
  ℕ, ◌*◌, ◌≤◌, ◌<◌, ◌≡◌, Bool, Text, List, Option, none, some, true, ◌+◌, ◌<◌,
}

abbrev pub Float : Type 0
Float = ℕ

pub record Floats : Type 0 where
  pub one : Float
  -- a + b, a * b and a / b, rounded to nearest.
  pub add : Float → Float → Float
  pub mul : Float → Float → Float
  pub div : Float → Float → Float
  -- a - b, rounded, for b at most a.
  pub sub : Float → Float → Float
  -- 1.0 - a, for a at most 1.0.
  pub co : Float → Float
  -- sum(xs), which compensates for rounding from Python 3.12 on.
  pub sum : List Float → Float
  -- The float nearest to the quotient of two integers.
  pub ratio : ℕ → ℕ → Float
  -- f"{x:.2f}"
  pub fixed2 : Float → Text
  -- round(x, 3)
  pub round3 : Float → Float
  -- The constants 0.99, 0.45, 0.7, 0.4 and 0.15 of the program.
  pub c99 : Float
  pub c45 : Float
  pub c70 : Float
  pub c40 : Float
  pub c15 : Float

-- Laws of correctly rounded arithmetic on [0, 1].
pub record IsRounded (F : Floats) : Type 0 where
  pub add_mono : (a b c : Float) → b ≤ c → F.add a b ≤ F.add a c
  pub mul_le_left : (a b : Float) → b ≤ F.one → F.mul a b ≤ a
  pub mul_le_right : (a b : Float) → a ≤ F.one → F.mul a b ≤ b
  pub co_anti : (a b : Float) → a ≤ b → b ≤ F.one → F.co b ≤ F.co a
  pub co_le : (a : Float) → F.co a ≤ F.one
  -- Sterbenz: the difference is exact from one half up.
  pub co_co : (a : Float) → F.one ≤ 2 * a → a ≤ F.one → F.co (F.co a) ≡ a
  pub c99_lt : F.c99 < F.one

-- Laws of correctly rounded addition of what is not negative.
pub record IsAddition (F : Floats) : Type 0 where
  pub mono : (a b c d : Float) → a ≤ b → c ≤ d → F.add a c ≤ F.add b d
  pub le_add : (a b : Float) → a ≤ F.add a b

-- The character tables behind str.lower, str.isalnum and str.isspace.
pub record Unicode : Type 0 where
  pub lower : ℕ → Text
  pub is_alnum : ℕ → Bool
  pub is_space : ℕ → Bool
  -- The value of a decimal digit, as \d and int() read it.
  pub digit : ℕ → Option ℕ

-- What the tables say of the ASCII characters that hunk headers are made of.
pub record IsAscii (U : Unicode) : Type 0 where
  pub digit_of : (d : ℕ) → d < 10 → U.digit (48 + d) ≡ some d
  pub no_comma : U.digit b',' ≡ none
  pub no_space : U.digit b' ' ≡ none
  pub space : U.is_space b' ' ≡ true
