-- ===== src/Runtime/Json.antt =====
-- What json.loads and pydantic hand to the program. `J` is the type of the parsed values.
use pr_sentinel.Prelude.{ℤ, Bool, Option, List, Text}
use pr_sentinel.Runtime.{Float}

-- A conversion gives a value, or a TypeError or ValueError, or an exception of another class.
pub data Read (A : Type 0) : Type 0 where
  got : A → Read A
  refused : Read A
  crashed : Read A

-- What float() returns, which json.loads lets be NaN or infinite.
pub data FloatValue : Type 0 where
  below_zero : FloatValue
  finite : Float → FloatValue
  infinite : FloatValue
  not_a_number : FloatValue

pub record Json (J : Type 0) : Type 0 where
  pub is_dict : J → Bool
  -- v.get(key), `none` for a missing key.
  pub get : J → Text → Option J
  -- bool(v), str(v), int(v) and float(v).
  pub truthy : J → Bool
  pub text : J → Text
  pub int : J → Read ℤ
  pub float : J → Read FloatValue
  -- The elements of an iteration; `none` is the TypeError.
  pub items : J → Option (List J)
  -- What pydantic makes of v for `int | None`; `none` is its ValidationError.
  pub line : J → Option (Option ℤ)
