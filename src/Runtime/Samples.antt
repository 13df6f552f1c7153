-- ===== src/Runtime/Samples.antt =====
-- Concrete runtimes: the ASCII part of the character tables, and decimal arithmetic on thousandths.
use native.Mathlib.Nat.{mul_comm}
use pr_sentinel.Prelude.{
  ℕ, ◌+◌, ◌-◌, ◌*◌, ◌/◌, ◌≤◌, refl, ◌&&◌, ◌||◌, none, some, List, [], ◌∷◌, List, [], ◌∷◌, ◌++◌,
  codes, show, leb, if◌then◌else◌, arith,
}
use pr_sentinel.Runtime.{Floats, IsRounded, IsAddition, Unicode, IsAscii}

abbrev pub ascii : Unicode
ascii = record {
  lower = λ c. (if leb 65 c && leb c 90 then c + 32 else c) ∷ [];
  is_alnum = λ c. (leb 48 c && leb c 57) || (leb 65 c && leb c 90) || (leb 97 c && leb c 122);
  is_space = λ c. (leb 9 c && leb c 13) || (leb 28 c && leb c 32);
  digit = λ c. if leb 48 c && leb c 57 then some (c - 48) else none;
}

pub ascii-IsAscii : IsAscii ascii
ascii-IsAscii = record {
  digit_of = λ d h. ground arith;
  no_comma = refl;
  no_space = refl;
  space = refl;
}

abbrev pub total : List ℕ → ℕ
total [] = 0
total (x ∷ xs) = x + total xs

abbrev pub thousandths : Floats
thousandths = record {
  one = 1000;
  add = λ a b. a + b;
  mul = λ a b. a * b / 1000;
  div = λ a b. a * 1000 / b;
  sub = λ a b. a - b;
  co = λ a. 1000 - a;
  sum = total;
  ratio = λ a b. a * 1000 / b;
  fixed2 = λ a. show (a / 1000) ++ codes "." ++ show (a / 10 - a / 1000 * 100);
  round3 = λ a. a;
  c99 = 990;
  c45 = 450;
  c70 = 700;
  c40 = 400;
  c15 = 150;
}

pub thousandths-IsAddition : IsAddition thousandths
thousandths-IsAddition = record { mono = λ a b c d h k. omega arith; le_add = λ a b. omega arith }

scaled : (a b : ℕ) → b ≤ 1000 → a * b ≤ a * 1000
scaled a b h = grind arith

pub thousandths-IsRounded : IsRounded thousandths
thousandths-IsRounded = record {
  add_mono = λ a b c h. omega arith;
  mul_le_left = λ a b h. omega (arith, scaled a b h);
  mul_le_right = λ a b h. omega (arith, scaled b a h, mul_comm a b);
  co_anti = λ a b h k. omega arith;
  co_le = λ a. omega arith;
  co_co = λ a h k. omega arith;
  c99_lt = omega arith;
}
