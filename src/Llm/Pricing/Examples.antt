-- ===== src/Llm/Pricing/Examples.antt =====
-- The price of concrete calls, in thousandths of a dollar.
use native.Mathlib.Nat.{div-zero, le-div_iff_mul-le, div-mul-le_self, mul-le-mul_right}
use pr_sentinel.Prelude.{text_eq, ℕ, zero, suc, ◌*◌, ◌/◌, ◌≤◌, ◌≡◌, refl, arith, codes}
use pr_sentinel.Runtime.Samples.{thousandths}
use pr_sentinel.Llm.Pricing.{charge_for, Prices, spec_for, estimate_cost, worst_case_cost}
use pr_sentinel.Llm.Pricing.WorstCase.{IsMonotone, estimate-worst_case_cost}

abbrev dollars : Prices
dollars = record { of_int = λ n. n * 1000; cache_read = 100; cache_write = 1250 }

div_le : (a b c : ℕ) → a ≤ b → a / c ≤ b / c
div_le a b zero h = omega (arith, div-zero a, div-zero b)
div_le a b (suc k) h =
    (le-div_iff_mul-le (omega arith)).1 (omega (arith, div-mul-le_self a (suc k), h))

mul_le : (a b c : ℕ) → a ≤ b → a * c / 1000 ≤ b * c / 1000
mul_le a b c h = div_le (a * c) (b * c) 1000 (mul-le-mul_right c h)

dollars-IsMonotone : IsMonotone thousandths dollars
dollars-IsMonotone = record {
  add_le = λ a b c d h k. omega arith;
  mul_le = mul_le;
  div_le = λ a b c h. div_le (a * 1000) (b * 1000) c (omega arith);
  of_int_le = λ m n h. omega arith;
}

-- 2000 tokens in and 16000 out of claude-opus-5 are 41 cents.
test_price : estimate_cost thousandths dollars (codes "claude-opus-5") 2000 16000 0 0 ≡ 410
unfolding estimate_cost charge_for spec_for text_eq
test_price = refl

-- A model that the table does not know is not free.
test_unknown : estimate_cost thousandths dollars (codes "new") 1000000 0 0 0 ≡ 2000
unfolding estimate_cost charge_for spec_for text_eq
test_unknown = refl

-- The same input costs a quarter more when it is written to the cache.
test_cache_write : estimate_cost thousandths dollars (codes "claude-opus-5") 0 0 0 1000000 ≡ 6250
unfolding estimate_cost charge_for spec_for text_eq
test_cache_write = refl

estimate-worst_case_cost_example :
    estimate_cost thousandths dollars (codes "claude-opus-5") 3 900 0 0
    ≤ worst_case_cost thousandths dollars
        (codes "claude-opus-5")
        (codes "Review.")
        (codes "a = b + c")
        1000
estimate-worst_case_cost_example =
    estimate-worst_case_cost thousandths dollars dollars-IsMonotone (codes "claude-opus-5")
      (codes "Review.") (codes "a = b + c") 1000 3 900 (omega arith) (omega arith)
