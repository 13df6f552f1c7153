-- ===== src/Llm/Pricing/WorstCase.antt =====
-- When the worst case is one.
use pr_sentinel.Prelude.{ℕ, ◌+◌, ◌/◌, ◌≤◌, Text, length, arith}
use pr_sentinel.Runtime.{Float, Floats}
use pr_sentinel.Llm.Pricing.{spec_for, Prices, charge_for, estimate_cost, worst_case_cost}

-- Rounding keeps the order.
pub record IsMonotone (F : Floats) (D : Prices) : Type 0 where
  pub add_le : (a b c d : Float) → a ≤ c → b ≤ d → F.add a b ≤ F.add c d
  pub mul_le : (a b c : Float) → a ≤ b → F.mul a c ≤ F.mul b c
  pub div_le : (a b c : Float) → a ≤ b → F.div a c ≤ F.div b c
  pub of_int_le : (m n : ℕ) → m ≤ n → D.of_int m ≤ D.of_int n

module _ (F : Floats) (D : Prices) (R : IsMonotone F D) where
  charge_for_le : (m n price : ℕ) → m ≤ n → charge_for F D m price ≤ charge_for F D n price
  unfolding charge_for
  charge_for_le m n price h =
      R.mul_le (D.of_int m) (D.of_int n) (D.of_int price) (R.of_int_le m n h)

  estimate_cost_le :
      (model : Text) (i o i' o' r w : ℕ)
      → i ≤ i'
      → o ≤ o'
      → estimate_cost F D model i o r w ≤ estimate_cost F D model i' o' r w
  unfolding estimate_cost
  estimate_cost_le model i o i' o' r w hi ho = R.div_le _ _ (D.of_int 1000000) (
      R.add_le _ _ _ _
        (R.add_le _ _ _ _
          (R.add_le _ _ _ _ (charge_for_le i i' (spec_for model).input_per_mtok hi)
            (charge_for_le o o' (spec_for model).output_per_mtok ho))
          (omega arith))
        (omega arith))

  -- What the guard checks is at least the cost of a response that reads at most a token for every four
  -- characters of each text, writes at most the limit, and uses no cache. A response that writes the
  -- cache, or a text with more tokens, is not covered.
  pub estimate-worst_case_cost :
      (model system user : Text) (max_tokens input_tokens output_tokens : ℕ)
      → input_tokens ≤ length system / 4 + length user / 4
      → output_tokens ≤ max_tokens
      → estimate_cost F D model input_tokens output_tokens 0 0
        ≤ worst_case_cost F D model system user max_tokens
  unfolding worst_case_cost
  estimate-worst_case_cost model system user max_tokens input_tokens output_tokens hi ho =
      estimate_cost_le model input_tokens output_tokens (length system / 4 + length user / 4)
        max_tokens 0 0 hi ho
