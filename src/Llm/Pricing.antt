-- ===== src/Llm/Pricing.antt =====
-- src/pr_sentinel/llm/pricing.py, and _worst_case_cost of src/pr_sentinel/llm/client.py.
pub mod WorstCase
mod Examples
use pr_sentinel.Prelude.{
  ℕ, ◌+◌, ◌*◌, ◌/◌, Bool, true, false, Option, none, some, List, [], ◌∷◌, Text, codes, text_eq,
  length, if◌then◌else◌,
}
use pr_sentinel.Runtime.{Float, Floats}

pub record ModelSpec : Type 0 where
  pub input_per_mtok : ℕ
  pub output_per_mtok : ℕ
  pub context_window : ℕ
  pub thinking_style : Text
  pub supports_effort : Bool
  pub supports_prefill : Bool

-- A row of MODELS. Every price of the table is a whole number of dollars.
spec : ℕ → ℕ → ℕ → Text → Bool → ModelSpec
spec input output window style effort = record {
  input_per_mtok = input;
  output_per_mtok = output;
  context_window = window;
  thinking_style = style;
  supports_effort = effort;
  supports_prefill = false;
}

models : List (Text × ModelSpec)
unfolding spec
models =
    (codes "claude-fable-5-1", spec 10 50 1000000 (codes "adaptive") true)
    ∷ (codes "claude-fable-5", spec 10 50 1000000 (codes "adaptive") true)
    ∷ (codes "claude-opus-5", spec 5 25 1000000 (codes "adaptive") true)
    ∷ (codes "claude-opus-4-8", spec 5 25 1000000 (codes "adaptive") true)
    ∷ (codes "claude-opus-4-7", spec 5 25 1000000 (codes "adaptive") true)
    ∷ (codes "claude-opus-4-6", spec 5 25 1000000 (codes "adaptive") true)
    ∷ (codes "claude-sonnet-5", spec 2 10 1000000 (codes "adaptive") true)
    ∷ (codes "claude-sonnet-4-6", spec 3 15 1000000 (codes "adaptive") true)
    ∷ (codes "claude-haiku-4-5", spec 1 5 200000 (codes "budget") false)
    ∷ []

-- MODELS.get(model, _FALLBACK)
spec_in : List (Text × ModelSpec) → Text → ModelSpec
unfolding spec
spec_in [] model = spec 2 10 200000 (codes "adaptive") true
spec_in ((name, s) ∷ rest) model = if text_eq name model then s else spec_in rest model

unfoldable pub spec_for : Text → ModelSpec
unfolding spec_in models
spec_for model = spec_in models model

-- The operations on dollars that the costs need beyond those of Floats: a float from an integer, and
-- the two multipliers of the cache, 0.10 and 1.25.
pub record Prices : Type 0 where
  pub of_int : ℕ → Float
  pub cache_read : Float
  pub cache_write : Float

module _ (F : Floats) (D : Prices) where
  -- tokens * price
  unfoldable pub charge_for : ℕ → ℕ → Float
  charge_for tokens price = F.mul (D.of_int tokens) (D.of_int price)

  unfoldable pub estimate_cost : Text → ℕ → ℕ → ℕ → ℕ → Float
  estimate_cost model input_tokens output_tokens cached_read_tokens cache_write_tokens =
      let s = spec_for model in
      F.div
        (F.add
          (F.add
            (F.add (charge_for input_tokens s.input_per_mtok)
              (charge_for output_tokens s.output_per_mtok))
            (F.mul (charge_for cached_read_tokens s.input_per_mtok) D.cache_read))
          (F.mul (charge_for cache_write_tokens s.input_per_mtok) D.cache_write))
        (D.of_int 1000000)

  -- _worst_case_cost of a request, by its model, its two texts and its limit of tokens.
  unfoldable pub worst_case_cost : Text → Text → Text → ℕ → Float
  worst_case_cost model system user max_tokens =
      estimate_cost model (length system / 4 + length user / 4) max_tokens 0 0
