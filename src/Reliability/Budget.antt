-- ===== src/Reliability/Budget.antt =====
-- src/pr_sentinel/reliability/budget.py. The day's rollup is an argument: `none` is a read that
-- failed.
pub mod Caps
mod Examples
use mathlib.Core.Option.{get_or}
use pr_sentinel.Prelude.{
  ℕ, Bool, true, false, Option, none, some, List, [], ◌∷◌, ltb, if◌then◌else◌,
}
use pr_sentinel.Runtime.{Float, Floats}
use pr_sentinel.Config.{Settings}

pub data Scope : Type 0 where
  review daily : Scope

-- BudgetExceeded(scope, spent, cap)
pub record BudgetExceeded : Type 0 where
  pub scope : Scope
  pub spent : Float
  pub cap : Float

pub record BudgetGuard : Type 0 where
  pub review_id : ℕ
  pub day_spent : Float
  pub review_spent : Float
  pub enabled : Bool

unfoldable pub load : ℕ → Option Float → BudgetGuard
load review_id spend_today = record {
  review_id = review_id;
  day_spent = get_or spend_today 0;
  review_spent = 0;
  enabled = true;
}

-- check(estimated_usd): what it raises.
unfoldable pub check : Floats → Settings → BudgetGuard → Float → Option BudgetExceeded
check F s g estimated_usd =
    if g.enabled
    then if ltb s.review_cost_cap_usd (F.add g.review_spent estimated_usd)
      then some (record { scope = review; spent = g.review_spent; cap = s.review_cost_cap_usd })
      else if ltb s.daily_cost_cap_usd (F.add (F.add g.day_spent g.review_spent) estimated_usd)
      then some (record {
        scope = daily;
        spent = F.add g.day_spent g.review_spent;
        cap = s.daily_cost_cap_usd;
      })
      else none
    else none

unfoldable pub charge : Floats → BudgetGuard → Float → BudgetGuard
charge F g usd = record g { review_spent = F.add g.review_spent usd }

-- max(0.0, cap - spent)
unfoldable pub remaining_review_usd : Floats → Settings → BudgetGuard → Float
remaining_review_usd F s g =
    if ltb g.review_spent s.review_cost_cap_usd
    then F.sub s.review_cost_cap_usd g.review_spent
    else 0
