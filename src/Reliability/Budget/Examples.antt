-- ===== src/Reliability/Budget/Examples.antt =====
-- A panel that spends.
use pr_sentinel.Prelude.{◌+◌, ◌≤◌, ◌≡◌, refl, none, some, true, List, [], ◌∷◌, arith}
use pr_sentinel.Runtime.{Float}
use pr_sentinel.Runtime.Samples.{thousandths, thousandths-IsRounded, thousandths-IsAddition}
use pr_sentinel.Domain.Samples.{sample_settings}
use pr_sentinel.Reliability.Budget.{BudgetGuard, load, check, charge}
use pr_sentinel.Reliability.Budget.Caps.{
  guarded, guarded_all, sequential_capped, Panel, start, land, Reach, here, next,
  concurrent_overshoot,
}

abbrev guard : BudgetGuard
guard = record { review_id = 1; day_spent = 900; review_spent = 0; enabled = true }

abbrev bills : List (Float × Float)
bills = (300, 250) ∷ (300, 300) ∷ (200, 200) ∷ []

-- The second call is refused: 250 and 300 are over the cap of 500.
test_refused : (guarded_all thousandths sample_settings guard bills).review_spent ≡ 450
unfolding guarded_all guarded check charge
test_refused = refl

sequential_capped_example : (guarded_all thousandths sample_settings guard bills).review_spent ≤ 500
sequential_capped_example =
    sequential_capped thousandths sample_settings thousandths-IsRounded bills guard refl
      (omega arith) (omega arith, (omega arith, (omega arith, tt)))

loaded : load 1 (some 900) ≡ guard
unfolding load
loaded = refl

passed : check thousandths sample_settings (load 1 (some 900)) 400 ≡ none
unfolding check load
passed = refl

abbrev quiet : Panel
quiet = record { guard = load 1 (some 900); in_flight = [] }

-- Two calls of 400 pass the check together, and both land: 800 are spent under a cap of 500.
abbrev landed : Panel
landed = record {
  guard = charge thousandths (charge thousandths (load 1 (some 900)) 400) 400;
  in_flight = [];
}

both : Reach thousandths sample_settings 2 400 quiet landed
both =
    next
      (next
        (next (next here (start 400 (omega arith) (omega arith) passed))
          (start 400 (omega arith) (omega arith) passed))
        (land [] (400 ∷ []) 400 400
          (record { guard = charge thousandths (load 1 (some 900)) 400; in_flight = 400 ∷ [] }) refl
          (omega arith) refl))
      (land [] [] 400 400 landed refl (omega arith) refl)

test_over : landed.guard.review_spent ≡ 800
unfolding charge load
test_over = refl

concurrent_overshoot_example : landed.guard.review_spent ≤ 500 + 400 + 400
concurrent_overshoot_example =
    concurrent_overshoot thousandths thousandths-IsAddition sample_settings 2 400 1 (some 900)
      landed both
