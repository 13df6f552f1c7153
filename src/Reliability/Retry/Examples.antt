-- ===== src/Reliability/Retry/Examples.antt =====
-- Retries of functions that fail for a while.
use pr_sentinel.Prelude.{
  ℕ, zero, suc, ◌≤◌, ◌<◌, ◌≡◌, refl, Bool, true, false, none, some, Option, ◌⊎◌, inl, inr, length,
  All, ◌==◌, arith,
}
use pr_sentinel.Runtime.{Float}
use pr_sentinel.Reliability.Retry.{
  Attempt, value, raised, RetryPolicy, returned, reraised, exhausted, Run, with_retry,
}
use pr_sentinel.Reliability.Retry.Laws.{
  first_value_returned, first_hard_failure_raised, all_soft_exhausted, with_retry_bounds,
}

-- Exception 7 is retried, 9 is given up on, 1 is a cancellation.
abbrev patient : RetryPolicy ℕ
patient = record {
  attempts = 3;
  base_delay = 500;
  max_delay = 1500;
  retry_on = λ e. true;
  give_up_on = λ e. e == 9;
}

abbrev is_cancelled : ℕ → Bool
is_cancelled e = e == 1

abbrev no_hint : ℕ → Option Float
no_hint e = none

abbrev lowest : ℕ → Float → Float
lowest i c = 0

-- Fails twice, then returns.
abbrev flaky : ℕ → Attempt ℕ ℕ
flaky zero = raised 7
flaky (suc zero) = raised 7
flaky (suc (suc n)) = value 42

abbrev refused : ℕ → Attempt ℕ ℕ
refused zero = raised 7
refused (suc n) = raised 9

abbrev down : ℕ → Attempt ℕ ℕ
down n = raised 7

abbrev run_of : (ℕ → Attempt ℕ ℕ) → Run ℕ ℕ
run_of fn = with_retry fn patient is_cancelled no_hint lowest

abbrev IsRetried : ℕ → Type 0
IsRetried e = (is_cancelled e ≡ false) × (patient.give_up_on e ≡ false) × (true ≡ true)

flaky_soft : (i : ℕ) → i < 2 → (e : ℕ) × (flaky i ≡ raised e) × IsRetried e
flaky_soft zero h = (7, refl, (refl, refl, refl))
flaky_soft (suc zero) h = (7, refl, (refl, refl, refl))
flaky_soft (suc (suc n)) h = absurd (omega arith)

refused_soft : (i : ℕ) → i < 1 → (e : ℕ) × (refused i ≡ raised e) × IsRetried e
refused_soft zero h = (7, refl, (refl, refl, refl))
refused_soft (suc n) h = absurd (omega arith)

down_soft : (i : ℕ) → i < 3 → (e : ℕ) × (down i ≡ raised e) × IsRetried e
down_soft i h = (7, refl, (refl, refl, refl))

draw_le : (i : ℕ) (c : Float) → lowest i c ≤ c
draw_le i c = omega arith

first_value_returned_example :
    ((run_of flaky).ending ≡ returned 42)
    × ((run_of flaky).calls ≡ 3)
    × (length (run_of flaky).sleeps ≡ 2)
first_value_returned_example =
    first_value_returned flaky patient is_cancelled no_hint lowest 2 42 (omega arith) flaky_soft
      refl

first_hard_failure_raised_example :
    ((run_of refused).ending ≡ reraised 9)
    × ((run_of refused).calls ≡ 2)
    × (length (run_of refused).sleeps ≡ 1)
first_hard_failure_raised_example =
    first_hard_failure_raised refused patient is_cancelled no_hint lowest 1 9 (omega arith)
      refused_soft (refl, inr (inl refl))

all_soft_exhausted_example :
    ((run_of down).ending ≡ exhausted 3 7)
    × ((run_of down).calls ≡ 3)
    × (length (run_of down).sleeps ≡ 2)
all_soft_exhausted_example =
    all_soft_exhausted down patient is_cancelled no_hint lowest 2 7 refl down_soft refl

-- The server asks for a pause that is longer than the longest delay.
abbrev hinted : ℕ → Option Float
hinted e = some 9000

with_retry_bounds_example :
    ((with_retry flaky patient is_cancelled hinted lowest).calls ≤ 3)
    × (length (with_retry flaky patient is_cancelled hinted lowest).sleeps
        ≤ (with_retry flaky patient is_cancelled hinted lowest).calls)
    × All
        (λ d. (d ≤ 1500) ⊎ ((e : ℕ) × (hinted e ≡ some d)))
        (with_retry flaky patient is_cancelled hinted lowest).sleeps
with_retry_bounds_example = with_retry_bounds flaky patient is_cancelled hinted lowest draw_le
