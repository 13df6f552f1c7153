-- ===== src/Reliability/Retry.antt =====
-- src/pr_sentinel/reliability/retry.py. What the awaited function does on its i-th call is an
-- argument; the classes of exceptions are tests; random.uniform is an argument.
pub mod Laws
mod Examples
use pr_sentinel.Prelude.{
  ℕ, zero, suc, ◌+◌, ◌-◌, ◌*◌, ◌^◌, ◌≤◌, min, Bool, true, false, not, Option, none, some, List, [],
  ◌∷◌, ◌==◌, if◌then◌else◌,
}
use mathlib.Core.Option.{get_or}
use pr_sentinel.Runtime.{Float}

-- One run of `fn`: it returns or raises.
pub data Attempt (T E : Type 0) : Type 0 where
  value : T → Attempt T E
  raised : E → Attempt T E

pub record RetryPolicy (E : Type 0) : Type 0 where
  pub attempts : ℕ
  pub base_delay : Float
  pub max_delay : Float
  pub retry_on : E → Bool
  pub give_up_on : E → Bool

-- What a call of with_retry ends in. `assertion` is the assert on `last`, with no attempt made.
pub data Ending (T E : Type 0) : Type 0 where
  returned : T → Ending T E
  reraised : E → Ending T E
  exhausted : ℕ → E → Ending T E
  assertion : Ending T E

pub record Run (T E : Type 0) : Type 0 where
  pub ending : Ending T E
  pub calls : ℕ
  pub sleeps : List Float

-- The bound of the jitter. The product by a power of two is exact.
unfoldable pub ceiling : {E : Type 0} → RetryPolicy E → ℕ → Float
ceiling policy attempt = min policy.max_delay (policy.base_delay * 2 ^ attempt)

-- delay_for, with the draw of this attempt.
unfoldable pub delay_for : {E : Type 0} → RetryPolicy E → (ℕ → Float → Float) → ℕ → Float
delay_for policy uniform attempt = uniform attempt (ceiling policy attempt)

-- The exception passes through at once.
unfoldable pub passes : {E : Type 0} → RetryPolicy E → (E → Bool) → E → Bool
passes policy is_cancelled exc =
    if is_cancelled exc
    then true
    else if policy.give_up_on exc
    then true
    else not (policy.retry_on exc)

module _ {T E : Type 0} (policy : RetryPolicy E) where
  abbrev pub give_up : Option E → Ending T E
  give_up none = assertion
  give_up (some last) = exhausted policy.attempts last

module _ {T E : Type 0} where
  abbrev pub stop : Ending T E → ℕ → Run T E
  stop ending calls = record { ending = ending; calls = calls; sleeps = [] }

  -- One more call and one more sleep in front of a run.
  abbrev pub after : Float → Run T E → Run T E
  after slept rest = record {
    ending = rest.ending;
    calls = suc rest.calls;
    sleeps = slept ∷ rest.sleeps;
  }

module _ {T E : Type 0} (fn : ℕ → Attempt T E) (policy : RetryPolicy E) (is_cancelled : E → Bool)
    (retry_after : E → Option Float) (uniform : ℕ → Float → Float) where
  unfoldable pub delay : ℕ → E → Float
  delay attempt exc = get_or (retry_after exc) (delay_for policy uniform attempt)

  -- The rounds that are left of `for attempt in range(policy.attempts)`, and what stands behind it.
  unfoldable pub attempt_from : ℕ → ℕ → Option E → Run T E
  attempt_from zero attempt last = stop (give_up policy last) 0
  attempt_from (suc left) attempt last = elim (fn attempt) [
    | value v ↦ stop (returned v) 1
    | raised exc ↦ elim (passes policy is_cancelled exc) [
      | true ↦ stop (reraised exc) 1
      | false ↦ elim (suc attempt == policy.attempts) [
        | true ↦ stop (give_up policy (some exc)) 1
        | false ↦ after (delay attempt exc) (attempt_from left (suc attempt) (some exc))
      ]
    ]
  ]

  unfoldable pub with_retry : Run T E
  unfolding attempt_from
  with_retry = attempt_from policy.attempts 0 none
