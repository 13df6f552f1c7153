-- ===== src/Reliability/Circuit.antt =====
-- src/pr_sentinel/reliability/circuit.py. The clock is time.monotonic(), read as the code reads it:
-- once for the state, and once more when a failure opens the circuit; the difference of two readings is
-- taken exactly. The lock makes each of the two `_on_…` methods one step; other calls may take steps
-- while `fn` is awaited.
pub mod Trace
pub mod Outage
mod Examples
use pr_sentinel.Prelude.{
  ℕ, zero, suc, ◌+◌, ◌-◌, ◌≤◌, Bool, true, false, ◌&&◌, ◌||◌, Option, none, some, List, [], ◌∷◌,
  ◌++◌, Text, leb, ltb, if◌then◌else◌, text_eq, find_first,
}
use pr_sentinel.Runtime.{Float}

pub data State : Type 0 where
  closed opened half_open : State

pub record CircuitBreaker : Type 0 where
  pub name : Text
  pub failure_threshold : ℕ
  pub recovery_time : Float
  pub success_threshold : ℕ
  pub state : State
  pub failures : ℕ
  pub successes : ℕ
  pub opened_at : Float

-- CircuitBreaker(name, failure_threshold=…, recovery_time=…, success_threshold=…)
unfoldable pub new_breaker : Text → ℕ → Float → ℕ → CircuitBreaker
new_breaker name failure_threshold recovery_time success_threshold = record {
  name = name;
  failure_threshold = failure_threshold;
  recovery_time = recovery_time;
  success_threshold = success_threshold;
  state = closed;
  failures = 0;
  successes = 0;
  opened_at = 0;
}

module _ (b : CircuitBreaker) (now : Float) where
  -- The property `state`: reading it may let a probe through.
  read_from : State → CircuitBreaker
  read_from opened =
      if leb b.recovery_time (now - b.opened_at)
      then record b { state = half_open; successes = 0 }
      else b
  read_from _ = b

  unfoldable pub read_state : CircuitBreaker
  unfolding read_from
  read_state = read_from b.state

success_from : State → CircuitBreaker → CircuitBreaker
success_from half_open b =
    if leb b.success_threshold (b.successes + 1)
    then record b { successes = b.successes + 1; state = closed; failures = 0 }
    else record b { successes = b.successes + 1 }
success_from _ b = record b { failures = 0 }

unfoldable pub on_success : CircuitBreaker → CircuitBreaker
unfolding success_from
on_success b = success_from b.state b

is_half_open : State → Bool
is_half_open half_open = true
is_half_open _ = false

unfoldable pub on_failure : CircuitBreaker → Float → CircuitBreaker
unfolding is_half_open
on_failure b now =
    if is_half_open b.state || leb b.failure_threshold (b.failures + 1)
    then record b { failures = b.failures + 1; state = opened; opened_at = now }
    else record b { failures = b.failures + 1 }

is_open : State → Bool
is_open opened = true
is_open _ = false

-- The guard of `call`: the breaker after the state is read, and whether `fn` is called. A call that
-- is refused raises CircuitOpen.
unfoldable pub admits : CircuitBreaker → Float → Bool
unfolding is_open
admits b now = if is_open (read_state b now).state then false else true

-- How the awaited call ends: a value, an Exception, or a cancellation, which `except Exception`
-- does not catch.
pub data Outcome : Type 0 where
  returned raised cancelled : Outcome

unfoldable pub finish : Outcome → CircuitBreaker → Float → CircuitBreaker
finish returned b now = on_success b
finish raised b now = on_failure b now
finish cancelled b now = b

pub data CallResult : Type 0 where
  circuit_open : Float → CallResult
  ended : Outcome → CallResult

-- `call`, where nothing else runs while `fn` does: it begins at `now` and ends at `later`.
unfoldable pub call : CircuitBreaker → Outcome → Float → Float → CircuitBreaker × CallResult
unfolding finish
call b outcome now later =
    if admits b now
    then (finish outcome (read_state b now) later, ended outcome)
    else (read_state b now, circuit_open (b.recovery_time - (now - b.opened_at)))

-- breaker(name, **kwargs): the arguments count only for a name that is new.
unfoldable pub breaker :
    List CircuitBreaker → Text → ℕ → Float → ℕ → List CircuitBreaker × CircuitBreaker
breaker registry name failure_threshold recovery_time success_threshold =
    elim (find_first (λ b. text_eq b.name name) registry) [
      | some b ↦ (registry, b)
      | none ↦
          let b = new_breaker name failure_threshold recovery_time success_threshold in
          (registry ++ b ∷ [], b)
    ]

-- _registry.clear()
pub reset_all : List CircuitBreaker → List CircuitBreaker
reset_all registry = []
