-- ===== src/Reliability/Circuit/Outage.antt =====
-- The life of a breaker through an outage: it opens, refuses, probes and closes.
use pr_sentinel.Prelude.{
  ◌∙◌, sym, subst, ℕ, suc, ◌+◌, ◌-◌, ◌≤◌, ◌<◌, ◌≡◌, refl, false, List, [], ◌∷◌, Text, length, arith,
}
use pr_sentinel.Runtime.{Float}
use pr_sentinel.Reliability.Circuit.{
  closed, opened, half_open, CircuitBreaker, new_breaker, read_state, on_success, on_failure,
  admits, Outcome, returned, raised, cancelled, finish, call,
}
use pr_sentinel.Reliability.Circuit.Trace.{Load, Step, begin, refuse, end, Reach, here, next}

-- Calls one after another, each with the times at which it begins and ends.
pub calls : Outcome → CircuitBreaker → List (Float × Float) → CircuitBreaker
calls o b [] = b
calls o b ((now, later) ∷ rest) = calls o (call b o now later).0 rest

failing_from :
    (times : List (Float × Float)) (b : CircuitBreaker)
    → b.state ≡ closed
    → b.failures + length times ≡ b.failure_threshold
    → b.failures < b.failure_threshold
    → (calls raised b times).state ≡ opened
unfolding calls call read_state admits finish on_failure
failing_from [] b c e lt = absurd (omega arith)
failing_from ((now, later) ∷ []) b c e lt = ground arith
failing_from ((now, later) ∷ (now', later') ∷ rest) b c e lt =
    ground (arith, failing_from ((now', later') ∷ rest) (record b { failures = b.failures + 1 }))

-- A closed breaker opens after as many failures in a row as it has left.
pub failures_open :
    (name : Text) (k m : ℕ) (recovery : Float) (times : List (Float × Float))
    → 0 < k
    → length times ≡ k
    → (calls raised (new_breaker name k recovery m) times).state ≡ opened
unfolding new_breaker
failures_open name k m recovery times pos e = failing_from times _ refl (omega arith) pos

abbrev Closes : CircuitBreaker → List (Float × Float) → Type 0
Closes b times = ((calls returned b times).state ≡ closed) × ((calls returned b times).failures ≡ 0)

closing_from :
    (times : List (Float × Float)) (b : CircuitBreaker)
    → b.state ≡ half_open
    → b.successes + length times ≡ b.success_threshold
    → b.successes < b.success_threshold
    → ((calls returned b times).state ≡ closed) × ((calls returned b times).failures ≡ 0)
unfolding calls call read_state admits finish on_success
closing_from [] b c e lt = absurd (omega arith)
closing_from ((now, later) ∷ []) b c e lt = ground arith
closing_from ((now, later) ∷ (now', later') ∷ rest) b c e lt =
    ground (arith, closing_from ((now', later') ∷ rest) (record b { successes = b.successes + 1 }))

first_probe :
    (b : CircuitBreaker) (now later : Float)
    → b.state ≡ opened
    → b.recovery_time ≤ now - b.opened_at
    → (call b returned now later).0 ≡ on_success (record b { state = half_open; successes = 0 })
unfolding call read_state admits finish
first_probe b now later o h = ground arith

first_success :
    (b : CircuitBreaker)
    → 1 < b.success_threshold
    → on_success (record b { state = half_open; successes = 0 })
      ≡ record b { state = half_open; successes = 1 }
unfolding on_success
first_success b h = ground arith

-- Once the recovery time is over an open breaker lets calls through again: as many successes in a
-- row as its threshold close it, with the failures forgotten.
pub successes_close :
    (b : CircuitBreaker) (now later : Float) (times : List (Float × Float))
    → b.state ≡ opened
    → b.recovery_time ≤ now - b.opened_at
    → suc (length times) ≡ b.success_threshold
    → ((calls returned b ((now, later) ∷ times)).state ≡ closed)
      × ((calls returned b ((now, later) ∷ times)).failures ≡ 0)
unfolding calls
successes_close b now later [] o h e =
    rw (first_probe b now later o h) (unfold on_success in ground arith)
successes_close b now later (t ∷ times) o h e =
    subst (λ c. Closes c (t ∷ times))
      (sym (first_probe b now later o h ∙ first_success b (omega arith)))
      (closing_from (t ∷ times) (record b { state = half_open; successes = 1 }) refl (omega arith)
        (omega arith))

-- One failure of a probe opens the breaker again, for a whole recovery time from then on.
pub probe_failure_reopens :
    (b : CircuitBreaker) (now later : Float)
    → b.state ≡ opened
    → b.recovery_time ≤ now - b.opened_at
    → ((call b raised now later).0.state ≡ opened) × ((call b raised now later).0.opened_at ≡ later)
unfolding call read_state admits finish on_failure
probe_failure_reopens b now later o h = ground arith

pub record StaysOpen (s t : Load) : Type 0 where
  pub state : t.breaker.state ≡ opened
  pub opened_at : s.breaker.opened_at ≤ t.breaker.opened_at
  pub recovery : t.breaker.recovery_time ≡ s.breaker.recovery_time

Step-clock : {s t : Load} → Step s t → s.clock ≤ t.clock
Step-clock (begin now h a) = h
Step-clock (refuse now h a) = h
Step-clock (end o now h p) = h

Reach-clock : {s t : Load} → Reach s t → s.clock ≤ t.clock
Reach-clock here = omega arith
Reach-clock (next r st) = omega (arith, Reach-clock r, Step-clock st)

Step-stays :
    {s t u : Load}
    → Step t u
    → s.breaker.opened_at ≤ s.clock
    → s.clock ≤ t.clock
    → u.clock < s.breaker.opened_at + s.breaker.recovery_time
    → StaysOpen s t
    → StaysOpen s u
unfolding read_state admits finish on_success on_failure
Step-stays (begin now h a) past c window v = ground arith
Step-stays (refuse now h a) past c window v = ground arith
Step-stays (end returned now h p) past c window v = ground arith
Step-stays (end raised now h p) past c window v = ground arith
Step-stays (end cancelled now h p) past c window v = ground arith

stays_open :
    {s t : Load}
    → s.breaker.state ≡ opened
    → s.breaker.opened_at ≤ s.clock
    → Reach s t
    → t.clock < s.breaker.opened_at + s.breaker.recovery_time
    → StaysOpen s t
stays_open o past here window = record { state = o; opened_at = omega arith; recovery = refl }
stays_open o past (next r st) window =
    Step-stays st past (Reach-clock r) window (stays_open o past r (omega (arith, Step-clock st)))

opened_refuses :
    (b : CircuitBreaker) (now : Float)
    → b.state ≡ opened
    → now - b.opened_at < b.recovery_time
    → admits b now ≡ false
unfolding admits read_state
opened_refuses b now o h = ground arith

-- From the moment a breaker is open no call is admitted before the recovery time is over, whatever
-- the calls that were in flight do meanwhile.
pub outage_refuses :
    (s t : Load) (now : Float)
    → s.breaker.state ≡ opened
    → s.breaker.opened_at ≤ s.clock
    → Reach s t
    → t.clock ≤ now
    → now < s.breaker.opened_at + s.breaker.recovery_time
    → admits t.breaker now ≡ false
outage_refuses s t now o past r c window =
    let v = stays_open o past r (omega arith) in
    opened_refuses t.breaker now v.state (omega (arith, Reach-clock r, v.opened_at, v.recovery))
