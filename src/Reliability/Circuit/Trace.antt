-- ===== src/Reliability/Circuit/Trace.antt =====
-- Any number of calls at once: what a breaker satisfies after every sequence of steps.
use pr_sentinel.Prelude.{ℕ, ◌+◌, ◌-◌, ◌≤◌, ◌<◌, ◌≡◌, true, false, Text, arith}
use pr_sentinel.Runtime.{Float}
use pr_sentinel.Reliability.Circuit.{
  closed, half_open, CircuitBreaker, new_breaker, read_state, on_success, on_failure, admits,
  Outcome, returned, raised, cancelled, finish,
}

-- A breaker, the calls in flight, and the clock.
pub record Load : Type 0 where
  pub breaker : CircuitBreaker
  pub in_flight : ℕ
  pub clock : Float

-- The clock does not run backwards. A call begins if it is admitted, is refused if not, and a call
-- in flight ends in any way at any time.
pub data Step (s : Load) : Load → Type 0 where
  begin :
      (now : Float)
      → s.clock ≤ now
      → admits s.breaker now ≡ true
      → Step s
          (record { breaker = read_state s.breaker now; in_flight = s.in_flight + 1; clock = now })
  refuse :
      (now : Float)
      → s.clock ≤ now
      → admits s.breaker now ≡ false
      → Step s (record { breaker = read_state s.breaker now; in_flight = s.in_flight; clock = now })
  end :
      (outcome : Outcome) (now : Float)
      → s.clock ≤ now
      → 0 < s.in_flight
      → Step s (record {
        breaker = finish outcome s.breaker now;
        in_flight = s.in_flight - 1;
        clock = now;
      })

pub data Reach (s : Load) : Load → Type 0 where
  here : Reach s s
  next : {t u : Load} → Reach s t → Step t u → Reach s u

pub record IsValid (failure_threshold success_threshold : ℕ) (s : Load) : Type 0 where
  pub fail_limit : s.breaker.failure_threshold ≡ failure_threshold
  pub success_limit : s.breaker.success_threshold ≡ success_threshold
  pub below : s.breaker.state ≡ closed → s.breaker.failures < failure_threshold
  pub probing : s.breaker.state ≡ half_open → s.breaker.successes < success_threshold
  pub past : s.breaker.opened_at ≤ s.clock

module _ {k m : ℕ} (k_pos : 0 < k) (m_pos : 0 < m) where
  read-IsValid :
      (b : CircuitBreaker) (n n' : ℕ) (c now : Float)
      → c ≤ now
      → IsValid k m (record { breaker = b; in_flight = n; clock = c })
      → IsValid k m (record { breaker = read_state b now; in_flight = n'; clock = now })
  unfolding read_state
  read-IsValid b n n' c now h v = ground arith

  finish-IsValid :
      (outcome : Outcome) (b : CircuitBreaker) (n n' : ℕ) (c now : Float)
      → c ≤ now
      → IsValid k m (record { breaker = b; in_flight = n; clock = c })
      → IsValid k m (record { breaker = finish outcome b now; in_flight = n'; clock = now })
  unfolding finish on_success on_failure
  finish-IsValid returned b n n' c now h v = ground arith
  finish-IsValid raised b n n' c now h v = ground arith
  finish-IsValid cancelled b n n' c now h v = ground arith

  Step-IsValid : {s t : Load} → Step s t → IsValid k m s → IsValid k m t
  Step-IsValid {s} (begin now h a) v = read-IsValid s.breaker _ _ s.clock now h v
  Step-IsValid {s} (refuse now h a) v = read-IsValid s.breaker _ _ s.clock now h v
  Step-IsValid {s} (end o now h p) v = finish-IsValid o s.breaker _ _ s.clock now h v

  Reach-IsValid : {s t : Load} → IsValid k m s → Reach s t → IsValid k m t
  Reach-IsValid v here = v
  Reach-IsValid v (next r st) = Step-IsValid st (Reach-IsValid v r)

abbrev pub fresh : Text → ℕ → Float → ℕ → Load
fresh name k recovery m = record {
  breaker = new_breaker name k recovery m;
  in_flight = 0;
  clock = 0;
}

-- With positive thresholds, whatever calls begin, end, overlap or are cancelled: a closed breaker
-- has seen fewer failures in a row than its threshold, a half-open one fewer successes, the
-- thresholds stand, and a breaker never opened in the future.
pub trace-IsValid :
    (name : Text) (k m : ℕ) (recovery : Float) (s : Load)
    → 0 < k
    → 0 < m
    → Reach (fresh name k recovery m) s
    → IsValid k m s
unfolding new_breaker
trace-IsValid name k m recovery s k_pos m_pos r = Reach-IsValid k_pos m_pos (ground arith) r
