-- ===== src/Reliability/Circuit/Examples.antt =====
-- The life of concrete breakers.
use pr_sentinel.Prelude.{◌≡◌, refl, true, false, codes, arith}
use pr_sentinel.Reliability.Circuit.{
  opened, CircuitBreaker, new_breaker, read_state, admits, raised, finish,
}
use pr_sentinel.Reliability.Circuit.Trace.{Load, begin, end, here, next, IsValid, trace-IsValid}
use pr_sentinel.Reliability.Circuit.Outage.{outage_refuses}

-- Open since 5, for 10, with one call still in flight.
abbrev broken : CircuitBreaker
broken = record {
  name = codes "llm";
  failure_threshold = 3;
  recovery_time = 10;
  success_threshold = 2;
  state = opened;
  failures = 3;
  successes = 0;
  opened_at = 5;
}

abbrev outage : Load
outage = record { breaker = broken; in_flight = 1; clock = 5 }

-- The call in flight fails at 7.
abbrev later : Load
later = record { breaker = finish raised broken 7; in_flight = 0; clock = 7 }

outage_refuses_example : admits later.breaker 12 ≡ false
outage_refuses_example =
    outage_refuses outage later 12 refl (omega arith)
      (next here (end raised 7 (omega arith) (omega arith))) (omega arith) (omega arith)

abbrev begun : Load
begun = record {
  breaker = read_state (new_breaker (codes "llm") 3 10 2) 4;
  in_flight = 1;
  clock = 4;
}

admitted : admits (new_breaker (codes "llm") 3 10 2) 4 ≡ true
unfolding admits new_breaker read_state
admitted = refl

trace-IsValid_example : IsValid 3 2 begun
trace-IsValid_example =
    trace-IsValid (codes "llm") 3 2 10 begun (omega arith) (omega arith)
      (next here (begin 4 (omega arith) admitted))
