-- ===== src/Reliability/Retry/Laws.antt =====
-- How often with_retry calls and sleeps, and what it ends in.
use pr_sentinel.Prelude.{
  ℕ, zero, suc, ◌+◌, ◌*◌, ◌^◌, ◌≤◌, ◌<◌, ◌≡◌, ◌≢◌, ◌⊎◌, inl, inr, refl, sym, ap, subst, ◌∙◌, min,
  Bool, true, false, Option, none, some, length, All, arith, Bool-cases, ℕ_discrete, Option-cases,
}
use pr_sentinel.Runtime.{Float}
use pr_sentinel.Reliability.Retry.{
  Attempt, value, raised, RetryPolicy, Ending, returned, reraised, exhausted, Run, stop, after,
  ceiling, delay_for, delay, passes, attempt_from, with_retry,
}

module _ {T E : Type 0} (fn : ℕ → Attempt T E) (policy : RetryPolicy E) (is_cancelled : E → Bool)
    (retry_after : E → Option Float) (uniform : ℕ → Float → Float) where
  abbrev run : ℕ → ℕ → Option E → Run T E
  run = attempt_from fn policy is_cancelled retry_after uniform

  abbrev whole : Run T E
  whole = with_retry fn policy is_cancelled retry_after uniform

  -- An exception that the policy retries: of a class to retry, of no class to give up on, and no
  -- cancellation.
  abbrev pub IsSoft : E → Type 0
  IsSoft e = (is_cancelled e ≡ false) × (policy.give_up_on e ≡ false) × (policy.retry_on e ≡ true)

  -- An exception that goes to the caller: a cancellation, one of a class to give up on, or one of no
  -- class to retry.
  abbrev pub IsHard : E → Type 0
  IsHard e = (is_cancelled e ≡ true) ⊎ (policy.give_up_on e ≡ true) ⊎ (policy.retry_on e ≡ false)

  -- The i-th call raises what the policy retries.
  abbrev pub FailsSoftly : ℕ → Type 0
  FailsSoftly i = (e : E) × (fn i ≡ raised e) × IsSoft e

  -- The i-th call raises what goes to the caller.
  abbrev pub FailsHard : ℕ → E → Type 0
  FailsHard i e = (fn i ≡ raised e) × IsHard e

  IsSoft-passes : (e : E) → IsSoft e → passes policy is_cancelled e ≡ false
  unfolding passes
  IsSoft-passes e h = ground arith

  IsHard-passes : (e : E) → IsHard e → passes policy is_cancelled e ≡ true
  unfolding passes
  IsHard-passes e h = ground arith

  module _ (left attempt : ℕ) (last : Option E) (e : E) (fails : fn attempt ≡ raised e) where
    soft_step :
        passes policy is_cancelled e ≡ false
        → suc attempt ≢ policy.attempts
        → run (suc left) attempt last
          ≡ after
              (delay fn policy is_cancelled retry_after uniform attempt e)
              (run left (suc attempt) (some e))
    unfolding attempt_from
    soft_step soft more = ground arith

    last_step :
        passes policy is_cancelled e ≡ false
        → suc attempt ≡ policy.attempts
        → run (suc left) attempt last ≡ stop (exhausted policy.attempts e) 1
    unfolding attempt_from
    last_step soft done = ground arith

    hard_step :
        passes policy is_cancelled e ≡ true → run (suc left) attempt last ≡ stop (reraised e) 1
    unfolding attempt_from
    hard_step hard = ground arith

  value_step :
      (left attempt : ℕ) (last : Option E) (v : T)
      → fn attempt ≡ value v
      → run (suc left) attempt last ≡ stop (returned v) 1
  unfolding attempt_from
  value_step left attempt last v e = ground arith

  -- A run that ends in `x` after `n` soft failures: it sleeps once for each of them.
  abbrev pub Ends : Run T E → Ending T E → ℕ → Type 0
  Ends r x n = (r.ending ≡ x) × (r.calls ≡ n + 1) × (length r.sleeps ≡ n)

  Ends-stop : (x : Ending T E) → Ends (stop x 1) x 0
  Ends-stop x = (refl, omega arith, refl)

  Ends-after :
      (slept : Float) (r : Run T E) (x : Ending T E) (n : ℕ)
      → Ends r x n
      → Ends (after slept r) x (suc n)
  Ends-after slept r x n h = (h.0, omega arith, omega arith)

  reaches :
      (n k attempt pos : ℕ) (last : Option E) (x : Ending T E)
      → attempt + n ≡ pos
      → n < k
      → attempt + k ≡ policy.attempts
      → ((i : ℕ) → attempt ≤ i → i < pos → FailsSoftly i)
      → ((l : Option E) (m : ℕ) → run (suc m) pos l ≡ stop x 1)
      → Ends (run k attempt last) x n
  reaches n zero attempt pos last x e h t soft stops = elim h [ ]
  reaches zero (suc k) attempt pos last x e h t soft stops =
      let here : attempt ≡ pos = omega arith in
      subst (λ r. Ends r x 0) (sym (ap (λ a. run (suc k) a last) here ∙ stops last k)) (Ends-stop x)
  reaches (suc n) (suc k) attempt pos last x e h t soft stops =
      let (exc, f, s) = soft attempt (omega arith) (omega arith) in
      subst (λ r. Ends r x (suc n))
        (sym (soft_step k attempt last exc f (IsSoft-passes exc s) (omega arith)))
        (Ends-after (delay fn policy is_cancelled retry_after uniform attempt exc)
          (run k (suc attempt) (some exc)) x n
          (reaches n k (suc attempt) pos (some exc) x (omega arith) (omega arith) (omega arith)
            (λ i lo hi. soft i (omega arith) hi) stops))

  whole_reaches :
      (n : ℕ) (x : Ending T E)
      → n < policy.attempts
      → ((i : ℕ) → i < n → FailsSoftly i)
      → ((l : Option E) (m : ℕ) → run (suc m) n l ≡ stop x 1)
      → Ends whole x n
  unfolding with_retry
  whole_reaches n x h soft stops =
      reaches n policy.attempts 0 n none x (omega arith) h (omega arith) (λ i _ hi. soft i hi) stops

  -- The first call that does not fail softly decides, if the policy allows that many: its value is
  -- returned, after one sleep for each failure before it.
  pub first_value_returned :
      (n : ℕ) (v : T)
      → n < policy.attempts
      → ((i : ℕ) → i < n → FailsSoftly i)
      → fn n ≡ value v
      → Ends whole (returned v) n
  first_value_returned n v h soft e =
      whole_reaches n (returned v) h soft (λ l m. value_step m n l v e)

  -- When the first call that does not fail softly raises a cancellation, an exception of a class to
  -- give up on, or one of no class to retry, and the policy allows that many calls, that exception is
  -- raised at once: it is not retried, and there is no sleep after it.
  pub first_hard_failure_raised :
      (n : ℕ) (exc : E)
      → n < policy.attempts
      → ((i : ℕ) → i < n → FailsSoftly i)
      → FailsHard n exc
      → Ends whole (reraised exc) n
  first_hard_failure_raised n exc h soft (e, hard) =
      whole_reaches n (reraised exc) h soft (λ l m. hard_step m n l exc e (IsHard-passes exc hard))

  -- When every allowed call fails softly, with_retry gives up after exactly that many calls, with
  -- the last exception, and does not sleep after the last.
  pub all_soft_exhausted :
      (n : ℕ) (exc : E)
      → suc n ≡ policy.attempts
      → ((i : ℕ) → i < policy.attempts → FailsSoftly i)
      → fn n ≡ raised exc
      → Ends whole (exhausted policy.attempts exc) n
  all_soft_exhausted n exc h soft e =
      let (exc', e', s) = soft n (omega arith) in
      whole_reaches n (exhausted policy.attempts exc) (omega arith) (λ i hi. soft i (omega arith))
        (λ l m. last_step m n l exc e (same exc' e' (IsSoft-passes exc' s)) h)
    where
      same :
          (exc' : E)
          → fn n ≡ raised exc'
          → passes policy is_cancelled exc' ≡ false
          → passes policy is_cancelled exc ≡ false
      same exc' e' s = ground arith

  run_cases :
      (left attempt : ℕ) (last : Option E)
      → ((x : Ending T E) × (run (suc left) attempt last ≡ stop x 1))
        ⊎ ((e : E) × (run (suc left) attempt last
              ≡ after
                  (delay fn policy is_cancelled retry_after uniform attempt e)
                  (run left (suc attempt) (some e))))
  run_cases left attempt last = go (fn attempt) refl
    where
      go :
          (a : Attempt T E)
          → fn attempt ≡ a
          → ((x : Ending T E) × (run (suc left) attempt last ≡ stop x 1))
            ⊎ ((e : E) × (run (suc left) attempt last
                  ≡ after
                      (delay fn policy is_cancelled retry_after uniform attempt e)
                      (run left (suc attempt) (some e))))
      go (value v) e = inl (returned v, value_step left attempt last v e)
      go (raised exc) e = elim (Bool-cases (passes policy is_cancelled exc)) [
        | inl hard ↦ inl (reraised exc, hard_step left attempt last exc e hard)
        | inr soft ↦ elim (ℕ_discrete (suc attempt) policy.attempts) [
          | yes done ↦
              inl (exhausted policy.attempts exc, last_step left attempt last exc e soft done)
          | no more ↦ inr (exc, soft_step left attempt last exc e soft more)
        ]
      ]

  run_calls : (left attempt : ℕ) (last : Option E) → (run left attempt last).calls ≤ left
  unfolding attempt_from
  run_calls zero attempt last = omega arith
  run_calls (suc left) attempt last = elim (run_cases left attempt last) [
    | inl (x, e) ↦ rw e (omega arith)
    | inr (exc, e) ↦ rw e (omega (arith, run_calls left (suc attempt) (some exc)))
  ]

  -- A sleep that the longest delay bounds, or that the server asked for after some exception.
  abbrev pub IsAllowed : Float → Type 0
  IsAllowed d = (d ≤ policy.max_delay) ⊎ ((e : E) × (retry_after e ≡ some d))

  delay-IsAllowed :
      (attempt : ℕ) (e : E)
      → ((i : ℕ) (c : Float) → uniform i c ≤ c)
      → IsAllowed (delay fn policy is_cancelled retry_after uniform attempt e)
  unfolding delay delay_for ceiling
  delay-IsAllowed attempt e draw = elim (Option-cases (retry_after e)) [
    | inl no_hint ↦
        rw (delay, no_hint)
          (inl
            (omega (arith, draw attempt (min policy.max_delay (policy.base_delay * 2 ^ attempt)))))
    | inr (d, hinted) ↦ rw (delay, hinted) (inr (e, hinted))
  ]

  sleeps_from :
      (left attempt : ℕ) (last : Option E)
      → ((i : ℕ) (c : Float) → uniform i c ≤ c)
      → All IsAllowed (run left attempt last).sleeps
  unfolding attempt_from
  sleeps_from zero attempt last draw = tt
  sleeps_from (suc left) attempt last draw = elim (run_cases left attempt last) [
    | inl (x, e) ↦ rw e tt
    | inr (exc, e) ↦
        rw e (delay-IsAllowed attempt exc draw, sleeps_from left (suc attempt) (some exc) draw)
  ]

  fewer_sleeps :
      (left attempt : ℕ) (last : Option E)
      → length (run left attempt last).sleeps ≤ (run left attempt last).calls
  unfolding attempt_from
  fewer_sleeps zero attempt last = omega arith
  fewer_sleeps (suc left) attempt last = elim (run_cases left attempt last) [
    | inl (x, e) ↦ rw e (omega arith)
    | inr (exc, e) ↦ rw e (omega (arith, fewer_sleeps left (suc attempt) (some exc)))
  ]

  -- Where random.uniform(0, c) is at most c: with_retry never calls more often than the policy allows,
  -- whether or not the server gives hints, sleeps at most once for each call, and each sleep is at most
  -- the longest delay or is the hint that the server gave for some exception.
  pub with_retry_bounds :
      ((i : ℕ) (c : Float) → uniform i c ≤ c)
      → (whole.calls ≤ policy.attempts)
        × (length whole.sleeps ≤ whole.calls)
        × All IsAllowed whole.sleeps
  unfolding with_retry
  with_retry_bounds draw = (
    run_calls policy.attempts 0 none,
    fewer_sleeps policy.attempts 0 none,
    sleeps_from policy.attempts 0 none draw,
  )
