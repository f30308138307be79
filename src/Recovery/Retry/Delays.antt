-- ===== src/Recovery/Retry/Delays.antt =====
-- How long a `RetryExecutor` of sv2-core/src/recovery.rs sleeps.
use stratum_v2_tools.Common.{
  All, All-append, Bool, Bool-cases, List, Option, [], arith, inl, inr, length, length-append, ltb,
  nat_eq, none, refl, some, string_eq, suc, zero, ℕ, ◌&&◌, ◌++◌, ◌+◌, ◌-◌, ◌≡◌, ◌≤◌,
}
use stratum_v2_tools.Common.Floats.{Floats}
use stratum_v2_tools.Error.{Error, Foreign, Result, Result-cases, clone}
use stratum_v2_tools.Recovery.Breaker.{RecoveryConfig, from_millis}
use stratum_v2_tools.Recovery.Retry.{
  RetryExecutor, attempts, delay_for_attempt, execute_with_condition, exponential_backoff,
  may_execute, new_executor, note_failure, pause,
}

-- Whatever the floating-point numbers do, a delay of the exponential backoff is at most the maximum.
pub delay_for_attempt-le :
    (fl : Floats) (initial max attempt : ℕ) (multiplier : fl.F64)
    → delay_for_attempt {fl = fl} (exponential_backoff initial multiplier max) attempt ≤ max
unfolding delay_for_attempt
delay_for_attempt-le fl initial max attempt multiplier = omega arith

module _ {fl : Floats} {F : Foreign} {T : Type 0} (operation : ℕ → Result F T)
    (should_retry : Error F → Bool) (clock : ℕ → ℕ) where
  pause_bounds :
      (x : RetryExecutor fl) (lo : ℕ) (e : Error F) (initial max : ℕ) (multiplier : fl.F64)
      → x.strategy ≡ exponential_backoff initial multiplier max
      → All (λ d. d ≤ max) (pause operation should_retry clock x lo e)
        × (length (pause operation should_retry clock x lo e) + (x.max_retries - (lo + 1))
            ≤ x.max_retries - lo)
  unfolding pause
  pause_bounds x lo e initial max multiplier s =
      elim (Bool-cases (ltb lo x.max_retries && should_retry e)) [
        | inl waits ↦
            rw (waits, s) ((delay_for_attempt-le fl initial max lo multiplier, tt), ground arith)
        | inr goes_on ↦ rw goes_on (tt, omega arith)
      ]

  attempts_sleeps :
      (rounds lo : ℕ) (x : RetryExecutor fl) (last : Option (Error F)) (sleeps : List ℕ)
      (initial max : ℕ) (multiplier : fl.F64)
      → x.strategy ≡ exponential_backoff initial multiplier max
      → All (λ d. d ≤ max) sleeps
      → let run = attempts operation should_retry clock rounds lo x last sleeps in
        All (λ d. d ≤ max) run.sleeps × (length run.sleeps ≤ length sleeps + (x.max_retries - lo))
  unfolding attempts
  attempts_sleeps zero lo x last sleeps initial max multiplier s h = (h, omega arith)
  attempts_sleeps (suc rounds) lo x last sleeps initial max multiplier s h =
      elim (Result-cases (operation lo)) [
        | inl (a, done) ↦ rw (done, attempts) (h, omega arith)
        | inr (e, broken) ↦
            let p = pause_bounds x lo e initial max multiplier s in
            let more = sleeps ++ pause operation should_retry clock x lo e in
            let rest =
              attempts_sleeps rounds (lo + 1) (note_failure (clock lo) x) (some (clone e)) more
                initial max multiplier s
                (All-append (λ d. d ≤ max) sleeps (pause operation should_retry clock x lo e) h
                  p.0) in
            rw (broken, attempts)
              (
                rest.0,
                omega (
                  arith,
                  rest.1,
                  p.1,
                  length-append sleeps (pause operation should_retry clock x lo e),
                ),
              )
      ]

-- An executor built from a configuration sleeps at most `max_retries` times in a run, each time for
-- at most `max_backoff_ms`, whatever the operation, the test and the floating-point numbers do.
pub execute_sleeps :
    {fl : Floats} {F : Foreign} {T : Type 0} (operation : ℕ → Result F T)
    (should_retry : Error F → Bool) (clock : ℕ → ℕ) (now : ℕ) (c : RecoveryConfig fl)
    → let run = execute_with_condition operation should_retry clock now (new_executor c) in
      All (λ d. d ≤ from_millis c.max_backoff_ms) run.sleeps × (length run.sleeps ≤ c.max_retries)
unfolding execute_with_condition new_executor
execute_sleeps operation should_retry clock now c =
    elim (Bool-cases (may_execute now (new_executor c))) [
      | inr refused ↦ rw (refused, execute_with_condition) (tt, omega arith)
      | inl may ↦
          let (each, count) =
            attempts_sleeps operation should_retry clock (suc c.max_retries) 0 (new_executor c) none
              [] (from_millis c.initial_backoff_ms) (from_millis c.max_backoff_ms)
              c.backoff_multiplier refl tt in
          rw (may, execute_with_condition) (each, omega (arith, count))
    ]
