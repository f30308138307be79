-- ===== src/Recovery/Retry.antt =====
-- `RetryStrategy` and `RetryExecutor` of sv2-core/src/recovery.rs. An operation is given by its
-- outcome at each call, and the clock by its reading after each failure.
pub mod Attempts
pub mod Delays
use mathlib.Core.Option
use stratum_v2_tools.Common.{
  Bool, List, Option, [], get_or, if◌then◌else◌, ltb, map, min, nat_eq, none, some, string_eq, suc,
  true, zero, ℕ, ◌%◌, ◌&&◌, ◌++◌, ◌+◌, ◌/◌, ◌∷◌,
}
use stratum_v2_tools.Common.Floats.{Floats}
use stratum_v2_tools.Common.Words.{u64_mod}
use stratum_v2_tools.Error.{Error, Foreign, Result, clone, err, ok, system}
use stratum_v2_tools.Recovery.Breaker.{
  CircuitBreaker, RecoveryConfig, can_execute, from_millis, new_breaker, record_failure,
  record_success,
}

pub data RetryStrategy (fl : Floats) : Type 0 where
  fixed : ℕ → RetryStrategy fl
  exponential_backoff : ℕ → fl.F64 → ℕ → RetryStrategy fl

-- `Duration::as_millis`, a 128-bit number.
abbrev pub as_millis : ℕ → ℕ
as_millis d = d / 1_000_000

pub record RetryExecutor (fl : Floats) : Type 0 where
  pub strategy : RetryStrategy fl
  pub max_retries : ℕ
  pub timeout : ℕ
  pub circuit_breaker : Option (CircuitBreaker fl)

module _ {fl : Floats} where
  unfoldable pub delay_for_attempt : RetryStrategy fl → ℕ → ℕ
  delay_for_attempt (fixed delay) attempt = delay
  delay_for_attempt (exponential_backoff initial multiplier max) attempt =
      let delay = fl.mul (fl.of_nat (as_millis initial)) (fl.powi multiplier attempt) in
      from_millis (min (fl.to_u64 delay) (as_millis max % u64_mod))

  unfoldable pub new_executor : RecoveryConfig fl → RetryExecutor fl
  unfolding new_breaker
  new_executor c = record {
    strategy =
        exponential_backoff (from_millis c.initial_backoff_ms) c.backoff_multiplier
          (from_millis c.max_backoff_ms);
    max_retries = c.max_retries;
    timeout = from_millis c.max_backoff_ms;
    circuit_breaker = if c.enable_circuit_breaker then some (new_breaker c) else none;
  }

  unfoldable pub may_execute : ℕ → RetryExecutor fl → Bool
  may_execute now x = elim x.circuit_breaker [ none ↦ true | some cb ↦ can_execute now cb ]

  unfoldable pub note_success : RetryExecutor fl → RetryExecutor fl
  note_success x = record x { circuit_breaker = Option.map record_success x.circuit_breaker }

  unfoldable pub note_failure : ℕ → RetryExecutor fl → RetryExecutor fl
  note_failure now x = record x {
    circuit_breaker = Option.map (record_failure now) x.circuit_breaker;
  }

-- What a run of the executor leaves: its new state, its result, how often it called the operation,
-- and for how long it slept each time.
pub record Run (fl : Floats) (F : Foreign) (T : Type 0) : Type 0 where
  pub executor : RetryExecutor fl
  pub result : Result F T
  pub calls : ℕ
  pub sleeps : List ℕ

module _ {fl : Floats} {F : Foreign} {T : Type 0} (operation : ℕ → Result F T)
    (should_retry : Error F → Bool) (clock : ℕ → ℕ) where
  -- The sleep after a failed attempt.
  unfoldable pub pause : RetryExecutor fl → ℕ → Error F → List ℕ
  pause x attempt e =
      if ltb attempt x.max_retries && should_retry e
      then delay_for_attempt x.strategy attempt ∷ []
      else []

  -- The rounds `attempt ..= max_retries`, of which `rounds` are left; `last` is `last_error`.
  unfoldable pub attempts : ℕ → ℕ → RetryExecutor fl → Option (Error F) → List ℕ → Run fl F T
  unfolding pause note_success note_failure
  attempts zero attempt x last sleeps = record {
    executor = x;
    result = err (get_or last (system "Unknown error"));
    calls = attempt;
    sleeps = sleeps;
  }
  attempts (suc rounds) attempt x last sleeps = elim (operation attempt) [
    | ok result ↦ record {
      executor = note_success x;
      result = ok result;
      calls = attempt + 1;
      sleeps = sleeps;
    }
    | err e ↦
        attempts rounds (attempt + 1) (note_failure (clock attempt) x) (some (clone e))
          (sleeps ++ pause x attempt e)
  ]

  unfoldable pub execute_with_condition : ℕ → RetryExecutor fl → Run fl F T
  unfolding may_execute attempts
  execute_with_condition now x =
      let run = attempts (suc x.max_retries) 0 x none [] in
      if may_execute now x then run else record {
        executor = x;
        result = err (system "Circuit breaker is open");
        calls = 0;
        sleeps = [];
      }
