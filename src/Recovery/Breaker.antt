-- ===== src/Recovery/Breaker.antt =====
-- `RecoveryConfig` and `CircuitBreaker` of sv2-core/src/recovery.rs.
pub mod States
use stratum_v2_tools.Common.{
  Bool, Option, false, if◌then◌else◌, leb, nat_eq, none, some, string_eq, true, ℕ, ◌*◌, ◌-◌,
}
use stratum_v2_tools.Common.Floats.{Floats}
use stratum_v2_tools.Common.Words.{add_u32}

pub record RecoveryConfig (fl : Floats) : Type 0 where
  pub max_retries : ℕ
  pub initial_backoff_ms : ℕ
  pub backoff_multiplier : fl.F64
  pub max_backoff_ms : ℕ
  pub jitter_factor : fl.F64
  pub enable_circuit_breaker : Bool
  pub circuit_breaker_threshold : ℕ
  pub circuit_breaker_reset_ms : ℕ

-- `RecoveryConfig::default`.
abbrev pub default_recovery : (fl : Floats) → RecoveryConfig fl
default_recovery fl = record {
  max_retries = 3;
  initial_backoff_ms = 1000;
  backoff_multiplier = fl.decimal "2.0";
  max_backoff_ms = 30000;
  jitter_factor = fl.decimal "0.1";
  enable_circuit_breaker = true;
  circuit_breaker_threshold = 5;
  circuit_breaker_reset_ms = 60000;
}

pub data CircuitBreakerState : Type 0 where
  closed open_circuit half_open : CircuitBreakerState

pub record CircuitBreaker (fl : Floats) : Type 0 where
  pub state : CircuitBreakerState
  pub failure_count : ℕ
  pub last_failure_time : Option ℕ
  pub config : RecoveryConfig fl

-- `Duration::from_millis`.
abbrev pub from_millis : ℕ → ℕ
from_millis ms = ms * 1_000_000

module _ {fl : Floats} where
  unfoldable pub new_breaker : RecoveryConfig fl → CircuitBreaker fl
  new_breaker config = record {
    state = closed;
    failure_count = 0;
    last_failure_time = none;
    config = config;
  }

  -- `last_failure.elapsed() >= reset_timeout`; `elapsed` is at least 0.
  unfoldable pub reset_due : ℕ → CircuitBreaker fl → Bool
  reset_due now cb = elim cb.last_failure_time [
    | some last_failure ↦ leb (from_millis cb.config.circuit_breaker_reset_ms) (now - last_failure)
    | none ↦ false
  ]

  unfoldable pub can_execute : ℕ → CircuitBreaker fl → Bool
  unfolding reset_due
  can_execute now cb = elim cb.state [
    | closed ↦ true
    | open_circuit ↦ reset_due now cb
    | half_open ↦ true
  ]

  unfoldable pub record_success : CircuitBreaker fl → CircuitBreaker fl
  record_success cb = record cb { state = closed; failure_count = 0; last_failure_time = none }

  unfoldable pub record_failure : ℕ → CircuitBreaker fl → CircuitBreaker fl
  record_failure now cb =
      let count = add_u32 cb.failure_count 1 in
      record cb {
        state = if leb cb.config.circuit_breaker_threshold count then open_circuit else cb.state;
        failure_count = count;
        last_failure_time = some now;
      }
