-- ===== src/Tests/Recovery.antt =====
-- The theorems on sv2-core/src/recovery.rs and sv2-core/src/error.rs at small histories.
use stratum_v2_tools.Common.{
  All, List, [], arith, false, if◌then◌else◌, length, ltb, nat_eq, refl, some, string_eq, true, ℕ,
  ◌-◌, ◌<◌, ◌↔◌, ◌∷◌, ◌≡◌, ◌≤◌, ◌⊎◌,
}
use stratum_v2_tools.Common.Floats.{whole_floats}
use stratum_v2_tools.Error.{Error, Result, authorization, clone, database, err, is_recoverable, ok}
use stratum_v2_tools.Recovery.Breaker.{
  RecoveryConfig, can_execute, default_recovery, from_millis, new_breaker,
}
use stratum_v2_tools.Recovery.Breaker.States.{
  Event, after_events, after_events-new_breaker, at_streak, can_execute-after_events, fails,
  succeeds,
}
use stratum_v2_tools.Recovery.Degradation.{
  feature_failure_count, is_feature_enabled, new_degradation,
}
use stratum_v2_tools.Recovery.Degradation.Features.{
  after_outcomes, after_outcomes-new_degradation, feature_fails,
}
use stratum_v2_tools.Recovery.Retry.{execute_with_condition, may_execute, new_executor}
use stratum_v2_tools.Recovery.Retry.Attempts.{FailsFrom, execute-err, execute-ok}
use stratum_v2_tools.Recovery.Retry.Delays.{execute_sleeps}
use stratum_v2_tools.Tests.Systems.{no_foreign}

abbrev small_recovery : RecoveryConfig whole_floats
small_recovery = record (default_recovery whole_floats) { circuit_breaker_threshold = 2 }

abbrev bad_day : List Event
bad_day = fails 100 ∷ succeeds ∷ fails 200 ∷ fails 300 ∷ []

after_events-new_breaker_example :
    after_events (new_breaker small_recovery) bad_day
    ≡ at_streak whole_floats small_recovery 2 (some 300)
after_events-new_breaker_example = after_events-new_breaker small_recovery bad_day (omega arith)

can_execute-after_events_example :
    (can_execute 400 (after_events (new_breaker small_recovery) bad_day) ≡ true)
    ↔ ((2 < 1) ⊎ (2 < 2) ⊎ ((t : ℕ) × (some 300 ≡ some t) × (from_millis 60000 ≤ 400 - t)))
can_execute-after_events_example = can_execute-after_events small_recovery bad_day 400 (omega arith)

-- Fails at the calls before number `k`, and then answers.
abbrev late : ℕ → ℕ → Result no_foreign ℕ
late k n = if ltb n k then err (authorization "no") else ok 7

late-FailsFrom : (k n : ℕ) → n ≤ k → FailsFrom (late k) 0 n
late-FailsFrom k n h j lo hi = (authorization "no", ground arith)

execute-ok_example :
    let run =
      execute_with_condition (late 2) is_recoverable (λ n. n) 0 (new_executor small_recovery) in
    (run.result ≡ ok 7) × (run.calls ≡ 3)
unfolding may_execute new_executor can_execute new_breaker
execute-ok_example =
    execute-ok (late 2) is_recoverable (λ n. n) 0 2 (new_executor small_recovery) 7 refl
      (omega arith) (late-FailsFrom 2 2 (omega arith)) refl

-- An authorization error, which should not be retried, is retried three times.
execute-err_example :
    let run =
      execute_with_condition (late 9) is_recoverable (λ n. n) 0 (new_executor small_recovery) in
    (run.result ≡ err (clone (authorization "no"))) × (run.calls ≡ 4)
unfolding may_execute new_executor can_execute new_breaker
execute-err_example =
    execute-err (late 9) is_recoverable (λ n. n) 0 (new_executor small_recovery)
      (authorization "no") refl (late-FailsFrom 9 4 (omega arith)) refl

execute_sleeps_example :
    let run =
      execute_with_condition (late 9) is_recoverable (λ n. n) 0 (new_executor small_recovery) in
    All (λ d. d ≤ from_millis 30000) run.sleeps × (length run.sleeps ≤ 3)
execute_sleeps_example = execute_sleeps (late 9) is_recoverable (λ n. n) 0 small_recovery

after_outcomes-new_degradation_example :
    let d =
      after_outcomes
        (new_degradation small_recovery)
        (feature_fails "a" ∷ feature_fails "b" ∷ feature_fails "a" ∷ []) in
    (feature_failure_count "a" d ≡ 2) × ((is_feature_enabled "a" d ≡ false) ↔ ((1 ≤ 2) × (2 ≤ 2)))
after_outcomes-new_degradation_example =
    after_outcomes-new_degradation small_recovery "a"
      (feature_fails "a" ∷ feature_fails "b" ∷ feature_fails "a" ∷ []) (omega arith)

-- A closed pool is what a clone of a database error carries.
abbrev a_database_error : Error no_foreign
a_database_error = database tt
