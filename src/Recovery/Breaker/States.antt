-- ===== src/Recovery/Breaker/States.antt =====
-- The states that a circuit breaker of sv2-core/src/recovery.rs goes through.
use stratum_v2_tools.Common.{
  Bool-cases, List, Option, [], arith, if◌then◌else◌, inl, inr, leb, length, nat_eq, none, refl,
  some, string_eq, true, ℕ, ◌&&◌, ◌+◌, ◌-◌, ◌<◌, ◌↔◌, ◌∷◌, ◌≡◌, ◌≤◌, ◌⊎◌,
}
use stratum_v2_tools.Common.Floats.{Floats}
use stratum_v2_tools.Common.Words.{add_u32_exact, u32_mod}
use stratum_v2_tools.Recovery.Breaker.{
  CircuitBreaker, RecoveryConfig, can_execute, closed, from_millis, new_breaker, open_circuit,
  record_failure, record_success,
}

pub data Event : Type 0 where
  succeeds : Event
  fails : ℕ → Event

module _ {fl : Floats} where
  unfoldable pub after_event : CircuitBreaker fl → Event → CircuitBreaker fl
  after_event cb succeeds = record_success cb
  after_event cb (fails now) = record_failure now cb

  unfoldable pub after_events : CircuitBreaker fl → List Event → CircuitBreaker fl
  after_events cb [] = cb
  after_events cb (e ∷ es) = after_events (after_event cb e) es

-- The failures since the last success, and the time of the latest of them.
abbrev pub streak : ℕ → List Event → ℕ
streak n [] = n
streak n (succeeds ∷ es) = streak 0 es
streak n (fails now ∷ es) = streak (n + 1) es

abbrev pub latest : Option ℕ → List Event → Option ℕ
latest t [] = t
latest t (succeeds ∷ es) = latest none es
latest t (fails now ∷ es) = latest (some now) es

-- The breaker at a streak of `n` failures, the latest at `t`.
abbrev pub at_streak : (fl : Floats) → RecoveryConfig fl → ℕ → Option ℕ → CircuitBreaker fl
at_streak fl c n t = record {
  state = if leb 1 n && leb c.circuit_breaker_threshold n then open_circuit else closed;
  failure_count = n;
  last_failure_time = t;
  config = c;
}

module _ {fl : Floats} where
  after_event-at_streak :
      (c : RecoveryConfig fl) (n : ℕ) (t : Option ℕ) (e : Event)
      → n + 1 < u32_mod
      → after_event (at_streak fl c n t) e ≡ at_streak fl c (streak n (e ∷ [])) (latest t (e ∷ []))
  unfolding after_event record_success record_failure
  after_event-at_streak c n t succeeds h = ground arith
  after_event-at_streak c n t (fails now) h = ground (arith, add_u32_exact n 1)

  after_events-at_streak :
      (c : RecoveryConfig fl) (n : ℕ) (t : Option ℕ) (es : List Event)
      → n + length es < u32_mod
      → after_events (at_streak fl c n t) es ≡ at_streak fl c (streak n es) (latest t es)
  unfolding after_events
  after_events-at_streak c n t [] h = refl
  after_events-at_streak c n t (succeeds ∷ es) h =
      rw (after_event-at_streak c n t succeeds (omega arith))
        (after_events-at_streak c 0 none es (omega arith))
  after_events-at_streak c n t (fails now ∷ es) h =
      rw (after_event-at_streak c n t (fails now) (omega arith))
        (after_events-at_streak c (n + 1) (some now) es (omega arith))

  -- After fewer than 2 ^ 32 recorded results a new breaker is the one of its streak: it counts the
  -- failures since the last success, remembers when the latest was, and is open exactly if there was
  -- one and they reach the threshold. It is never half open.
  pub after_events-new_breaker :
      (c : RecoveryConfig fl) (es : List Event)
      → length es < u32_mod
      → after_events (new_breaker c) es ≡ at_streak fl c (streak 0 es) (latest none es)
  unfolding new_breaker
  after_events-new_breaker c es h =
      let start : new_breaker c ≡ at_streak fl c 0 none = ground arith in
      rw start (after_events-at_streak c 0 none es (omega arith))

  can_execute-at_streak :
      (c : RecoveryConfig fl) (now n : ℕ) (o : Option ℕ)
      → (can_execute now (at_streak fl c n o) ≡ true) ↔ (
          (n < 1)
          ⊎ (n < c.circuit_breaker_threshold)
          ⊎ ((t : ℕ) × (o ≡ some t) × (from_millis c.circuit_breaker_reset_ms ≤ now - t)))
  unfolding can_execute
  can_execute-at_streak c now n none = ((λ e. ground arith), (λ d. ground arith))
  can_execute-at_streak c now n (some t) = (
    (λ e. elim (Bool-cases (leb 1 n && leb c.circuit_breaker_threshold n)) [
      | inl full ↦ inr (inr (t, refl, ground arith))
      | inr short ↦ ground arith
    ]),
    (λ d. elim d [
      | inl none_yet ↦ ground arith
      | inr (inl few) ↦ ground arith
      | inr (inr (x, same, due)) ↦ ground arith
    ]),
  )

  -- After fewer than 2 ^ 32 recorded results the breaker lets an operation run exactly if no failure
  -- stands since the last success, or they are fewer than the threshold, or the latest of them is at
  -- least the reset time ago.
  pub can_execute-after_events :
      (c : RecoveryConfig fl) (es : List Event) (now : ℕ)
      → length es < u32_mod
      → (can_execute now (after_events (new_breaker c) es) ≡ true) ↔ (
          (streak 0 es < 1)
          ⊎ (streak 0 es < c.circuit_breaker_threshold)
          ⊎ ((t : ℕ) × (latest none es ≡ some t)
              × (from_millis c.circuit_breaker_reset_ms ≤ now - t)))
  unfolding can_execute
  can_execute-after_events c es now h =
      rw (after_events-new_breaker c es h)
        (can_execute-at_streak c now (streak 0 es) (latest none es))
