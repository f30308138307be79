-- ===== src/Recovery/Retry/Attempts.antt =====
-- How often a `RetryExecutor` of sv2-core/src/recovery.rs calls its operation, and what it returns.
use stratum_v2_tools.Common.{
  Bool, List, Option, [], arith, false, nat_eq, none, refl, some, string_eq, subst, suc, true, zero,
  ℕ, ℕ_discrete, ◌++◌, ◌+◌, ◌<◌, ◌∙◌, ◌≡◌, ◌≤◌,
}
use stratum_v2_tools.Common.Floats.{Floats}
use stratum_v2_tools.Error.{Error, Foreign, Result, clone, err, ok, system}
use stratum_v2_tools.Recovery.Retry.{
  RetryExecutor, attempts, execute_with_condition, may_execute, note_failure, pause,
}

-- The calls from `lo` up to `hi`, the latter left out, all fail.
abbrev pub FailsFrom : {F : Foreign} {T : Type 0} → (ℕ → Result F T) → ℕ → ℕ → Type 0
FailsFrom {F} operation lo hi = (j : ℕ) → lo ≤ j → j < hi → (e : Error F) × (operation j ≡ err e)

module _ {fl : Floats} {F : Foreign} {T : Type 0} (operation : ℕ → Result F T)
    (should_retry : Error F → Bool) (clock : ℕ → ℕ) where
  attempts_ok :
      (rounds lo k : ℕ) (x : RetryExecutor fl) (last : Option (Error F)) (sleeps : List ℕ) (a : T)
      → lo ≤ k
      → k < lo + rounds
      → FailsFrom operation lo k
      → operation k ≡ ok a
      → let run = attempts operation should_retry clock rounds lo x last sleeps in
        (run.result ≡ ok a) × (run.calls ≡ k + 1)
  unfolding attempts
  attempts_ok zero lo k x last sleeps a l h f e = absurd (omega arith)
  attempts_ok (suc rounds) lo k x last sleeps a l h f e = elim (ℕ_discrete lo k) [
    | yes now ↦ ground (arith, now, e)
    | no later ↦
        let (err_lo, failed) = f lo (omega arith) (omega arith) in
        rw (failed, attempts)
          (attempts_ok rounds (lo + 1) k _ _ _ a (omega arith) (omega arith)
            (λ j p q. f j (omega arith) q) e)
  ]

  attempts_err :
      (rounds lo : ℕ) (x : RetryExecutor fl) (last : Option (Error F)) (sleeps : List ℕ)
      (e : Error F)
      → FailsFrom operation lo (lo + suc rounds)
      → operation (lo + rounds) ≡ err e
      → let run = attempts operation should_retry clock (suc rounds) lo x last sleeps in
        (run.result ≡ err (clone e)) × (run.calls ≡ lo + suc rounds)
  unfolding attempts
  attempts_err zero lo x last sleeps e f h =
      let h' : operation lo ≡ err e = subst (λ k. operation k ≡ err e) (omega arith) h in
      rw (h', attempts) (refl, omega arith)
  attempts_err (suc rounds) lo x last sleeps e f h =
      let (err_lo, failed) = f lo (omega arith) (omega arith) in
      let rest =
        attempts_err rounds (lo + 1) (note_failure (clock lo) x) (some (clone err_lo))
          (sleeps ++ pause operation should_retry clock x lo err_lo) e
          (λ j p q. f j (omega arith) (omega arith))
          (subst (λ k. operation k ≡ err e) (omega arith) h) in
      rw (failed, attempts) (rest.0, rest.1 ∙ omega arith)

-- If the executor may run and an operation first succeeds at its call number `k`, counted from 0 and
-- at most `max_retries`, the run returns that success after `k + 1` calls. This holds for every
-- `should_retry`: a failure that should not be retried is followed by the next call all the same.
pub execute-ok :
    {fl : Floats} {F : Foreign} {T : Type 0} (operation : ℕ → Result F T)
    (should_retry : Error F → Bool) (clock : ℕ → ℕ) (now k : ℕ) (x : RetryExecutor fl) (a : T)
    → may_execute now x ≡ true
    → k ≤ x.max_retries
    → FailsFrom operation 0 k
    → operation k ≡ ok a
    → let run = execute_with_condition operation should_retry clock now x in
      (run.result ≡ ok a) × (run.calls ≡ k + 1)
unfolding execute_with_condition
execute-ok operation should_retry clock now k x a may le f e =
    let run =
      attempts_ok operation should_retry clock (suc x.max_retries) 0 k x none [] a (omega arith)
        (omega arith) f e in
    rw (may, execute_with_condition) run

-- If the executor may run and every call fails, the operation is called `max_retries + 1` times and
-- the run returns a clone of the last error. This holds for every `should_retry`: an error that
-- should not be retried is retried all the same.
pub execute-err :
    {fl : Floats} {F : Foreign} {T : Type 0} (operation : ℕ → Result F T)
    (should_retry : Error F → Bool) (clock : ℕ → ℕ) (now : ℕ) (x : RetryExecutor fl) (e : Error F)
    → may_execute now x ≡ true
    → FailsFrom operation 0 (suc x.max_retries)
    → operation x.max_retries ≡ err e
    → let run = execute_with_condition operation should_retry clock now x in
      (run.result ≡ err (clone e)) × (run.calls ≡ x.max_retries + 1)
unfolding execute_with_condition
execute-err operation should_retry clock now x e may f h =
    let run =
      attempts_err operation should_retry clock x.max_retries 0 x none [] e
        (subst (FailsFrom operation 0) (omega arith) f)
        (subst (λ k. operation k ≡ err e) (omega arith) h) in
    rw (may, execute_with_condition) (run.0, run.1 ∙ omega arith)

-- While the circuit breaker refuses, a run calls nothing, sleeps nowhere, changes nothing and
-- returns the breaker's error.
pub execute-refused :
    {fl : Floats} {F : Foreign} {T : Type 0} (operation : ℕ → Result F T)
    (should_retry : Error F → Bool) (clock : ℕ → ℕ) (now : ℕ) (x : RetryExecutor fl)
    → may_execute now x ≡ false
    → execute_with_condition operation should_retry clock now x ≡ record {
      executor = x;
      result = err (system "Circuit breaker is open");
      calls = 0;
      sleeps = [];
    }
unfolding execute_with_condition
execute-refused operation should_retry clock now x h = rw (h, execute_with_condition)
