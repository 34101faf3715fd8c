-- ===== src/Failover/Breaker/Histories.antt =====
-- What holds of a `CircuitBreaker` after any history of calls.
use pywatt_sdk.Prelude.{
  ℕ, ◌+◌, ◌≤◌, ◌≡◌, ◌≢◌, inl, inr, Option-cases, true, List, [], ◌∷◌, none, some, arith,
}
use pywatt_sdk.Failover.Breaker.{
  CircuitBreaker, CircuitBreakerConfig, opened, Call, executes, succeeds, fails, new, can_execute,
  step, run,
}

-- Every counted outcome is a counted request, and an open circuit knows when it last failed.
pub record IsSound (b : CircuitBreaker) : Type 0 where
  pub counted : b.failure_count + b.success_count ≤ b.request_count
  pub dated : b.state ≡ opened → b.last_failure_time ≢ none

new-IsSound : (c : CircuitBreakerConfig) (now : ℕ) → IsSound (new c now)
unfolding new
new-IsSound c now = record { counted = omega arith; dated = λ e. cc }

pub step-IsSound : (b : CircuitBreaker) (call : Call) → IsSound b → IsSound (step b call)
unfolding step
step-IsSound b (executes now) s = ground arith
step-IsSound b (succeeds now start) s = ground arith
step-IsSound b (fails failed now start) s = ground arith

run-IsSound : (b : CircuitBreaker) (calls : List Call) → IsSound b → IsSound (run b calls)
unfolding run
run-IsSound b [] s = s
run-IsSound b (call ∷ calls) s = run-IsSound (step b call) calls (step-IsSound b call s)

-- After any history of a new breaker, no more outcomes than requests are counted, and an open
-- circuit has a failure on record.
pub run-new-IsSound :
    (c : CircuitBreakerConfig) (start : ℕ) (calls : List Call) → IsSound (run (new c start) calls)
run-new-IsSound c start calls = run-IsSound (new c start) calls (new-IsSound c start)

admits_late :
    (b : CircuitBreaker) (t : ℕ)
    → b.last_failure_time ≡ some t
    → (can_execute b (t + b.timeout + 1)).0 ≡ true
unfolding can_execute
admits_late b t e = ground arith

-- No history of calls locks a new breaker for good: if the circuit is open, there is a last failure,
-- and a request more than the time-out after it is admitted.
pub run-new_reopens :
    (c : CircuitBreakerConfig) (start : ℕ) (calls : List Call)
    → (run (new c start) calls).state ≡ opened
    → let b = run (new c start) calls in
      (t : ℕ) × (b.last_failure_time ≡ some t) × ((can_execute b (t + b.timeout + 1)).0 ≡ true)
run-new_reopens c start calls o = elim (Option-cases (run (new c start) calls).last_failure_time) [
  | inl e ↦ absurd ((run-new-IsSound c start calls).dated o e)
  | inr (t, e) ↦ (t, e, admits_late (run (new c start) calls) t e)
]
