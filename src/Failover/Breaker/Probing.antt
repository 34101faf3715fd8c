-- ===== src/Failover/Breaker/Probing.antt =====
-- The half-open state of `CircuitBreaker`: how a probe closes the circuit, and when it opens it.
use pywatt_sdk.Prelude.{
  ℕ, ◌+◌, ◌≤◌, ◌<◌, ◌≡◌, refl, ap, ◌∙◌, true, false, List, [], ◌∷◌, ◌++◌, map, All, length, some,
  arith,
}
use pywatt_sdk.Failover.Breaker.Transitions.{Recovers}
use pywatt_sdk.Failover.Breaker.{
  CircuitBreaker, opened, half_open, Call, executes, succeeds, fails, can_execute, step, run,
}

abbrev pub successes : List (ℕ × ℕ) → List Call
successes = map λ p. succeeds p.0 p.1

-- The window of `b` is still open at `deadline`.
abbrev pub InWindow : CircuitBreaker → ℕ → Type 0
InWindow b deadline = deadline ≤ b.window_start + b.window_size

-- What a half-open circuit has become after `n` successes.
pub record StillProbing (n : ℕ) (b c : CircuitBreaker) : Type 0 where
  pub same_config : c.config ≡ b.config
  pub same_start : c.window_start ≡ b.window_start
  pub is_probing : c.state ≡ half_open
  pub counted : c.success_count ≡ b.success_count + n

module _ (deadline : ℕ) where
  succeeds-StillProbing :
      (b : CircuitBreaker) (now start : ℕ)
      → b.state ≡ half_open
      → InWindow b deadline
      → now ≤ deadline
      → b.success_count + 1 < b.success_threshold
      → StillProbing 1 b (step b (succeeds now start))
  unfolding step
  succeeds-StillProbing b now start p w h k = ground arith

  -- Within one window, fewer successes than the threshold leave a half-open circuit half-open, and
  -- are all counted.
  pub run-successes-StillProbing :
      (b : CircuitBreaker) (ps : List (ℕ × ℕ))
      → b.state ≡ half_open
      → InWindow b deadline
      → All (λ p. p.0 ≤ deadline) ps
      → b.success_count + length ps < b.success_threshold
      → StillProbing (length ps) b (run b (successes ps))
  unfolding run
  run-successes-StillProbing b [] p w h k = ground arith
  run-successes-StillProbing b ((now, start) ∷ ps) p w h k =
      let s = succeeds-StillProbing b now start p w h.0 (omega arith) in
      let c = step b (succeeds now start) in
      let e = ap (λ k. k.window_size) s.same_config in
      let g = ap (λ k. k.success_threshold) s.same_config in
      let t = run-successes-StillProbing c ps s.is_probing (omega arith) h.1 (omega arith) in
      record {
        same_config = t.same_config ∙ s.same_config;
        same_start = omega arith;
        is_probing = t.is_probing;
        counted = omega arith;
      }

  run-successes_last :
      (b : CircuitBreaker) (ps : List (ℕ × ℕ)) (now start : ℕ)
      → run b (successes (ps ++ (now, start) ∷ []))
        ≡ step (run b (successes ps)) (succeeds now start)
  unfolding run
  run-successes_last b [] now start = refl
  run-successes_last b (p ∷ ps) now start =
      run-successes_last (step b (succeeds p.0 p.1)) ps now start

  closes :
      (b : CircuitBreaker) (now start : ℕ)
      → b.state ≡ half_open
      → InWindow b deadline
      → now ≤ deadline
      → b.success_threshold ≤ b.success_count + 1
      → Recovers b (step b (succeeds now start))
  unfolding step
  closes b now start p w h k = ground arith

  -- Within one window, the success that reaches the threshold closes a half-open circuit and clears
  -- both counts.
  pub run-successes_closes :
      (b : CircuitBreaker) (ps : List (ℕ × ℕ)) (now start : ℕ)
      → b.state ≡ half_open
      → InWindow b deadline
      → All (λ p. p.0 ≤ deadline) ps
      → now ≤ deadline
      → b.success_count + length ps + 1 ≡ b.success_threshold
      → Recovers (run b (successes ps)) (run b (successes (ps ++ (now, start) ∷ [])))
  run-successes_closes b ps now start p w h q k =
      let s = run-successes-StillProbing b ps p w h (omega arith) in
      let c = run b (successes ps) in
      let e = ap (λ k. k.window_size) s.same_config in
      let g = ap (λ k. k.success_threshold) s.same_config in
      rw run-successes_last (closes c now start s.is_probing (omega arith) q (omega arith))

-- While the window lasts, a failed probe opens the circuit again if the thresholds are met, and the
-- time-out starts anew from the failure: a check within it is refused.
pub fails_reopens :
    (b : CircuitBreaker) (failed now start later : ℕ)
    → b.state ≡ half_open
    → now ≤ b.window_start + b.window_size
    → later ≤ failed + b.timeout
    → b.minimum_requests ≤ b.request_count + 1
    → b.failure_threshold ≤ b.failure_count + 1
    → let c = step b (fails failed now start) in
      (c.state ≡ opened) × (c.last_failure_time ≡ some failed) × ((can_execute c later).0 ≡ false)
unfolding step can_execute
fails_reopens b failed now start later p w l m k = ground arith

-- The circuit opened at a failure in its window, the window is no longer than the time-out (as in the
-- default configuration), and the failure threshold is not zero. Then the failure of the first probe
-- is not counted, whatever the least number of requests: the circuit stays half-open, and a check at
-- any time is admitted.
pub probe_failure_lost :
    (b : CircuitBreaker) (t now failed later start checked : ℕ)
    → b.state ≡ opened
    → b.last_failure_time ≡ some t
    → b.window_start ≤ t
    → b.window_size ≤ b.timeout
    → 0 < b.failure_threshold
    → t + b.timeout < now
    → now ≤ later
    → let c = run b (executes now ∷ fails failed later start ∷ []) in
      (c.state ≡ half_open) × (c.failure_count ≡ 0) × ((can_execute c checked).0 ≡ true)
unfolding run step can_execute
probe_failure_lost b t now failed later start checked o l w z f p q = ground arith
