-- ===== src/Failover/Breaker/Transitions.antt =====
-- The state machine of `CircuitBreaker`: which calls move it, and what an open circuit refuses.
use pywatt_sdk.Prelude.{
  ℕ, ◌+◌, ◌≤◌, ◌<◌, ◌≡◌, refl, ap, ◌∙◌, ◌≢◌, ◌↔◌, ◌⊎◌, true, false, List, [], ◌∷◌, map, All, some,
  arith, ltb, if◌then◌else◌,
}
use pywatt_sdk.Failover.Breaker.{
  CircuitBreaker, closed, opened, half_open, Call, executes, succeeds, fails, can_execute, step,
  run,
}

-- A count after one more event, read at `now`: it is 0 where the window has ended.
abbrev pub counted : CircuitBreaker → ℕ → ℕ → ℕ
counted b now n = if ltb (b.window_start + b.window_size) now then 0 else n + 1

-- Requests are counted after the window: the event is the first of a new one.
abbrev pub requests_at : CircuitBreaker → ℕ → ℕ
requests_at b now = if ltb (b.window_start + b.window_size) now then 1 else b.request_count + 1

-- What the circuit breaker pattern asks for before each call moves the circuit: a check needs more
-- than the time-out since the last failure, a success the last of the successes in the window that
-- the threshold asks for, and a failure enough requests and failures in the window.
abbrev pub Due : CircuitBreaker → Call → Type 0
Due b (executes now) =
    (b.state ≡ opened) × ((t : ℕ) × (b.last_failure_time ≡ some t) × (t + b.timeout < now))
Due b (succeeds now start) =
    (b.state ≡ half_open) × (b.success_threshold ≤ counted b now b.success_count)
Due b (fails failed now start) =
    (b.state ≢ opened)
    × (b.minimum_requests ≤ requests_at b now)
    × (b.failure_threshold ≤ counted b now b.failure_count)

-- The moves: to probing with no success counted yet, to closed with both counts cleared, to open.
abbrev pub Moved : Call → CircuitBreaker → Type 0
Moved (executes now) c = (c.state ≡ half_open) × (c.success_count ≡ 0)
Moved (succeeds now start) c = (c.state ≡ closed) × (c.failure_count ≡ 0) × (c.success_count ≡ 0)
Moved (fails failed now start) c = c.state ≡ opened

-- A call makes its one move where it is due, and else leaves the state as it is.
abbrev pub Move : CircuitBreaker → Call → CircuitBreaker → Type 0
Move b call c = (Due b call × Moved call c) ⊎ ((Due b call → ⊥) × (c.state ≡ b.state))

-- Each call of a circuit breaker moves it exactly where the move is due: a check of an open circuit
-- starts probing once more than the time-out has passed since the last failure, a success of a
-- half-open circuit closes it at the threshold of successes in the window, and a failure opens it
-- at the thresholds of requests and failures in the window. Else the state stays.
pub step-Move : (b : CircuitBreaker) (call : Call) → Move b call (step b call)
unfolding step
step-Move b (executes now) = ground arith
step-Move b (succeeds now start) = ground arith
step-Move b (fails failed now start) = ground arith

-- What a probing circuit has become that closes.
pub record Recovers (b c : CircuitBreaker) : Type 0 where
  pub was_probing : b.state ≡ half_open
  pub is_closed : c.state ≡ closed
  pub no_failures : c.failure_count ≡ 0
  pub no_successes : c.success_count ≡ 0

pub step-config : (b : CircuitBreaker) (call : Call) → (step b call).config ≡ b.config
unfolding step
step-config b (executes now) = ground arith
step-config b (succeeds now start) = ground arith
step-config b (fails failed now start) = ground arith

-- A request is admitted exactly when the circuit is not open, or more than the time-out has passed
-- since its last failure.
pub can_execute_iff :
    (b : CircuitBreaker) (now : ℕ)
    → ((can_execute b now).0 ≡ true)
      ↔ ((b.state ≢ opened) ⊎ ((t : ℕ) × (b.last_failure_time ≡ some t) × (t + b.timeout < now)))
unfolding can_execute
can_execute_iff b now = (admitted, λ h. ground arith)
  where
    admitted :
        (can_execute b now).0 ≡ true
        → (b.state ≢ opened) ⊎ ((t : ℕ) × (b.last_failure_time ≡ some t) × (t + b.timeout < now))
    admitted h = ground arith

-- A refused request leaves the breaker as it was.
pub can_execute_refused :
    (b : CircuitBreaker) (now : ℕ) → (can_execute b now).0 ≡ false → (can_execute b now).1 ≡ b
unfolding can_execute
can_execute_refused b now h = ground arith

step-executes_open :
    (b : CircuitBreaker) (t now : ℕ)
    → b.state ≡ opened
    → b.last_failure_time ≡ some t
    → now ≤ t + b.timeout
    → step b (executes now) ≡ b
unfolding step
step-executes_open b t now o l h = ground arith

refuse :
    (b : CircuitBreaker) (t now : ℕ)
    → b.state ≡ opened
    → b.last_failure_time ≡ some t
    → now ≤ t + b.timeout
    → (can_execute b now).0 ≡ false
unfolding can_execute
refuse b t now o l h = ground arith

-- Within the time-out after a failure, checks at any times are all refused and change nothing.
pub run-executes_open :
    (b : CircuitBreaker) (t : ℕ) (nows : List ℕ)
    → b.state ≡ opened
    → b.last_failure_time ≡ some t
    → All (λ now. now ≤ t + b.timeout) nows
    → (run b (map executes nows) ≡ b) × All (λ now. (can_execute b now).0 ≡ false) nows
unfolding run
run-executes_open b t [] o l h = (refl, tt)
run-executes_open b t (now ∷ nows) o l h =
    let same = step-executes_open b t now o l h.0 in
    let (rest, refused) = run-executes_open b t nows o l h.1 in
    (ap (λ c. run c (map executes nows)) same ∙ rest, (refuse b t now o l h.0, refused))
