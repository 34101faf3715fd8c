-- ===== src/Failover/Breaker.antt =====
-- `CircuitBreaker` of communication/failover.py. Times and durations count microseconds, the
-- resolution of `datetime`. Each reading of the clock is an argument, in the order of the calls of
-- `datetime.now()`. Logging is left out, and the lock makes each method one step.
pub mod Transitions
pub mod Histories
pub mod Probing
mod Tests
use pywatt_sdk.Prelude.{
  ℕ, ◌+◌, ◌-◌, Bool, true, false, ◌&&◌, List, [], ◌∷◌, Option, none, some, ltb, leb, if◌then◌else◌,
}

pub data CircuitBreakerState : Type 0 where
  closed opened half_open : CircuitBreakerState

pub record CircuitBreakerConfig : Type 0 where
  pub failure_threshold : ℕ
  pub success_threshold : ℕ
  pub timeout : ℕ
  pub window_size : ℕ
  pub minimum_requests : ℕ

pub record CircuitBreaker : Type 0 where
  pub config : CircuitBreakerConfig
  pub open config use *
  pub state : CircuitBreakerState
  pub failure_count : ℕ
  pub success_count : ℕ
  pub request_count : ℕ
  pub last_failure_time : Option ℕ
  pub window_start : ℕ

pub record CircuitBreakerStats : Type 0 where
  pub state : CircuitBreakerState
  pub failure_count : ℕ
  pub success_count : ℕ
  pub request_count : ℕ
  pub last_failure_time : Option ℕ

-- `__init__`
unfoldable pub new : CircuitBreakerConfig → ℕ → CircuitBreaker
new c now = record {
  config = c;
  state = closed;
  failure_count = 0;
  success_count = 0;
  request_count = 0;
  last_failure_time = none;
  window_start = now;
}

transition_to_open : CircuitBreaker → CircuitBreaker
transition_to_open b = elim b.state [ opened ↦ b | _ ↦ record b { state = opened } ]

transition_to_half_open : CircuitBreaker → CircuitBreaker
transition_to_half_open b = record b { state = half_open; success_count = 0 }

transition_to_closed : CircuitBreaker → CircuitBreaker
transition_to_closed b = record b { state = closed; failure_count = 0; success_count = 0 }

-- More than `limit` has passed; a clock that was set back gives a negative difference, which no
-- limit is below.
abbrev pub elapsed : ℕ → ℕ → ℕ → Bool
elapsed limit since now = ltb limit (now - since)

unfoldable pub can_execute : CircuitBreaker → ℕ → Bool × CircuitBreaker
unfolding transition_to_half_open
can_execute b now = elim b.state [
  | closed ↦ (true, b)
  | opened ↦ elim b.last_failure_time [
    | none ↦ (false, b)
    | some t ↦ if elapsed b.timeout t now then (true, transition_to_half_open b) else (false, b)
  ]
  | half_open ↦ (true, b)
]

-- `now` is read for the comparison, `start` for the new window.
increment_request_count : CircuitBreaker → ℕ → ℕ → CircuitBreaker
increment_request_count b now start =
    if elapsed b.window_size b.window_start now
    then record b { request_count = 1; window_start = start; failure_count = 0; success_count = 0 }
    else record b { request_count = b.request_count + 1 }

evaluate_state : CircuitBreaker → CircuitBreaker
unfolding transition_to_open
evaluate_state b =
    if leb b.minimum_requests b.request_count && leb b.failure_threshold b.failure_count
    then transition_to_open b
    else b

close_if_recovered : CircuitBreaker → CircuitBreaker
unfolding transition_to_closed
close_if_recovered b = elim b.state [
  | half_open ↦ if leb b.success_threshold b.success_count then transition_to_closed b else b
  | _ ↦ b
]

unfoldable pub record_success : CircuitBreaker → ℕ → ℕ → CircuitBreaker
unfolding increment_request_count close_if_recovered
record_success b now start =
    close_if_recovered
      (increment_request_count (record b { success_count = b.success_count + 1 }) now start)

unfoldable pub record_failure : CircuitBreaker → ℕ → ℕ → ℕ → CircuitBreaker
unfolding increment_request_count evaluate_state
record_failure b failed now start = evaluate_state (
    increment_request_count
      (record b { failure_count = b.failure_count + 1; last_failure_time = some failed }) now start)

unfoldable pub get_state : CircuitBreaker → CircuitBreakerState
get_state b = b.state

unfoldable pub get_stats : CircuitBreaker → CircuitBreakerStats
get_stats b = record {
  state = b.state;
  failure_count = b.failure_count;
  success_count = b.success_count;
  request_count = b.request_count;
  last_failure_time = b.last_failure_time;
}

-- The calls that a client makes, with the clock readings that each takes.
pub data Call : Type 0 where
  executes : ℕ → Call
  succeeds : ℕ → ℕ → Call
  fails : ℕ → ℕ → ℕ → Call

unfoldable pub step : CircuitBreaker → Call → CircuitBreaker
unfolding can_execute record_success record_failure
step b (executes now) = (can_execute b now).1
step b (succeeds now start) = record_success b now start
step b (fails failed now start) = record_failure b failed now start

unfoldable pub run : CircuitBreaker → List Call → CircuitBreaker
run b [] = b
run b (call ∷ calls) = run (step b call) calls
