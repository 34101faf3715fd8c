-- ===== src/Failover/Breaker/Tests.antt =====
-- Runs of `CircuitBreaker` on concrete inputs.
use pywatt_sdk.Prelude.{◌≡◌, refl, true, List, [], ◌∷◌, some, arith}
use pywatt_sdk.Failover.Breaker.{
  CircuitBreaker, CircuitBreakerConfig, opened, half_open, Call, executes, fails, new, can_execute,
  step, run,
}
use pywatt_sdk.Failover.Breaker.Transitions.{Move, step-Move}
use pywatt_sdk.Failover.Breaker.Probing.{probe_failure_lost}

-- Thresholds of 2 and 3, a time-out of 60, a window of 60.
abbrev config : CircuitBreakerConfig
config = record {
  failure_threshold = 2;
  success_threshold = 3;
  timeout = 60;
  window_size = 60;
  minimum_requests = 2;
}

abbrev two_failures : List Call
two_failures = fails 10 11 12 ∷ fails 20 21 22 ∷ []

abbrev tripped : CircuitBreaker
tripped = record {
  config = config;
  state = opened;
  failure_count = 2;
  success_count = 0;
  request_count = 2;
  last_failure_time = some 20;
  window_start = 0;
}

two_failures_trip : run (new config 0) two_failures ≡ tripped
unfolding run step new
two_failures_trip = refl

abbrev probing : CircuitBreaker
probing = record tripped { state = half_open; window_start = 75 }

step-Move_example : Move tripped (executes 90) (step tripped (executes 90))
step-Move_example = step-Move tripped (executes 90)

probe_failure_lost_example :
    let c = run tripped (executes 90 ∷ fails 91 92 93 ∷ []) in
    (c.state ≡ half_open) × (c.failure_count ≡ 0) × ((can_execute c 5000).0 ≡ true)
probe_failure_lost_example =
    probe_failure_lost tripped 20 90 91 92 93 5000 refl refl (omega arith) (omega arith)
      (omega arith) (omega arith) (omega arith)
