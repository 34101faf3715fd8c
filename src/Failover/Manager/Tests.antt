-- ===== src/Failover/Manager/Tests.antt =====
-- Runs of `FailoverManager` on concrete inputs. The world is a clock that counts its readings, the
-- operations never sleep, and whole numbers stand for floats.
use pywatt_sdk.Prelude.{ℕ, ◌+◌, ◌≡◌, refl, true, false, [], ◌∷◌, none, some}
use pywatt_sdk.Prelude.Float.{whole}
use pywatt_sdk.Prelude.Dict.{get}
use pywatt_sdk.Channel.{tcp, channel_eq}
use pywatt_sdk.Failover.Breaker.{CircuitBreaker, CircuitBreakerConfig, closed, opened, can_execute}
use pywatt_sdk.Failover.Retry.{Attempt, raised}
use pywatt_sdk.Failover.Manager.{FailoverConfig, FailoverManager, Executed, execute_with_failover}
use pywatt_sdk.Failover.Manager.Refusal.{IsRefused, execute_with_failover-IsRefused}
use pywatt_sdk.Failover.Manager.Execution.{IsAdmitted, execute_with_failover-IsAdmitted}

abbrev now : ℕ → ℕ × ℕ
now t = (t, t + 1)

abbrev no_draw : ℕ → whole.Carrier
no_draw i = 0

-- One failure opens the circuit; three attempts are allowed.
abbrev breaker_config : CircuitBreakerConfig
breaker_config = record {
  failure_threshold = 1;
  success_threshold = 1;
  timeout = 60;
  window_size = 60;
  minimum_requests = 1;
}

abbrev config : FailoverConfig whole
config = record {
  circuit_breaker = breaker_config;
  retry = record {
    max_attempts = 3;
    base_delay = 1;
    max_delay = 9;
    backoff_multiplier = 2;
    jitter_factor = 0;
    retry_on_all_errors = false;
  };
  batch = none;
  performance = record {
    enable_compression = false;
    compression_threshold = 0;
    enable_zero_copy = false;
    io_buffer_size = 0;
    tcp_nodelay = true;
    tcp_send_buffer = none;
    tcp_recv_buffer = none;
  };
  enable_graceful_degradation = true;
  health_check_interval = 10;
}

abbrev fresh : CircuitBreaker
fresh = record {
  config = breaker_config;
  state = closed;
  failure_count = 0;
  success_count = 0;
  request_count = 0;
  last_failure_time = none;
  window_start = 0;
}

abbrev tripped : CircuitBreaker
tripped = record fresh { state = opened; last_failure_time = some 4 }

abbrev manager : CircuitBreaker → FailoverManager whole
manager b = record { config = config; circuit_breakers = (tcp, b) ∷ []; message_batcher = none }

abbrev failing : ℕ → Attempt ℕ ℕ × ℕ
failing t = (raised 0, t)

execute_with_failover-IsRefused_example :
    (x : Executed whole ℕ ℕ ℕ) × (execute_with_failover whole now no_draw failing
        (manager tripped)
        tcp
        5
      ≡ some x)
    × IsRefused whole now no_draw failing (manager tripped) 5 x
unfolding can_execute get
execute_with_failover-IsRefused_example =
    execute_with_failover-IsRefused whole now no_draw failing (manager tripped) tcp tripped 5 refl
      refl

execute_with_failover-IsAdmitted_example :
    (x : Executed whole ℕ ℕ ℕ) × (execute_with_failover whole now no_draw failing
        (manager fresh)
        tcp
        5
      ≡ some x)
    × IsAdmitted whole now failing 2 (manager fresh) tcp (can_execute fresh 5).1 6 x
unfolding can_execute get
execute_with_failover-IsAdmitted_example =
    execute_with_failover-IsAdmitted whole now failing no_draw (manager fresh) tcp fresh 5 refl refl
