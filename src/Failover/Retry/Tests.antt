-- ===== src/Failover/Retry/Tests.antt =====
-- Runs of `RetryMechanism.execute` on concrete inputs, with whole numbers for floats.
use pywatt_sdk.Prelude.{ℕ, zero, suc, ◌≡◌, refl, false, [], ◌∷◌, some}
use pywatt_sdk.Prelude.Float.{whole}
use pywatt_sdk.Failover.Retry.{RetryConfig, Attempt, returned, raised, Outcome, execute}
use pywatt_sdk.Failover.Retry.Attempts.{Describes, execute-Describes}

abbrev config : RetryConfig whole
config = record {
  max_attempts = 4;
  base_delay = 3;
  max_delay = 5;
  backoff_multiplier = 2;
  jitter_factor = 0;
  retry_on_all_errors = false;
}

abbrev no_draw : ℕ → whole.Carrier
no_draw i = 0

-- Fails until the state has counted down to zero.
abbrev countdown : ℕ → Attempt ℕ ℕ × ℕ
countdown zero = (returned 100, 0)
countdown (suc n) = (raised n, n)

third_try :
    execute whole config no_draw countdown 2
    ≡ some (record { result = returned 100; state = 0; delays = 3 ∷ 5 ∷ []; slept = 3 ∷ 5 ∷ [] })
unfolding execute
third_try = refl

execute-Describes_example :
    (o : Outcome whole ℕ ℕ ℕ) × (execute whole config no_draw countdown 2 ≡ some o)
    × Describes whole config no_draw countdown 3 3 2 o
execute-Describes_example = execute-Describes whole config no_draw countdown 2
