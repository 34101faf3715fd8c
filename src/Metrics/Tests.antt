-- ===== src/Metrics/Tests.antt =====
-- A `ChannelPerformanceTracker` at concrete inputs.
use pywatt_sdk.Prelude.{ℕ, ◌+◌, ◌≡◌, ◌⊎◌, refl, false, List, [], ◌∷◌, some, length}
use pywatt_sdk.Prelude.Dict.{get, put}
use pywatt_sdk.Prelude.Float.{whole}
use pywatt_sdk.Metrics.{SlaConfig, AlertConfig, Clock, new}
use pywatt_sdk.Metrics.Status.{Event, sends, connection, depth, SlaStatus, get_sla_status, run}
use pywatt_sdk.Metrics.Alerts.{Spaced, run-new-Spaced}
use pywatt_sdk.Metrics.Throughput.{run-new-IsIdle}

abbrev agreement : SlaConfig whole
agreement = record {
  target_availability = 1;
  max_latency = 10;
  target_throughput = 1;
  max_error_rate = 1;
  measurement_window = 3600;
}

abbrev thresholds : AlertConfig whole
thresholds = record { latency_threshold = 5; error_rate_threshold = 0; min_alert_interval = 100 }

abbrev clock : ℕ → Clock
clock n = record { sampled = n; alerted = n + 1; updated = n + 2; alerted_again = n + 3 }

abbrev history : List (Event whole)
history =
    sends 20 9 (clock 10)
    ∷ sends 20 9 (clock 50)
    ∷ connection false (clock 60)
    ∷ sends 20 9 (clock 120)
    ∷ depth 2000 (clock 130)
    ∷ sends 20 1 (clock 140)
    ∷ []

-- The second alert of a high latency is suppressed.
history-alerts : length (run whole (λ x. x) (new whole agreement thresholds) history).alerts ≡ 4
unfolding run get put
history-alerts = refl

run-new-Spaced_example :
    Spaced 100 (run whole (λ x. x) (new whole agreement thresholds) history).alerts
run-new-Spaced_example = run-new-Spaced thresholds (λ x. x) agreement history

run-new-IsIdle_example :
    let t = run whole (λ x. x) (new whole agreement thresholds) history in
    ((t.metrics.throughput_mps ≡ 0) ⊎ (t.metrics.throughput_mps ≡ 0))
    × ((s : SlaStatus whole) × (get_sla_status whole t 200 ≡ some s)
        × (s.throughput_status.compliant ≡ false)
        × (s.compliant ≡ false))
run-new-IsIdle_example =
    run-new-IsIdle agreement (λ x. x) thresholds history 200 refl refl refl refl refl refl
