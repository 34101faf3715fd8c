-- ===== src/Metrics.antt =====
-- `ChannelPerformanceTracker` of communication/metrics.py. Times are in microseconds, and each reading
-- of the clock is an argument. The alerts are kept in a record, newest first; in the source they are
-- only logged. Averages, the other percentiles, uptime and the pool's statistics are left out, and
-- `int` of a float is a parameter.
pub mod Status
pub mod Alerts
pub mod Throughput
mod Tests
use pywatt_sdk.Prelude.{
  ℕ, zero, suc, ◌+◌, ◌-◌, ◌*◌, String, Bool, true, false, ◌&&◌, List, [], ◌∷◌, ◌++◌, Option, none,
  some, length, drop, map, min, ltb, leb, string_eq, ◌==◌, if◌then◌else◌,
}
use pywatt_sdk.Prelude.Dict.{Dict, get, put}
use pywatt_sdk.Prelude.Float.{Float}

pub record ChannelMetrics (F : Float) : Type 0 where
  pub messages_sent : ℕ
  pub messages_received : ℕ
  pub bytes_sent : ℕ
  pub bytes_received : ℕ
  pub failures : ℕ
  pub successes : ℕ
  pub error_rate : F.Carrier
  pub p95_latency_ms : F.Carrier
  pub throughput_mps : F.Carrier
  pub bandwidth_bps : F.Carrier
  pub availability : F.Carrier
  pub queue_depth : ℕ

pub record SlaConfig (F : Float) : Type 0 where
  pub target_availability : F.Carrier
  pub max_latency : F.Carrier
  pub target_throughput : F.Carrier
  pub max_error_rate : F.Carrier
  pub measurement_window : F.Carrier

pub record AlertConfig (F : Float) : Type 0 where
  pub latency_threshold : F.Carrier
  pub error_rate_threshold : F.Carrier
  pub min_alert_interval : ℕ

pub data AlertType : Type 0 where
  high_latency high_error_rate low_throughput low_availability connection_failure queue_backlog :
      AlertType

-- The values of the enumeration, which are all different.
abbrev pub alert_value : AlertType → String
alert_value high_latency = "high_latency"
alert_value high_error_rate = "high_error_rate"
alert_value low_throughput = "low_throughput"
alert_value low_availability = "low_availability"
alert_value connection_failure = "connection_failure"
alert_value queue_backlog = "queue_backlog"

pub record ThroughputSample : Type 0 where
  pub count : ℕ
  pub bytes : ℕ
  pub timestamp : ℕ

-- The types of alerts are keys by their values.
pub record ChannelPerformanceTracker (F : Float) : Type 0 where
  pub sla_config : SlaConfig F
  pub alert_config : AlertConfig F
  pub metrics : ChannelMetrics F
  pub latency_samples : List (F.Carrier × ℕ)
  pub throughput_samples : List ThroughputSample
  pub last_alert_times : Dict String ℕ
  pub alerts : List (String × ℕ)

-- The readings in one call: for the sample, for an alert, for the throughput and for a second alert.
pub record Clock : Type 0 where
  pub sampled : ℕ
  pub alerted : ℕ
  pub updated : ℕ
  pub alerted_again : ℕ

abbrev pub max_samples : ℕ
max_samples = 1000

-- Five minutes.
abbrev pub sample_window : ℕ
sample_window = 300 * 1000000

abbrev pub one_minute : ℕ
one_minute = 60 * 1000000

-- `deque(maxlen=1000).append`
unfoldable pub append_sample {ℓ} : {A : Type ℓ} → List A → A → List A
append_sample xs x = drop (length xs + 1 - max_samples) (xs ++ (x ∷ []))

-- The oldest samples before the window are dropped.
unfoldable pub drop_old {ℓ} : {A : Type ℓ} → ℕ → List (A × ℕ) → List (A × ℕ)
drop_old now [] = []
drop_old now ((x, t) ∷ xs) =
    let rest = drop_old now xs in if ltb (t + sample_window) now then rest else (x, t) ∷ xs

-- How many samples, and how many bytes, are of the last minute.
unfoldable pub recent_messages : ℕ → List ThroughputSample → ℕ
recent_messages now [] = 0
recent_messages now (s ∷ ss) =
    (if leb now (s.timestamp + one_minute) then 1 else 0) + recent_messages now ss

unfoldable pub recent_bytes : ℕ → List ThroughputSample → ℕ
recent_bytes now [] = 0
recent_bytes now (s ∷ ss) =
    (if leb now (s.timestamp + one_minute) then s.bytes else 0) + recent_bytes now ss

abbrev pub fresh_metrics : (F : Float) → ChannelMetrics F
fresh_metrics F = record {
  messages_sent = 0;
  messages_received = 0;
  bytes_sent = 0;
  bytes_received = 0;
  failures = 0;
  successes = 0;
  error_rate = F.ratio 0 1;
  p95_latency_ms = F.ratio 0 1;
  throughput_mps = F.ratio 0 1;
  bandwidth_bps = F.ratio 0 1;
  availability = F.ratio 1 1;
  queue_depth = 0;
}

module _ (F : Float) where
  abbrev pub new : SlaConfig F → AlertConfig F → ChannelPerformanceTracker F
  new sla config = record {
    sla_config = sla;
    alert_config = config;
    metrics = fresh_metrics F;
    latency_samples = [];
    throughput_samples = [];
    last_alert_times = [];
    alerts = [];
  }

  -- `list.sort`
  unfoldable pub insert_sorted : F.Carrier → List F.Carrier → List F.Carrier
  insert_sorted x [] = x ∷ []
  insert_sorted x (y ∷ ys) = if F.lt x y then x ∷ y ∷ ys else y ∷ insert_sorted x ys

  unfoldable pub sort : List F.Carrier → List F.Carrier
  unfolding insert_sorted
  sort [] = []
  sort (x ∷ xs) = insert_sorted x (sort xs)

  unfoldable pub item : List F.Carrier → ℕ → F.Carrier → F.Carrier
  item [] i default = default
  item (x ∷ xs) zero default = x
  item (x ∷ xs) (suc i) default = item xs i default

  unfoldable pub trigger_alert :
      ChannelPerformanceTracker F → AlertType → ℕ → ChannelPerformanceTracker F
  trigger_alert t kind now =
      let fired = record t {
        last_alert_times = put t.last_alert_times (alert_value kind) now;
        alerts = (alert_value kind, now) ∷ t.alerts;
      } in
      elim (get t.last_alert_times (alert_value kind)) [
        | none ↦ fired
        | some last ↦ if ltb now (last + t.alert_config.min_alert_interval) then t else fired
      ]

  unfoldable pub record_latency :
      ChannelPerformanceTracker F → F.Carrier → ℕ → ℕ → ChannelPerformanceTracker F
  unfolding append_sample drop_old trigger_alert
  record_latency t latency now alerted =
      let t' = record t {
        latency_samples = drop_old now (append_sample t.latency_samples (latency, now));
      } in
      if F.lt t.alert_config.latency_threshold latency
      then trigger_alert t' high_latency alerted
      else t'

  module _ (int : F.Carrier → ℕ) where
    -- The 95th percentile, in milliseconds; what it was where there is no sample.
    unfoldable pub p95 : F.Carrier → List F.Carrier → F.Carrier
    unfolding sort item
    p95 before [] = before
    p95 before (x ∷ xs) =
        let sorted = sort (x ∷ xs) in
        let index = int (F.mul (F.ratio (length sorted) 1) (F.ratio 95 100)) in
        F.mul (item sorted (min index (length sorted - 1)) x) (F.ratio 1000 1)

    unfoldable pub update_calculated_metrics :
        ChannelPerformanceTracker F → ℕ → ChannelPerformanceTracker F
    unfolding p95 recent_messages recent_bytes
    update_calculated_metrics t now =
        let total_ops = t.metrics.successes + t.metrics.failures in
        record t {
          metrics = record t.metrics {
            error_rate =
                if ltb 0 total_ops
                then F.ratio t.metrics.failures total_ops
                else t.metrics.error_rate;
            p95_latency_ms = p95 t.metrics.p95_latency_ms (map (λ s. s.0) t.latency_samples);
            throughput_mps = F.ratio (recent_messages now t.throughput_samples) 60;
            bandwidth_bps = F.ratio (recent_bytes now t.throughput_samples) 60;
          };
        }

    unfoldable pub record_message_sent :
        ChannelPerformanceTracker F → ℕ → F.Carrier → Clock → ChannelPerformanceTracker F
    unfolding record_latency update_calculated_metrics
    record_message_sent t count latency c =
        let t' = record t {
          metrics = record t.metrics {
            messages_sent = t.metrics.messages_sent + 1;
            bytes_sent = t.metrics.bytes_sent + count;
            successes = t.metrics.successes + 1;
          };
        } in
        update_calculated_metrics (record_latency t' latency c.sampled c.alerted) c.updated

    unfoldable pub record_message_received :
        ChannelPerformanceTracker F → ℕ → Clock → ChannelPerformanceTracker F
    unfolding update_calculated_metrics
    record_message_received t count c =
        update_calculated_metrics
          (record t {
            metrics = record t.metrics {
              messages_received = t.metrics.messages_received + 1;
              bytes_received = t.metrics.bytes_received + count;
            };
          })
          c.updated

    unfoldable pub check_error_rate_alert :
        ChannelPerformanceTracker F → ℕ → ChannelPerformanceTracker F
    unfolding trigger_alert
    check_error_rate_alert t now =
        if F.lt t.alert_config.error_rate_threshold t.metrics.error_rate
        then trigger_alert t high_error_rate now
        else t

    unfoldable pub record_failure :
        ChannelPerformanceTracker F → Clock → ChannelPerformanceTracker F
    unfolding update_calculated_metrics check_error_rate_alert
    record_failure t c =
        let t' = record t { metrics = record t.metrics { failures = t.metrics.failures + 1 } } in
        check_error_rate_alert (update_calculated_metrics t' c.updated) c.alerted_again
