-- ===== src/Metrics/Status.antt =====
-- The state of the connection, the queue and the agreement of a `ChannelPerformanceTracker`
-- (communication/metrics.py), and any sequence of its operations.
use pywatt_sdk.Prelude.{
  ℕ, ◌+◌, Bool, true, false, ◌&&◌, List, [], ◌∷◌, Option, none, some, ltb, if◌then◌else◌,
}
use pywatt_sdk.Prelude.Float.{Float}
use pywatt_sdk.Metrics.{
  ChannelPerformanceTracker, Clock, fresh_metrics, connection_failure, queue_backlog, trigger_alert,
  record_message_sent, record_message_received, record_failure,
}

infixl 5 ◌>>=◌
abbrev pub ◌>>=◌ {ℓ κ} : {A : Type ℓ} {B : Type κ} → Option A → (A → Option B) → Option B
none >>= f = none
some a >>= f = f a

pub record ComplianceStatus (F : Float) : Type 0 where
  pub current : F.Carrier
  pub target : F.Carrier
  pub compliant : Bool
  pub difference_percent : F.Carrier

pub record SlaStatus (F : Float) : Type 0 where
  pub compliant : Bool
  pub availability_status : ComplianceStatus F
  pub latency_status : ComplianceStatus F
  pub throughput_status : ComplianceStatus F
  pub error_rate_status : ComplianceStatus F
  pub measurement_window : F.Carrier
  pub calculated_at : ℕ

pub data Event (F : Float) : Type 0 where
  sends : ℕ → F.Carrier → Clock → Event F
  receives : ℕ → Clock → Event F
  fails : Clock → Event F
  connection : Bool → Clock → Event F
  depth : ℕ → Clock → Event F
  resets : Event F

module _ (F : Float) where
  unfoldable pub record_connection_state :
      ChannelPerformanceTracker F → Bool → ℕ → ChannelPerformanceTracker F
  unfolding trigger_alert
  record_connection_state t true now = record t {
    metrics = record t.metrics { availability = F.ratio 1 1 };
  }
  record_connection_state t false now =
      trigger_alert F
        (record t {
          metrics = record t.metrics {
            availability = F.ratio 0 1;
            failures = t.metrics.failures + 1;
          };
        })
        connection_failure now

  unfoldable pub update_queue_depth :
      ChannelPerformanceTracker F → ℕ → ℕ → ChannelPerformanceTracker F
  unfolding trigger_alert
  update_queue_depth t n now =
      let t' = record t { metrics = record t.metrics { queue_depth = n } } in
      if ltb 1000 n then trigger_alert F t' queue_backlog now else t'

  -- The times of the last alerts are kept.
  unfoldable pub reset_metrics : ChannelPerformanceTracker F → ChannelPerformanceTracker F
  reset_metrics t = record t {
    metrics = fresh_metrics F;
    latency_samples = [];
    throughput_samples = [];
  }

  -- One status; `none` is the ZeroDivisionError of a target that equals zero.
  unfoldable pub compliance : F.Carrier → F.Carrier → Bool → Option (ComplianceStatus F)
  compliance current target compliant =
      if F.eq target (F.ratio 0 1)
      then none
      else some (record {
        current = current;
        target = target;
        compliant = compliant;
        difference_percent = F.mul (F.div (F.sub current target) target) (F.ratio 100 1);
      })

  unfoldable pub get_sla_status : ChannelPerformanceTracker F → ℕ → Option (SlaStatus F)
  unfolding compliance
  get_sla_status t now =
      let m = t.metrics in
      let g = t.sla_config in
      let max_latency_ms = F.mul g.max_latency (F.ratio 1000 1) in
      do
        availability ←
            compliance m.availability g.target_availability
              (F.le g.target_availability m.availability)
        latency ← compliance m.p95_latency_ms max_latency_ms (F.le m.p95_latency_ms max_latency_ms)
        throughput ←
            compliance m.throughput_mps g.target_throughput
              (F.le g.target_throughput m.throughput_mps)
        errors ← compliance m.error_rate g.max_error_rate (F.le m.error_rate g.max_error_rate)
        some (record {
          compliant =
              availability.compliant && latency.compliant && throughput.compliant
              && errors.compliant;
          availability_status = availability;
          latency_status = latency;
          throughput_status = throughput;
          error_rate_status = errors;
          measurement_window = g.measurement_window;
          calculated_at = now;
        })

  module _ (int : F.Carrier → ℕ) where
    unfoldable pub step : ChannelPerformanceTracker F → Event F → ChannelPerformanceTracker F
    unfolding record_message_sent record_message_received record_failure record_connection_state
        update_queue_depth reset_metrics
    step t (sends n latency c) = record_message_sent F int t n latency c
    step t (receives n c) = record_message_received F int t n c
    step t (fails c) = record_failure F int t c
    step t (connection b c) = record_connection_state t b c.alerted
    step t (depth n c) = update_queue_depth t n c.alerted
    step t resets = reset_metrics t

    unfoldable pub run : ChannelPerformanceTracker F → List (Event F) → ChannelPerformanceTracker F
    unfolding step
    run t [] = t
    run t (e ∷ es) = run (step t e) es
