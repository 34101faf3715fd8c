-- ===== src/Metrics/Throughput.antt =====
-- The throughput that a `ChannelPerformanceTracker` reports.
use pywatt_sdk.Prelude.{
  ℕ, ◌+◌, ◌≡◌, ◌⊎◌, refl, ap, Bool, true, false, List, [], ◌∷◌, some, arith, Option-cases, inl, inr,
  if◌then◌else◌, string_eq,
}
use pywatt_sdk.Prelude.Dict.{get}
use pywatt_sdk.Prelude.Float.{Float}
use pywatt_sdk.Metrics.{
  ChannelPerformanceTracker, SlaConfig, AlertConfig, AlertType, alert_value, high_latency,
  high_error_rate, connection_failure, queue_backlog, new, append_sample, drop_old, recent_messages,
  trigger_alert, record_latency, update_calculated_metrics, check_error_rate_alert,
  record_message_sent, record_message_received, record_failure,
}
use pywatt_sdk.Metrics.Status.{
  Event, sends, receives, fails, connection, depth, resets, SlaStatus, get_sla_status, compliance,
  step, run,
}

module _ {F : Float} (sla : SlaConfig F) where
  -- No sample was ever taken, and the throughput is zero.
  record IsIdle (t : ChannelPerformanceTracker F) : Type 0 where
    samples : t.throughput_samples ≡ []
    zero_rate : (t.metrics.throughput_mps ≡ F.ratio 0 60) ⊎ (t.metrics.throughput_mps ≡ F.ratio 0 1)
    same : t.sla_config ≡ sla

  either-IsIdle :
      (b : Bool) (x y : ChannelPerformanceTracker F)
      → IsIdle x
      → IsIdle y
      → IsIdle (if b then x else y)
  either-IsIdle true x y h k = h
  either-IsIdle false x y h k = k

  trigger_alert-IsIdle :
      (t : ChannelPerformanceTracker F) (kind : AlertType) (now : ℕ)
      → IsIdle t
      → IsIdle (trigger_alert F t kind now)
  unfolding trigger_alert
  trigger_alert-IsIdle t kind now v =
      elim (Option-cases (get t.last_alert_times (alert_value kind))) [
        | inl e ↦
            rw (e, trigger_alert)
              (record { samples = v.samples; zero_rate = v.zero_rate; same = v.same })
        | inr (u, e) ↦
            rw (e, trigger_alert)
              (either-IsIdle _ _ _ v
                (record { samples = v.samples; zero_rate = v.zero_rate; same = v.same }))
      ]

  -- The status of a tracker with too low a throughput, where no target equals zero.
  abbrev status : ChannelPerformanceTracker F → ℕ → SlaStatus F
  status t now =
      let m = t.metrics in
      let max_latency_ms = F.mul sla.max_latency (F.ratio 1000 1) in
      let percent =
        λ (x : F.Carrier) (y : F.Carrier). F.mul (F.div (F.sub x y) y) (F.ratio 100 1) in
      record {
        compliant = false;
        availability_status = record {
          current = m.availability;
          target = sla.target_availability;
          compliant = F.le sla.target_availability m.availability;
          difference_percent = percent m.availability sla.target_availability;
        };
        latency_status = record {
          current = m.p95_latency_ms;
          target = max_latency_ms;
          compliant = F.le m.p95_latency_ms max_latency_ms;
          difference_percent = percent m.p95_latency_ms max_latency_ms;
        };
        throughput_status = record {
          current = m.throughput_mps;
          target = sla.target_throughput;
          compliant = false;
          difference_percent = percent m.throughput_mps sla.target_throughput;
        };
        error_rate_status = record {
          current = m.error_rate;
          target = sla.max_error_rate;
          compliant = F.le m.error_rate sla.max_error_rate;
          difference_percent = percent m.error_rate sla.max_error_rate;
        };
        measurement_window = sla.measurement_window;
        calculated_at = now;
      }

  missed :
      (t : ChannelPerformanceTracker F) (now : ℕ)
      → IsIdle t
      → F.le sla.target_throughput t.metrics.throughput_mps ≡ false
      → F.eq sla.target_availability (F.ratio 0 1) ≡ false
      → F.eq (F.mul sla.max_latency (F.ratio 1000 1)) (F.ratio 0 1) ≡ false
      → F.eq sla.target_throughput (F.ratio 0 1) ≡ false
      → F.eq sla.max_error_rate (F.ratio 0 1) ≡ false
      → get_sla_status F t now ≡ some (status t now)
  unfolding get_sla_status compliance
  missed t now v low a l g e = ground (arith, v.same, low, a, l, g, e)

  too_low :
      (t : ChannelPerformanceTracker F)
      → IsIdle t
      → F.le sla.target_throughput (F.ratio 0 60) ≡ false
      → F.le sla.target_throughput (F.ratio 0 1) ≡ false
      → F.le sla.target_throughput t.metrics.throughput_mps ≡ false
  too_low t v p q = ground (arith, v.zero_rate, p, q)

  module _ (int : F.Carrier → ℕ) where
    update-IsIdle :
        (t : ChannelPerformanceTracker F) (now : ℕ)
        → IsIdle t
        → IsIdle (update_calculated_metrics F int t now)
    unfolding update_calculated_metrics
    update-IsIdle t now v = record {
      samples = v.samples;
      zero_rate = inl (ap (λ s. F.ratio (recent_messages now s) 60) v.samples);
      same = v.same;
    }

    step-IsIdle :
        (t : ChannelPerformanceTracker F) (e : Event F) → IsIdle t → IsIdle (step F int t e)
    unfolding step record_message_sent record_latency record_message_received record_failure
        check_error_rate_alert
    step-IsIdle t (sends n latency c) v =
        let t' = record t {
          metrics = record t.metrics {
            messages_sent = t.metrics.messages_sent + 1;
            bytes_sent = t.metrics.bytes_sent + n;
            successes = t.metrics.successes + 1;
          };
          latency_samples =
              drop_old c.sampled (append_sample t.latency_samples (latency, c.sampled));
        } in
        let w : IsIdle t' = record {
          samples = v.samples;
          zero_rate = v.zero_rate;
          same = v.same;
        } in
        update-IsIdle _ c.updated (
          either-IsIdle (F.lt t.alert_config.latency_threshold latency) _ _
            (trigger_alert-IsIdle t' high_latency c.alerted w) w)
    step-IsIdle t (receives n c) v =
        update-IsIdle
          (record t {
            metrics = record t.metrics {
              messages_received = t.metrics.messages_received + 1;
              bytes_received = t.metrics.bytes_received + n;
            };
          })
          c.updated (record { samples = v.samples; zero_rate = v.zero_rate; same = v.same })
    step-IsIdle t (fails c) v =
        let w =
          update-IsIdle
            (record t { metrics = record t.metrics { failures = t.metrics.failures + 1 } })
            c.updated (record { samples = v.samples; zero_rate = v.zero_rate; same = v.same }) in
        either-IsIdle _ _ _ (trigger_alert-IsIdle _ high_error_rate c.alerted_again w) w
    step-IsIdle t (connection true c) v = record {
      samples = v.samples;
      zero_rate = v.zero_rate;
      same = v.same;
    }
    step-IsIdle t (connection false c) v =
        trigger_alert-IsIdle
          (record t {
            metrics = record t.metrics {
              availability = F.ratio 0 1;
              failures = t.metrics.failures + 1;
            };
          })
          connection_failure c.alerted
          (record { samples = v.samples; zero_rate = v.zero_rate; same = v.same })
    step-IsIdle t (depth n c) v =
        let t' = record t { metrics = record t.metrics { queue_depth = n } } in
        let w : IsIdle t' = record {
          samples = v.samples;
          zero_rate = v.zero_rate;
          same = v.same;
        } in
        either-IsIdle _ _ _ (trigger_alert-IsIdle t' queue_backlog c.alerted w) w
    step-IsIdle t resets v = record { samples = refl; zero_rate = inr refl; same = v.same }

    run-IsIdle :
        (t : ChannelPerformanceTracker F) (es : List (Event F)) → IsIdle t → IsIdle (run F int t es)
    unfolding run
    run-IsIdle t [] v = v
    run-IsIdle t (e ∷ es) v = run-IsIdle (step F int t e) es (step-IsIdle t e v)

    -- From a new tracker on, the throughput that is reported is zero (as the quotient 0 / 60 or the
    -- literal 0), whatever is sent and received. So where no target equals zero and that of the
    -- throughput is above zero, the agreement has a status in which neither the throughput nor the
    -- whole is compliant.
    pub run-new-IsIdle :
        (config : AlertConfig F) (es : List (Event F)) (now : ℕ)
        → F.le sla.target_throughput (F.ratio 0 60) ≡ false
        → F.le sla.target_throughput (F.ratio 0 1) ≡ false
        → F.eq sla.target_availability (F.ratio 0 1) ≡ false
        → F.eq (F.mul sla.max_latency (F.ratio 1000 1)) (F.ratio 0 1) ≡ false
        → F.eq sla.target_throughput (F.ratio 0 1) ≡ false
        → F.eq sla.max_error_rate (F.ratio 0 1) ≡ false
        → let t = run F int (new F sla config) es in
          ((t.metrics.throughput_mps ≡ F.ratio 0 60) ⊎ (t.metrics.throughput_mps ≡ F.ratio 0 1))
          × ((s : SlaStatus F) × (get_sla_status F t now ≡ some s)
              × (s.throughput_status.compliant ≡ false)
              × (s.compliant ≡ false))
    run-new-IsIdle config es now p q a l g e =
        let v =
          run-IsIdle (new F sla config) es
            (record { samples = refl; zero_rate = inr refl; same = refl }) in
        let t = run F int (new F sla config) es in
        (v.zero_rate, (status t now, missed t now v (too_low t v p q) a l g e, refl, refl))
