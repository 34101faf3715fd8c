-- ===== src/Metrics/Alerts.antt =====
-- How often a `ChannelPerformanceTracker` raises an alert of one type.
use pywatt_sdk.Prelude.{
  ℕ, ◌+◌, ◌≤◌, ◌≡◌, ◌≢◌, refl, sym, ◌∙◌, String, Bool, true, false, List, [], ◌∷◌, Option, none,
  some, arith, All, ltb, Bool-cases, Option-cases, inl, inr, string_eq, ◌==◌, if◌then◌else◌,
}
use mathlib.Core.Path.{subst}
use pywatt_sdk.Prelude.Dict.{Dict, get, put, get-put}
use pywatt_sdk.Prelude.Float.{Float}
use pywatt_sdk.Metrics.{
  ChannelPerformanceTracker, SlaConfig, AlertConfig, AlertType, alert_value, high_latency,
  high_error_rate, connection_failure, queue_backlog, new, append_sample, drop_old, trigger_alert,
  update_calculated_metrics,
}
use pywatt_sdk.Metrics.Status.{Event, sends, receives, fails, connection, depth, resets, step, run}

-- Alerts of one type, newest first, are at least an interval apart.
abbrev pub Spaced : ℕ → List (String × ℕ) → Type 0
Spaced interval [] = Unit
Spaced interval ((k, t) ∷ log) = All (λ a. a.0 ≡ k → a.1 + interval ≤ t) log × Spaced interval log

-- The time that is kept for a type is that of its last alert.
abbrev Kept : List (String × ℕ) → String → Option ℕ → Type 0
Kept log k none = All (λ a. a.0 ≢ k) log
Kept log k (some u) = All (λ a. a.0 ≡ k → a.1 ≤ u) log

record Inv (interval : ℕ) (log : List (String × ℕ)) (d : Dict String ℕ) : Type 0 where
  spaced : Spaced interval log
  kept : (k : String) → Kept log k (get d k)

All-map {ℓ κ} :
    {A : Type ℓ} {P Q : A → Type κ} (xs : List A) → ((x : A) → P x → Q x) → All P xs → All Q xs
All-map [] f w = tt
All-map (x ∷ xs) f w = (f x w.0, All-map xs f w.1)

other_type :
    (log : List (String × ℕ)) (k j : String) (now : ℕ) (o : Option ℕ)
    → k ≢ j
    → Kept log j o
    → Kept ((k, now) ∷ log) j o
other_type log k j now none n w = (n, w)
other_type log k j now (some u) n w = (λ e. absurd (n e), w)

fire-Inv :
    (interval : ℕ) (log : List (String × ℕ)) (d : Dict String ℕ) (k : String) (now : ℕ)
    → All (λ a. a.0 ≡ k → a.1 + interval ≤ now) log
    → Inv interval log d
    → Inv interval ((k, now) ∷ log) (put d k now)
fire-Inv interval log d k now w v = record {
  spaced = (w, v.spaced);
  kept = λ j. subst (Kept ((k, now) ∷ log) j) (sym (get-put d k j now)) (here j);
}
  where
    here : (j : String) → Kept ((k, now) ∷ log) j (if k == j then some now else get d j)
    here j = elim (Bool-cases (k == j)) [
      | inl e ↦ rw e (
        λ _. omega arith,
        All-map log (λ a h q. omega (arith, h (q ∙ sym ((string_eq.beq_iff k j).0 e)))) w,
      )
      | inr e ↦
          rw e (
            other_type log k j now (get d j) (λ q. ground (arith, string_eq.beq_iff k j))
              (v.kept j))
    ]

module _ {F : Float} (config : AlertConfig F) where
  abbrev Good : ChannelPerformanceTracker F → Type 0
  Good t = (t.alert_config ≡ config) × Inv config.min_alert_interval t.alerts t.last_alert_times

  abbrev fired : ChannelPerformanceTracker F → AlertType → ℕ → ChannelPerformanceTracker F
  fired t kind now = record t {
    last_alert_times = put t.last_alert_times (alert_value kind) now;
    alerts = (alert_value kind, now) ∷ t.alerts;
  }

  either-Good :
      (b : Bool) (x y : ChannelPerformanceTracker F) → Good x → Good y → Good (if b then x else y)
  either-Good true x y h k = h
  either-Good false x y h k = k

  module _ (t : ChannelPerformanceTracker F) (kind : AlertType) (now : ℕ) (v : Good t) where
    abbrev Old : Type 0
    Old = All (λ a. a.0 ≡ alert_value kind → a.1 + config.min_alert_interval ≤ now) t.alerts

    first_alert : get t.last_alert_times (alert_value kind) ≡ none → Old
    first_alert e =
        All-map t.alerts (λ a n q. absurd (n q))
          (subst (Kept t.alerts (alert_value kind)) e (v.1.kept (alert_value kind)))

    later_alert :
        (u : ℕ)
        → get t.last_alert_times (alert_value kind) ≡ some u
        → u + config.min_alert_interval ≤ now
        → Old
    later_alert u e h =
        All-map t.alerts (λ a n q. omega (arith, n q, h))
          (subst (Kept t.alerts (alert_value kind)) e (v.1.kept (alert_value kind)))

    fired-Good : Old → Good (fired t kind now)
    fired-Good w = (
      v.0,
      fire-Inv config.min_alert_interval t.alerts t.last_alert_times (alert_value kind) now w v.1,
    )

    trigger_alert-Good : Good (trigger_alert F t kind now)
    unfolding trigger_alert
    trigger_alert-Good = elim (Option-cases (get t.last_alert_times (alert_value kind))) [
      | inl e ↦ subst Good (sym (fires_first e)) (fired-Good (first_alert e))
      | inr (u, e) ↦ elim (Bool-cases (ltb now (u + config.min_alert_interval))) [
        | inl h ↦ subst Good (sym (suppressed u e h)) v
        | inr h ↦ subst Good (sym (fires_later u e h)) (fired-Good (later_alert u e (ground arith)))
      ]
    ]
      where
        fires_first :
            get t.last_alert_times (alert_value kind) ≡ none
            → trigger_alert F t kind now ≡ fired t kind now
        fires_first e = ground (arith, e)

        suppressed :
            (u : ℕ)
            → get t.last_alert_times (alert_value kind) ≡ some u
            → ltb now (u + config.min_alert_interval) ≡ true
            → trigger_alert F t kind now ≡ t
        suppressed u e h = ground (arith, e, h, v.0)

        fires_later :
            (u : ℕ)
            → get t.last_alert_times (alert_value kind) ≡ some u
            → ltb now (u + config.min_alert_interval) ≡ false
            → trigger_alert F t kind now ≡ fired t kind now
        fires_later u e h = ground (arith, e, h, v.0)

  module _ (int : F.Carrier → ℕ) where
    step-Good : (t : ChannelPerformanceTracker F) (e : Event F) → Good t → Good (step F int t e)
    unfolding step
    step-Good t (sends n latency c) v =
        let t' = record t {
          metrics = record t.metrics {
            messages_sent = t.metrics.messages_sent + 1;
            bytes_sent = t.metrics.bytes_sent + n;
            successes = t.metrics.successes + 1;
          };
          latency_samples =
              drop_old c.sampled (append_sample t.latency_samples (latency, c.sampled));
        } in
        either-Good (F.lt t.alert_config.latency_threshold latency) _ _
          (trigger_alert-Good t' high_latency c.alerted v) v
    step-Good t (receives n c) v = v
    step-Good t (fails c) v =
        either-Good _ _ _
          (trigger_alert-Good
            (update_calculated_metrics F int
              (record t { metrics = record t.metrics { failures = t.metrics.failures + 1 } })
              c.updated)
            high_error_rate c.alerted_again v)
          v
    step-Good t (connection true c) v = v
    step-Good t (connection false c) v =
        trigger_alert-Good
          (record t {
            metrics = record t.metrics {
              availability = F.ratio 0 1;
              failures = t.metrics.failures + 1;
            };
          })
          connection_failure c.alerted v
    step-Good t (depth n c) v =
        let t' = record t { metrics = record t.metrics { queue_depth = n } } in
        either-Good _ _ _ (trigger_alert-Good t' queue_backlog c.alerted v) v
    step-Good t resets v = v

    run-Good :
        (t : ChannelPerformanceTracker F) (es : List (Event F)) → Good t → Good (run F int t es)
    unfolding run
    run-Good t [] v = v
    run-Good t (e ∷ es) v = run-Good (step F int t e) es (step-Good t e v)

    new-Good : (sla : SlaConfig F) → Good (new F sla config)
    unfolding get
    new-Good sla = (refl, record { spaced = tt; kept = λ k. tt })

    -- In any sequence of operations, resets included, two alerts of one type are at least
    -- `min_alert_interval` apart.
    pub run-new-Spaced :
        (sla : SlaConfig F) (es : List (Event F))
        → Spaced config.min_alert_interval (run F int (new F sla config) es).alerts
    run-new-Spaced sla es = (run-Good (new F sla config) es (new-Good sla)).1.spaced
