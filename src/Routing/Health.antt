-- ===== src/Routing/Health.antt =====
-- `ChannelHealth` of communication/routing.py. `p95_index n` stands for `int(n * 0.95)`. Each method
-- is given its readings of the clock in order.
pub mod Counters
use pywatt_sdk.Prelude.{
  ℕ, zero, suc, ◌+◌, ◌-◌, ◌≤◌, Bool, true, false, ◌&&◌, List, [], ◌∷◌, ◌++◌, Option, none, some,
  length, drop, ltb, leb, if◌then◌else◌, nat_eq, ◌==◌,
}
use pywatt_sdk.Prelude.Float.{Float}
use pywatt_sdk.Routing.{
  RoutingCondition, max_size_condition, min_health_condition, max_latency_condition,
  min_throughput_condition,
}

pub record ChannelHealth (F : Float) : Type 0 where
  pub latency_p95 : F.Carrier
  pub error_rate : F.Carrier
  pub throughput : ℕ
  pub availability : F.Carrier
  pub last_failure : Option ℕ
  pub connected : Bool
  pub recent_latencies : List F.Carrier
  pub recent_errors : ℕ
  pub recent_successes : ℕ
  pub last_update : ℕ

abbrev pub minute : ℕ
minute = 60000000

module _ (F : Float) where
  -- `ChannelHealth()`
  abbrev pub new_health : ℕ → ChannelHealth F
  new_health now = record {
    latency_p95 = F.ratio 1 100;
    error_rate = F.ratio 0 1;
    throughput = 0;
    availability = F.ratio 1 1;
    last_failure = none;
    connected = true;
    recent_latencies = [];
    recent_errors = 0;
    recent_successes = 0;
    last_update = now;
  }

  -- `deque(maxlen=100).append`
  unfoldable pub append_latency : List F.Carrier → F.Carrier → List F.Carrier
  append_latency ls l = drop (length ls + 1 - 100) (ls ++ (l ∷ []))

  -- `sorted`, which keeps equal values in order.
  unfoldable pub insert_sorted : F.Carrier → List F.Carrier → List F.Carrier
  insert_sorted x [] = x ∷ []
  insert_sorted x (y ∷ ys) = if F.lt x y then x ∷ y ∷ ys else y ∷ insert_sorted x ys

  unfoldable pub sorted_from : List F.Carrier → List F.Carrier → List F.Carrier
  sorted_from acc [] = acc
  sorted_from acc (x ∷ xs) = sorted_from (insert_sorted x acc) xs

  -- `xs[i]` where there is such a place, else `xs[-1]`; `d` for the empty list, which is not read.
  unfoldable pub at_or_last : F.Carrier → List F.Carrier → ℕ → F.Carrier
  at_or_last d [] i = d
  at_or_last d (x ∷ xs) zero = x
  at_or_last d (x ∷ xs) (suc i) = at_or_last x xs i

  module _ (p95_index : ℕ → ℕ) where
    abbrev pub percentile : F.Carrier → List F.Carrier → F.Carrier
    percentile d ls = at_or_last d (sorted_from [] ls) (p95_index (length ls))

    -- `now₁` is read where there was a failure, `now₂` for the periodic reset.
    unfoldable pub availability_of : ChannelHealth F → ℕ → F.Carrier
    availability_of h now₁ = elim h.last_failure [
      | none ↦ F.sub (F.ratio 1 1) h.error_rate
      | some t ↦ if ltb (now₁ - t) minute then F.ratio 8 10 else F.sub (F.ratio 1 1) h.error_rate
    ]

    abbrev pub with_latency : ChannelHealth F → ChannelHealth F
    with_latency h = record h { latency_p95 = percentile h.latency_p95 h.recent_latencies }

    abbrev pub with_error_rate : ChannelHealth F → ChannelHealth F
    with_error_rate h =
        if ltb 0 (h.recent_errors + h.recent_successes)
        then record h {
          error_rate = F.ratio h.recent_errors (h.recent_errors + h.recent_successes);
        }
        else h

    -- `if datetime.now() - self.last_update > timedelta(minutes=5)`
    unfoldable pub reset_if_old : ChannelHealth F → ℕ → ChannelHealth F
    reset_if_old h now =
        if ltb (minute + minute + minute + minute + minute) (now - h.last_update)
        then record h { recent_errors = 0; recent_successes = 0; recent_latencies = [] }
        else h

    unfoldable pub update_metrics : ChannelHealth F → ℕ → ℕ → ChannelHealth F
    unfolding availability_of reset_if_old
    update_metrics h now₁ now₂ =
        let measured = with_error_rate (with_latency h) in
        reset_if_old (record measured { availability = availability_of measured now₁ }) now₂

    unfoldable pub record_success : ChannelHealth F → F.Carrier → ℕ → ℕ → ℕ → ChannelHealth F
    unfolding append_latency update_metrics
    record_success h latency updated now₁ now₂ =
        update_metrics
          (record h {
            recent_latencies = append_latency h.recent_latencies latency;
            recent_successes = h.recent_successes + 1;
            last_update = updated;
          })
          now₁ now₂

    unfoldable pub record_failure : ChannelHealth F → ℕ → ℕ → ℕ → ℕ → ChannelHealth F
    unfolding update_metrics
    record_failure h failed updated now₁ now₂ =
        update_metrics
          (record h {
            recent_errors = h.recent_errors + 1;
            last_failure = some failed;
            last_update = updated;
          })
          now₁ now₂

  unfoldable pub meets_condition : ChannelHealth F → RoutingCondition F → Bool
  meets_condition h (min_health_condition m) = F.le m h.availability
  meets_condition h (max_latency_condition m) = F.le h.latency_p95 m
  meets_condition h (min_throughput_condition m) = leb m h.throughput
  meets_condition h (max_size_condition m) = true
